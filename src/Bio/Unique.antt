-- ===== src/Bio/Unique.antt =====
-- No disk block is cached in two buffers.
use zrhos.Base.{
  ℕ, zero, suc, ◌+◌, ◌≤◌, ◌≡◌, ◌≢◌, refl, ap, ◌∙◌, ◌⊎◌, inl, inr, Bool, true, false, ◌&&◌, Option,
  none, some, List, [], ◌∷◌, arith, ◌==◌, Bool-cases, Option-cases, u32, sub32,
}
use zrhos.Lock.Semaphore.{lm_V}
use zrhos.Bio.Defs.{
  brelse, bpin, bunpin, lock_buf, hold, Buf, Cache, binit, binit_loop, is_for, find_cached, recycle,
  bget, change, find_index, unlink, put_back,
}

abbrev pub one_if : Bool → ℕ
one_if true = 1
one_if false = 0

-- The number of buffers that hold the block.
pub holders : ℕ → ℕ → Cache → ℕ
holders dev blockno [] = 0
holders dev blockno (b ∷ c) = one_if (is_for dev blockno b) + holders dev blockno c

pub find_index-index : (i : ℕ) (b : Buf) (c : Cache) → find_index i c ≡ some b → b.index ≡ i
unfolding find_index
find_index-index i b [] h = cc
find_index-index i b (x ∷ c) h = ground (arith, find_index-index i b c)

module _ (dev blockno : ℕ) where
  find_cached-holders :
      (d k i : ℕ) (c c' : Cache)
      → find_cached d k c ≡ some (i, c')
      → holders dev blockno c' ≡ holders dev blockno c
  unfolding find_cached holders
  find_cached-holders d k i [] c' h = cc
  find_cached-holders d k i (b ∷ c) c' h = elim (Bool-cases (is_for d k b)) [
    | inl t ↦ ground arith
    | inr f ↦ elim (Option-cases (find_cached d k c)) [
      | inl e ↦ ground arith
      | inr ((j, c''), e) ↦ ground (arith, find_cached-holders d k j c c'' e)
    ]
  ]

  find_cached-none : (c : Cache) → find_cached dev blockno c ≡ none → holders dev blockno c ≡ 0
  unfolding find_cached holders
  find_cached-none [] h = refl
  find_cached-none (b ∷ c) h = elim (Bool-cases (is_for dev blockno b)) [
    | inl t ↦ ground arith
    | inr f ↦ elim (Option-cases (find_cached dev blockno c)) [
      | inl e ↦ ground (arith, find_cached-none c e)
      | inr ((j, c''), e) ↦ ground arith
    ]
  ]

  recycle-holders :
      (d k i : ℕ) (c c' : Cache)
      → recycle d k c ≡ some (i, c')
      → holders dev blockno c' ≤ holders dev blockno c + one_if ((d == dev) && (k == blockno))
  unfolding recycle holders
  recycle-holders d k i [] c' h = cc
  recycle-holders d k i (b ∷ c) c' h = elim (Option-cases (recycle d k c)) [
    | inl e ↦ ground arith
    | inr ((j, c''), e) ↦ ground (arith, recycle-holders d k j c c'' e)
  ]

  bget-holders :
      (d k i : ℕ) (c c' : Cache)
      → bget d k c ≡ some (i, c')
      → holders dev blockno c ≤ 1
      → holders dev blockno c' ≤ 1
  unfolding bget
  bget-holders d k i c c' h small = elim (Option-cases (find_cached d k c)) [
    | inl e ↦ ground (arith, recycle-holders d k i c c', same_key e)
    | inr ((j, c''), e) ↦ ground (arith, find_cached-holders d k j c c'' e)
  ]
    where
      same_key :
          find_cached d k c ≡ none
          → (holders dev blockno c ≡ 0) ⊎ (((d == dev) && (k == blockno)) ≡ false)
      same_key e = elim (Bool-cases ((d == dev) && (k == blockno))) [
        | inl t ↦
            let p : d ≡ dev = ground arith in
            let q : k ≡ blockno = ground arith in inl (find_cached-none c (rw (p, q) at e))
        | inr f ↦ inr f
      ]

  change-holders :
      (i : ℕ) (f : Buf → Buf) (c : Cache)
      → ((b : Buf) → ((f b).dev ≡ b.dev) × ((f b).blockno ≡ b.blockno))
      → holders dev blockno (change i f c) ≡ holders dev blockno c
  unfolding change holders
  change-holders i f [] same = refl
  change-holders i f (b ∷ c) same = ground (arith, same b, change-holders i f c same)

  -- A buffer that is taken out accounts for its own block.
  unlink-holders :
      (i : ℕ) (b : Buf) (c : Cache)
      → find_index i c ≡ some b
      → one_if (is_for dev blockno b) + holders dev blockno (unlink i c) ≡ holders dev blockno c
  unfolding unlink find_index holders
  unlink-holders i b [] h = cc
  unlink-holders i b (x ∷ c) h = ground (arith, unlink-holders i b c)

  -- Replacing the buffer found by one for the same block.
  replace-holders :
      (i : ℕ) (b b' : Buf) (c : Cache)
      → find_index i c ≡ some b
      → b'.dev ≡ b.dev
      → b'.blockno ≡ b.blockno
      → holders dev blockno (change i (λ _. b') c) ≡ holders dev blockno c
  unfolding change find_index holders
  replace-holders i b b' [] h p q = cc
  replace-holders i b b' (x ∷ c) h p q = ground (arith, replace-holders i b b' c)

  put_back-holders :
      (b b' : Buf) (c : Cache)
      → find_index b'.index c ≡ some b
      → b'.dev ≡ b.dev
      → b'.blockno ≡ b.blockno
      → holders dev blockno (put_back b' c) ≡ holders dev blockno c
  unfolding put_back holders
  put_back-holders b b' c h p q = elim (Bool-cases (sub32 b'.refcnt 1 == 0)) [
    | inl t ↦ rw t (ground (arith, unlink-holders b'.index b c h))
    | inr f ↦ rw f (replace-holders b'.index b (record b' { refcnt = sub32 b'.refcnt 1 }) c h p q)
  ]

  brelse-holders :
      (pid i : ℕ) (c c' : Cache) (woken : Option ℕ)
      → brelse pid i c ≡ some (c', woken)
      → holders dev blockno c' ≡ holders dev blockno c
  unfolding brelse
  brelse-holders pid i c c' woken h = elim (Option-cases (find_index i c)) [
    | inl e ↦ ground arith
    | inr (b, e) ↦ elim (Option-cases (lm_V b.sem)) [
      | inl f ↦ ground arith
      | inr ((s, w), f) ↦
          let found : find_index b.index c ≡ some b =
            ap (λ j. find_index j c) (find_index-index i b c e) ∙ e in
          ground (arith, put_back-holders b (record b { sem = s }) c found refl refl)
    ]
  ]

-- One step of the cache: what a task does under `bcache.lock`, or with a buffer that it was given.
pub data Step (c : Cache) : Cache → Type 0 where
  got : (dev blockno i : ℕ) {c' : Cache} → bget dev blockno c ≡ some (i, c') → Step c c'
  locked : (i pid : ℕ) → Step c (change i (λ b. (lock_buf pid b).0) c)
  held : (i pid : ℕ) → Step c (change i (hold pid) c)
  filled : (i : ℕ) (x : List ℕ) → Step c (change i (λ b. record b { valid = true; contents = x }) c)
  released :
      (pid i : ℕ) (woken : Option ℕ) {c' : Cache} → brelse pid i c ≡ some (c', woken) → Step c c'
  pinned : (i : ℕ) → Step c (bpin i c)
  unpinned : (i : ℕ) → Step c (bunpin i c)

pub data Reach : Cache → Type 0 where
  start : Reach binit
  next : {c c' : Cache} → Reach c → Step c c' → Reach c'

binit-holders : (dev blockno n : ℕ) → dev ≢ 0 → holders dev blockno (binit_loop n) ≡ 0
unfolding holders binit_loop
binit-holders dev blockno zero h = refl
binit-holders dev blockno (suc n) h = ground (arith, binit-holders dev blockno n h)

Step-holders :
    (dev blockno : ℕ) (c c' : Cache)
    → Step c c'
    → holders dev blockno c ≤ 1
    → holders dev blockno c' ≤ 1
unfolding lock_buf hold bpin bunpin
Step-holders dev blockno c c' (got d k i e) h = bget-holders dev blockno d k i c c' e h
Step-holders dev blockno c c' (locked i pid) h =
    omega (arith, change-holders dev blockno i (λ b. (lock_buf pid b).0) c (λ b. ground arith))
Step-holders dev blockno c c' (held i pid) h =
    omega (arith, change-holders dev blockno i (hold pid) c (λ b. (refl, refl)))
Step-holders dev blockno c c' (filled i x) h = omega (
  arith,
  change-holders dev blockno i (λ b. record b { valid = true; contents = x }) c (λ b. (refl, refl)),
)
Step-holders dev blockno c c' (released pid i woken e) h =
    omega (arith, brelse-holders dev blockno pid i c c' woken e)
Step-holders dev blockno c c' (pinned i) h = omega (
  arith,
  change-holders dev blockno i (λ b. record b { refcnt = u32 (b.refcnt + 1) }) c
      (λ b. (refl, refl)),
)
Step-holders dev blockno c c' (unpinned i) h = omega (
  arith,
  change-holders dev blockno i (λ b. record b { refcnt = sub32 b.refcnt 1 }) c (λ b. (refl, refl)),
)

-- However the tasks use the cache, no block of a device other than 0 is held by two buffers.
pub Reach-holders : (dev blockno : ℕ) (c : Cache) → Reach c → dev ≢ 0 → holders dev blockno c ≤ 1
unfolding binit
Reach-holders dev blockno c start h = omega (arith, binit-holders dev blockno 100 h)
Reach-holders dev blockno c (next r st) h =
    Step-holders dev blockno _ c st (Reach-holders dev blockno _ r h)
