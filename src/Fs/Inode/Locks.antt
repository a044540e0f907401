-- ===== src/Fs/Inode/Locks.antt =====
-- Where `iput`, `itrunc` and `ialloc` meet the semaphore and the disk copy of an inode.
use zrhos.Base.{
  ℕ, zero, suc, ◌+◌, ◌-◌, ◌*◌, ◌/◌, ◌%◌, ◌^◌, ◌≤◌, ◌<◌, ◌≡◌, ◌⊎◌, inl, inr, refl, ap, subst, ◌∙◌,
  true, false, ◌||◌, ltb, Option, none, some, ◌==◌, arith, Bool-cases, Option-cases, some_pair,
  ==_refl,
}
use zrhos.Fs.Bitmap.{Superblock, Blocks}
use zrhos.Fs.Bytes.{read16}
use zrhos.Fs.Itable.{Itable, ninode, holds, iget, iget_loop, iget_end}
use zrhos.Fs.Itable.Unique.{iget_loop-found, Search-cases, no_answer}
use zrhos.Fs.Inode.{
  Dinode, Node, Outcome, returns, panics, waits, inode_block, read_dinode, acquire, load, ilock,
  held_inodes, ialloc_loop, ialloc, slots, with_slots, set_type,
}
use zrhos.Fs.Inode.RoundTrip.{disk_inode, loading, ilock-loading}

-- The loop follows the blocks, so it holds the block of its inode.
Follows : Superblock → ℕ → Option ℕ → Type 0
Follows sb i none = Unit
Follows sb i (some n) = n ≤ inode_block i sb

held_inodes-inode_block :
    (sb : Superblock) (i : ℕ) (held : Option ℕ)
    → Follows sb i held
    → held_inodes sb i held ≡ inode_block i sb
unfolding Follows
held_inodes-inode_block sb i none f = refl
held_inodes-inode_block sb i (some n) f = ground arith

ialloc_loop-some :
    (sb : Superblock) (d : Blocks) (rounds i k : ℕ) (held : Option ℕ)
    → (i + rounds) / 16 + sb.inodestart < 2 ^ 32
    → Follows sb i held
    → ialloc_loop sb rounds i held d ≡ some k
    → (disk_inode sb d k).type ≡ 0
unfolding ialloc_loop Follows disk_inode read_dinode
ialloc_loop-some sb d zero i k held fits f h = cc
ialloc_loop-some sb d (suc rounds) i k held fits f h =
    let at = held_inodes-inode_block sb i held f in
    elim (Bool-cases (read16 d (inode_block i sb) (i % 16 * 64) == 0)) [
      | inl free ↦
          let here : some i ≡ some k = rw (at, free) at h in
          let same : i ≡ k = cc in
          subst (λ j. read16 d (inode_block j sb) (j % 16 * 64) ≡ 0) same (ground arith)
      | inr used ↦
          let rest : ialloc_loop sb rounds (i + 1) (some (inode_block i sb)) d ≡ some k =
            rw (at, used) at h in
          ialloc_loop-some sb d rounds (i + 1) k (some (inode_block i sb)) (omega (arith, fits))
            (omega (arith, fits)) rest
    ]

-- What `iget` answers: an entry that holds the inode, or an empty one that it fills.
iget-answer :
    (dev inum k : ℕ) (s s' : Itable)
    → iget dev inum s ≡ some (k, s')
    → ((s' k).inum ≡ inum)
      × ((holds dev inum (s k) ≡ true) ⊎ (((s' k).valid ≡ false) × ((s' k).ref ≡ 1)))
unfolding iget iget_end
iget-answer dev inum k s s' h = elim (Search-cases (iget_loop ninode 0 dev inum none s)) [
  | inl (i, e) ↦
      let got = some_pair (rw e at h) in
      let held =
        subst (λ j. holds dev inum (s j) ≡ true) got.0
          (iget_loop-found ninode 0 dev inum i none s e).1 in
      (subst (λ u. (u k).inum ≡ inum) got.1 (ground arith), inl held)
  | inr (inl e) ↦ absurd (no_answer (rw e at h))
  | inr (inr (i, e)) ↦
      let got = some_pair (rw e at h) in
      subst
        (λ t.
          ((t k).inum ≡ inum)
          × ((holds dev inum (s k) ≡ true) ⊎ (((t k).valid ≡ false) × ((t k).ref ≡ 1))))
        got.1 (ground arith, inr (ground arith, ground arith))
]

-- The entry that `ialloc` returns.
abbrev fresh : (ℕ → Node) → Itable → ℕ → ℕ → Node
fresh t s k type = set_type (with_slots t s) k type k

loading-panics : (ip : Node) (c : Dinode) → c.type ≡ 0 → loading ip c ≡ panics
loading-panics ip c h = rw h refl

ilock-fresh :
    (sb : Superblock) (d : Blocks) (ip : Node) (inum : ℕ)
    → (disk_inode sb d inum).type ≡ 0
    → ip.lock ≡ 1
    → ip.slot.inum ≡ inum
    → (ip.slot.valid ≡ false) × (ip.slot.ref ≡ 1)
    → ilock sb d ip ≡ panics
ilock-fresh sb d ip inum free unlocked own (invalid, ref) =
    ilock-loading sb d ip (omega arith) (omega arith) invalid unlocked
    ∙ loading-panics ip (disk_inode sb d ip.slot.inum) (rw own free)

set_type-slot : (t : ℕ → Node) (k type : ℕ) → (set_type t k type k).slot ≡ (t k).slot
set_type-slot t k type = rw (==_refl k) refl

set_type-lock : (t : ℕ → Node) (k type : ℕ) → (set_type t k type k).lock ≡ (t k).lock
set_type-lock t k type = rw (==_refl k) refl

returned :
    {j k : ℕ} {t u : ℕ → Node}
    → ◌≡◌ {A = Outcome (Option ℕ × (ℕ → Node))} (returns (some j, t)) (returns (some k, u))
    → (j ≡ k) × (t ≡ u)
returned {j} {k} {t} h = (ap (λ o. from_some (value o).0) h, ap (λ o. (value o).1) h)
  where
    value : Outcome (Option ℕ × (ℕ → Node)) → Option ℕ × (ℕ → Node)
    value (returns x) = x
    value panics = (none, t)
    value waits = (none, t)

    from_some : Option ℕ → ℕ
    from_some none = j
    from_some (some i) = i

no_entry :
    {k : ℕ} {t u : ℕ → Node}
    → ◌≡◌ {A = Outcome (Option ℕ × (ℕ → Node))} (returns (none, t)) (returns (some k, u))
    → ⊥
no_entry h = cc

no_return :
    {k : ℕ} {u : ℕ → Node}
    → ◌≡◌ {A = Outcome (Option ℕ × (ℕ → Node))} panics (returns (some k, u))
    → ⊥
no_return h = cc

-- The entry `k` that `ialloc` returns is of an inode that is free on the disk: the table held it before, or
-- it is not read yet.
abbrev pub IsFreeEntry : Superblock → ℕ → ℕ → Blocks → (ℕ → Node) → (ℕ → Node) → Type 0
IsFreeEntry sb dev k d t u =
    ((disk_inode sb d (u k).slot.inum).type ≡ 0)
    × ((u k).lock ≡ (t k).lock)
    × ((holds dev (u k).slot.inum (t k).slot ≡ true)
        ⊎ (((u k).slot.valid ≡ false) × ((u k).slot.ref ≡ 1)))

new_entry :
    (sb : Superblock) (dev type j inum : ℕ) (d : Blocks) (t : ℕ → Node) (s : Itable)
    → (disk_inode sb d inum).type ≡ 0
    → ((s j).inum ≡ inum)
      × ((holds dev inum (t j).slot ≡ true) ⊎ (((s j).valid ≡ false) × ((s j).ref ≡ 1)))
    → IsFreeEntry sb dev j d t (set_type (with_slots t s) j type)
new_entry sb dev type j inum d t s free (own, kind) =
    let slot = set_type-slot (with_slots t s) j type in
    let lock = set_type-lock (with_slots t s) j type in rw (slot, lock, own) (free, refl, kind)

pub ialloc-IsFreeEntry :
    (sb : Superblock) (dev type k : ℕ) (d : Blocks) (t t' : ℕ → Node)
    → sb.ninodes / 16 + sb.inodestart < 2 ^ 32
    → ialloc sb dev type d t ≡ returns (some k, t')
    → IsFreeEntry sb dev k d t t'
unfolding ialloc Follows
ialloc-IsFreeEntry sb dev type k d t t' fits h =
    elim (Option-cases (ialloc_loop sb (sb.ninodes - 1) 1 none d)) [
      | inl e ↦ absurd (no_entry (rw (e, ialloc) at h))
      | inr (i, e) ↦ elim (Option-cases (iget dev i (slots t))) [
        | inl f ↦ absurd (no_return (rw (e, f, ialloc) at h))
        | inr ((j, s), f) ↦
            let out : returns (some j, set_type (with_slots t s) j type) ≡ returns (some k, t') =
              rw (e, f, ialloc) at h in
            let (here, same) = returned out in
            let free = ialloc_loop-some sb d (sb.ninodes - 1) 1 i none (omega arith) tt e in
            let new = new_entry sb dev type j i d t s free (iget-answer dev i j (slots t) s f) in
            subst (λ u. IsFreeEntry sb dev k d t u) same
              (subst (λ n. IsFreeEntry sb dev n d t (set_type (with_slots t s) j type)) here new)
      ]
    ]

-- The inode that `ialloc` finds is free on the disk, and stays so: unless the table held it already, the
-- `ilock` that has to follow panics, where nobody holds its lock.
pub ialloc-ilock :
    (sb : Superblock) (dev type k : ℕ) (d : Blocks) (t t' : ℕ → Node)
    → sb.ninodes / 16 + sb.inodestart < 2 ^ 32
    → (t k).lock ≡ 1
    → ialloc sb dev type d t ≡ returns (some k, t')
    → (holds dev (t' k).slot.inum (t k).slot ≡ true) ⊎ (ilock sb d (t' k) ≡ panics)
ialloc-ilock sb dev type k d t t' fits unlocked h =
    let (free, lock, kind) = ialloc-IsFreeEntry sb dev type k d t t' fits h in
    elim kind [
      | inl held ↦ inl held
      | inr new ↦ inr (ilock-fresh sb d (t' k) (t' k).slot.inum free (lock ∙ unlocked) refl new)
    ]

-- `ilock` never returns for an inode that is free on the disk and not read yet.
pub ilock_free :
    (sb : Superblock) (d : Blocks) (ip : Node)
    → (disk_inode sb d ip.slot.inum).type ≡ 0
    → (ip.slot.valid ≡ false) × (ip.slot.ref ≡ 1)
    → (ilock sb d ip ≡ panics) ⊎ (ilock sb d ip ≡ waits)
unfolding ilock acquire load disk_inode
ilock_free sb d ip free (invalid, ref) = elim (Bool-cases (ip.lock == 0)) [
  | inl y ↦
      let has_ref : ((ip.slot.ref == 0) || ltb (2 ^ 31 - 1) ip.slot.ref) ≡ false = ground arith in
      inr (rw (has_ref, y) refl)
  | inr g ↦
      let has_ref : ((ip.slot.ref == 0) || ltb (2 ^ 31 - 1) ip.slot.ref) ≡ false = ground arith in
      inl (rw (has_ref, g, invalid, free) refl)
]
