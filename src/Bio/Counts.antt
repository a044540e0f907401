-- ===== src/Bio/Counts.antt =====
-- A buffer with a reference keeps its block, and `bget` answers with a buffer for the block asked.
use zrhos.Base.{
  All, ℕ, ◌+◌, ◌≡◌, ◌≢◌, inl, inr, Bool, false, Option, none, some, List, [], ◌∷◌, arith, ◌==◌,
  if◌then◌else◌, Bool-cases, Option-cases, u32,
}
use zrhos.Bio.Defs.{Buf, Cache, is_for, find_cached, recycle, bget}

-- What buffer `j` holds: device, block, whether it was read, and the data.
unfoldable pub block_at : ℕ → Cache → Option (ℕ × ℕ × Bool × List ℕ)
block_at j [] = none
block_at j (b ∷ c) =
    if b.index == j then some (b.dev, b.blockno, b.valid, b.contents) else block_at j c

-- The number of references to buffer `j`.
unfoldable pub refs_at : ℕ → Cache → ℕ
refs_at j [] = 0
refs_at j (b ∷ c) = if b.index == j then b.refcnt else refs_at j c

unfoldable pub key_at : ℕ → Cache → Option (ℕ × ℕ)
key_at j [] = none
key_at j (b ∷ c) = if b.index == j then some (b.dev, b.blockno) else key_at j c

-- No two buffers have one index.
abbrev pub Distinct : Cache → Type 0
Distinct [] = Unit
Distinct (b ∷ c) = All (λ (x : Buf). x.index ≢ b.index) c × Distinct c

module _ (d k : ℕ) where
  find_cached-block_at :
      (j i : ℕ) (c c' : Cache) → find_cached d k c ≡ some (i, c') → block_at j c' ≡ block_at j c
  unfolding find_cached block_at
  find_cached-block_at j i [] c' h = cc
  find_cached-block_at j i (b ∷ c) c' h = elim (Option-cases (find_cached d k c)) [
    | inl e ↦ ground arith
    | inr ((i', c''), e) ↦ ground (arith, find_cached-block_at j i' c c'' e)
  ]

  recycle-block_at :
      (j i : ℕ) (c c' : Cache)
      → recycle d k c ≡ some (i, c')
      → refs_at j c ≢ 0
      → block_at j c' ≡ block_at j c
  unfolding recycle block_at refs_at
  recycle-block_at j i [] c' h n = cc
  recycle-block_at j i (b ∷ c) c' h n = elim (Option-cases (recycle d k c)) [
    | inl e ↦ ground arith
    | inr ((i', c''), e) ↦ ground (arith, recycle-block_at j i' c c'' e)
  ]

  -- While a buffer has a reference, no `bget` gives it to another block or touches its data.
  pub bget-block_at :
      (j i : ℕ) (c c' : Cache)
      → bget d k c ≡ some (i, c')
      → refs_at j c ≢ 0
      → block_at j c' ≡ block_at j c
  unfolding bget
  bget-block_at j i c c' h n = elim (Option-cases (find_cached d k c)) [
    | inl e ↦ ground (arith, recycle-block_at j i c c')
    | inr ((i', c''), e) ↦ ground (arith, find_cached-block_at j i' c c'' e)
  ]

  find_cached-index_ne :
      (n i : ℕ) (c c' : Cache)
      → find_cached d k c ≡ some (i, c')
      → All (λ (x : Buf). x.index ≢ n) c
      → i ≢ n
  unfolding find_cached
  find_cached-index_ne n i [] c' h a = cc
  find_cached-index_ne n i (b ∷ c) c' h a = elim (Option-cases (find_cached d k c)) [
    | inl e ↦ ground (arith, a.0)
    | inr ((i', c''), e) ↦ ground (arith, a.0, find_cached-index_ne n i' c c'' e a.1)
  ]

  pub recycle-index_ne :
      (n i : ℕ) (c c' : Cache)
      → recycle d k c ≡ some (i, c')
      → All (λ (x : Buf). x.index ≢ n) c
      → i ≢ n
  unfolding recycle
  recycle-index_ne n i [] c' h a = cc
  recycle-index_ne n i (b ∷ c) c' h a = elim (Option-cases (recycle d k c)) [
    | inl e ↦ ground (arith, a.0)
    | inr ((i', c''), e) ↦ ground (arith, a.0, recycle-index_ne n i' c c'' e a.1)
  ]

  find_cached-key_at :
      (i : ℕ) (c c' : Cache)
      → find_cached d k c ≡ some (i, c')
      → Distinct c
      → (key_at i c' ≡ some (d, k)) × (refs_at i c' ≡ u32 (refs_at i c + 1))
  unfolding find_cached key_at refs_at
  find_cached-key_at i [] c' h u = cc
  find_cached-key_at i (b ∷ c) c' h u = elim (Option-cases (find_cached d k c)) [
    | inl e ↦ ground arith
    | inr ((i', c''), e) ↦
        ground
          (arith, find_cached-index_ne b.index i' c c'' e u.0, find_cached-key_at i' c c'' e u.1)
  ]

  recycle-key_at :
      (i : ℕ) (c c' : Cache)
      → recycle d k c ≡ some (i, c')
      → Distinct c
      → (key_at i c' ≡ some (d, k)) × (refs_at i c ≡ 0) × (refs_at i c' ≡ 1)
  unfolding recycle key_at refs_at
  recycle-key_at i [] c' h u = cc
  recycle-key_at i (b ∷ c) c' h u = elim (Option-cases (recycle d k c)) [
    | inl e ↦ ground arith
    | inr ((i', c''), e) ↦
        ground (arith, recycle-index_ne b.index i' c c'' e u.0, recycle-key_at i' c c'' e u.1)
  ]

  -- `bget` answers with a buffer for the block asked, with one reference more than before.
  pub bget-key_at :
      (i : ℕ) (c c' : Cache)
      → bget d k c ≡ some (i, c')
      → Distinct c
      → (key_at i c' ≡ some (d, k)) × (refs_at i c' ≡ u32 (refs_at i c + 1))
  unfolding bget
  bget-key_at i c c' h u = elim (Option-cases (find_cached d k c)) [
    | inl e ↦ ground (arith, recycle-key_at i c c')
    | inr ((i', c''), e) ↦ ground (arith, find_cached-key_at i' c c'' e u)
  ]

  recycle-none :
      (c : Cache)
      → find_cached d k c ≡ none
      → recycle d k c ≡ none
      → All (λ (b : Buf). (is_for d k b ≡ false) × (b.refcnt ≢ 0)) c
  unfolding find_cached recycle
  recycle-none [] e h = tt
  recycle-none (b ∷ c) e h = elim (Bool-cases (is_for d k b)) [
    | inl t ↦ absurd (ground arith)
    | inr f ↦ elim (Option-cases (recycle d k c)) [
      | inl g ↦ elim (Option-cases (find_cached d k c)) [
        | inl g' ↦ ((f, ground arith), recycle-none c g' g)
        | inr (r, g') ↦ absurd (ground arith)
      ]
      | inr (r, g) ↦ absurd (ground arith)
    ]
  ]

  -- `bget` panics only when no buffer has the block and every buffer has a reference.
  pub bget-none :
      (c : Cache) → bget d k c ≡ none → All (λ (b : Buf). (is_for d k b ≡ false) × (b.refcnt ≢ 0)) c
  unfolding bget
  bget-none c h = elim (Option-cases (find_cached d k c)) [
    | inl e ↦ recycle-none c e (ground arith)
    | inr (r, e) ↦ absurd (ground arith)
  ]
