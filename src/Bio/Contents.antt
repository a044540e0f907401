-- ===== src/Bio/Contents.antt =====
-- What `bread` gives for a block that is not cached.
use zrhos.Base.{ℕ, ◌≡◌, inl, inr, true, false, none, some, [], ◌∷◌, arith, Option-cases}
use zrhos.Bio.Defs.{
  Buf, Cache, Disk, find_cached, recycle, bget, change, find_index, lock_buf, fill, bread,
}
use zrhos.Bio.Counts.{Distinct, block_at, recycle-index_ne}

change-block_at :
    (i : ℕ) (b b' : Buf) (c : Cache)
    → find_index i c ≡ some b
    → b'.index ≡ b.index
    → block_at i (change i (λ _. b') c) ≡ some (b'.dev, b'.blockno, b'.valid, b'.contents)
unfolding find_index change block_at
change-block_at i b b' [] h e = cc
change-block_at i b b' (x ∷ c) h e = ground (arith, change-block_at i b b' c)

-- A recycled buffer is for its new block and not yet read.
recycle-found :
    (d k i : ℕ) (b : Buf) (c c' : Cache)
    → recycle d k c ≡ some (i, c')
    → Distinct c
    → find_index i c' ≡ some b
    → (b.dev ≡ d) × (b.blockno ≡ k) × (b.valid ≡ false)
unfolding recycle find_index
recycle-found d k i b [] c' h u f = cc
recycle-found d k i b (x ∷ c) c' h u f = elim (Option-cases (recycle d k c)) [
  | inl e ↦ ground arith
  | inr ((i', c''), e) ↦
      ground
        (arith, recycle-index_ne d k x.index i' c c'' e u.0, recycle-found d k i' b c c'' e u.1)
]

module _ (disk : Disk) where
  open disk use {State, read_block}

  filled-block_at :
      (pid i : ℕ) (d : State) (b : Buf) (c : Cache)
      → find_index i c ≡ some b
      → b.valid ≡ false
      → block_at i (change i (λ _. fill disk d (lock_buf pid b).0) c)
        ≡ some (b.dev, b.blockno, true, read_block d b.blockno)
  unfolding lock_buf fill
  filled-block_at pid i d b c h v =
      ground (arith, change-block_at i b (fill disk d (lock_buf pid b).0) c h)

  -- `bread` of a block that is not cached, where it need not sleep: whatever buffer it recycles, that buffer has the
  -- block then, valid and with the bytes that the disk has.
  pub bread-miss :
      (pid dev k i : ℕ) (d : State) (c c' : Cache)
      → bread disk pid dev k d c ≡ some (i, false, c')
      → find_cached dev k c ≡ none
      → Distinct c
      → block_at i c' ≡ some (dev, k, true, read_block d k)
  unfolding bread bget
  bread-miss pid dev k i d c c' h miss u = elim (Option-cases (recycle dev k c)) [
    | inl e ↦ absurd (ground arith)
    | inr ((i', c''), e) ↦ elim (Option-cases (find_index i' c'')) [
      | inl f ↦ absurd (ground arith)
      | inr (b, f) ↦
          ground (arith, recycle-found dev k i' b c c'' e u f, filled-block_at pid i' d b c'' f)
    ]
  ]
