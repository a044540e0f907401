-- ===== src/Fs/Bitmap/Laws.antt =====
-- What `balloc` and `bfree` do to the set of allocated blocks.
use zrhos.Base.{
  some_pair, subst, sym, ℕ_discrete, ℕ, zero, suc, ◌+◌, ◌-◌, ◌/◌, ◌%◌, ◌^◌, ◌≤◌, ◌<◌, ◌≡◌, ◌≢◌,
  refl, ap, ◌∙◌, ◌⊎◌, inl, inr, Bool, true, false, ◌&&◌, Option, none, some, arith, ◌==◌,
  if◌then◌else◌, Bool-cases,
}
use zrhos.Base.Bits.{has_bit, with_bit, without_bit, has_bit-with_bit, has_bit-without_bit}
use zrhos.Fs.Bitmap.{
  Superblock, map_block, get_datastart, Blocks, write_byte, held_block, balloc_loop, balloc, bfree,
}

-- Block `b` is marked in the free map.
unfoldable pub allocated : Superblock → Blocks → ℕ → Bool
allocated sb d b = has_bit (d (map_block b sb) (b % 8192 / 8)) (b % 8192 % 8)

-- The map blocks have numbers of 32 bits.
abbrev pub Fits : Superblock → Type 0
Fits sb = sb.nblocks / 8192 + sb.bmapstart < 2 ^ 32

abbrev pub AreBytes : Blocks → Type 0
AreBytes d = (n i : ℕ) → d n i < 256

module _ (sb : Superblock) (d : Blocks) (fits : Fits sb) where
  -- Writing one byte of the map, seen at another block.
  write_byte-allocated :
      (b j x : ℕ) (v : Bool)
      → b < sb.nblocks
      → j < sb.nblocks
      → (has_bit x (j % 8192 % 8) ≡ (
          if b % 8192 % 8 == j % 8192 % 8
          then v
          else has_bit (d (map_block b sb) (b % 8192 / 8)) (j % 8192 % 8)))
      → allocated sb (write_byte d (map_block b sb) (b % 8192 / 8) x) j
        ≡ (if b == j then v else allocated sb d j)
  unfolding allocated
  write_byte-allocated b j x v hb hj e =
      elim (Bool-cases ((map_block b sb == map_block j sb) && (b % 8192 / 8 == j % 8192 / 8))) [
        | inl t ↦ rw (t, e) (here (ground arith) (ground arith))
        | inr f ↦ let apart : (b == j) ≡ false = ground arith in rw (f, apart)
      ]
    where
      here :
          map_block b sb ≡ map_block j sb
          → b % 8192 / 8 ≡ j % 8192 / 8
          → (if b % 8192 % 8 == j % 8192 % 8
              then v
              else has_bit (d (map_block b sb) (b % 8192 / 8)) (j % 8192 % 8))
            ≡ (if b == j then v else has_bit (d (map_block j sb) (j % 8192 / 8)) (j % 8192 % 8))
      here p q = elim (Bool-cases (b == j)) [
        | inl t ↦ let same : (b % 8192 % 8 == j % 8192 % 8) ≡ true = ground arith in rw (t, same)
        | inr f ↦
            let other : (b % 8192 % 8 == j % 8192 % 8) ≡ false = ground (arith, quotients p) in
            rw (f, other, p, q)
      ]
        where
          quotients : map_block b sb ≡ map_block j sb → b / 8192 ≡ j / 8192
          quotients p = omega arith

  -- The write of `balloc` marks its block and no other.
  mark-allocated :
      (b j : ℕ)
      → AreBytes d
      → b < sb.nblocks
      → j < sb.nblocks
      → allocated sb
          (write_byte d
            (map_block b sb)
            (b % 8192 / 8)
            (with_bit (d (map_block b sb) (b % 8192 / 8)) (b % 8192 % 8)))
          j
        ≡ (if b == j then true else allocated sb d j)
  mark-allocated b j bytes hb hj = write_byte-allocated b j _ true hb hj (
      has_bit-with_bit (d (map_block b sb) (b % 8192 / 8)) (b % 8192 % 8) (j % 8192 % 8)
        (bytes (map_block b sb) (b % 8192 / 8)) (omega arith) (omega arith))

  unmark-allocated :
      (b j : ℕ)
      → AreBytes d
      → b < sb.nblocks
      → j < sb.nblocks
      → allocated sb
          (write_byte d
            (map_block b sb)
            (b % 8192 / 8)
            (without_bit (d (map_block b sb) (b % 8192 / 8)) (b % 8192 % 8)))
          j
        ≡ (if b == j then false else allocated sb d j)
  unmark-allocated b j bytes hb hj = write_byte-allocated b j _ false hb hj (
      has_bit-without_bit (d (map_block b sb) (b % 8192 / 8)) (b % 8192 % 8) (j % 8192 % 8)
        (bytes (map_block b sb) (b % 8192 / 8)) (omega arith) (omega arith))

  -- The loop always holds the map block of its round.
  Follows : ℕ → Option ℕ → Type 0
  Follows i none = Unit
  Follows i (some n) = n ≤ map_block i sb

  held_block-map_block :
      (i : ℕ) (held : Option ℕ) → Follows i held → held_block sb i held ≡ map_block i sb
  unfolding Follows
  held_block-map_block i none f = refl
  held_block-map_block i (some n) f = ground arith

  balloc_loop-some :
      (rounds i b : ℕ) (held : Option ℕ) (d' : Blocks)
      → Follows i held
      → i + rounds ≡ sb.nblocks
      → balloc_loop sb rounds i held d ≡ some (b, d')
      → (i ≤ b)
        × (b < sb.nblocks)
        × (allocated sb d b ≡ false)
        × (d'
            ≡ write_byte d
                (map_block b sb)
                (b % 8192 / 8)
                (with_bit (d (map_block b sb) (b % 8192 / 8)) (b % 8192 % 8)))
  unfolding balloc_loop Follows allocated
  balloc_loop-some zero i b held d' f e h = cc
  balloc_loop-some (suc rounds) i b held d' f e h =
      elim (Bool-cases (has_bit (d (map_block i sb) (i % 8192 / 8)) (i % 8192 % 8))) [
        | inl used ↦
            let rest : balloc_loop sb rounds (i + 1) (some (map_block i sb)) d ≡ some (b, d') =
              rw (held_block-map_block i held f, used) at h in
            let (le, lt, free, is) =
              balloc_loop-some rounds (i + 1) b (some (map_block i sb)) d' (omega (arith, fits))
                (omega arith) rest in
            (omega arith, lt, free, is)
        | inr free ↦
            let done : ◌≡◌ {A = Option (ℕ × Blocks)}
                (some (
                  i,
                  write_byte d (map_block i sb) (i % 8192 / 8)
                      (with_bit (d (map_block i sb) (i % 8192 / 8)) (i % 8192 % 8)),
                ))
                (some (b, d')) =
              rw (held_block-map_block i held f, free) at h in
            let (here, out) = some_pair done in
            subst
              (λ c.
                (i ≤ c)
                × (c < sb.nblocks)
                × (allocated sb d c ≡ false)
                × (d'
                    ≡ write_byte d (map_block c sb) (c % 8192 / 8)
                        (with_bit (d (map_block c sb) (c % 8192 / 8)) (c % 8192 % 8))))
              here (omega arith, omega arith, free, sym out)
      ]

  no_block : {b : ℕ} {x : Blocks} → ◌≡◌ {A = Option (ℕ × Blocks)} (some (b, x)) none → ⊥
  no_block h = cc

  balloc_loop-none :
      (rounds i j : ℕ) (held : Option ℕ)
      → Follows i held
      → i + rounds ≡ sb.nblocks
      → balloc_loop sb rounds i held d ≡ none
      → i ≤ j
      → j < sb.nblocks
      → allocated sb d j ≡ true
  unfolding balloc_loop Follows allocated
  balloc_loop-none zero i j held f e h le lt = absurd (omega arith)
  balloc_loop-none (suc rounds) i j held f e h le lt =
      elim (Bool-cases (has_bit (d (map_block i sb) (i % 8192 / 8)) (i % 8192 % 8))) [
        | inl used ↦
            let rest : balloc_loop sb rounds (i + 1) (some (map_block i sb)) d ≡ none =
              rw (held_block-map_block i held f, used) at h in
            elim (ℕ_discrete i j) [
              | yes here ↦ rw here at used
              | no later ↦
                  balloc_loop-none rounds (i + 1) j (some (map_block i sb)) (omega (arith, fits))
                    (omega arith) rest (omega arith) lt
            ]
        | inr free ↦ absurd (no_block (rw (held_block-map_block i held f, free) at h))
      ]

-- `balloc` marks one block that was free, at or after the start of the data, and no other.
pub balloc-allocated :
    (sb : Superblock) (d d' : Blocks) (datastart b j : ℕ)
    → Fits sb
    → AreBytes d
    → datastart ≤ sb.nblocks
    → j < sb.nblocks
    → balloc sb datastart d ≡ some (b, d')
    → (datastart ≤ b)
      × (b < sb.nblocks)
      × (allocated sb d b ≡ false)
      × (allocated sb d' j ≡ (if b == j then true else allocated sb d j))
unfolding balloc Follows
balloc-allocated sb d d' datastart b j fits bytes le hj h =
    let (from, below, free, is) =
      balloc_loop-some sb d fits (sb.nblocks - datastart) datastart b none d' tt (omega arith) h in
    (from, below, free, ap (λ x. allocated sb x j) is ∙ mark-allocated sb d fits b j bytes below hj)

-- `balloc` panics only when every block from the start of the data on is allocated.
pub balloc-none :
    (sb : Superblock) (d : Blocks) (datastart j : ℕ)
    → Fits sb
    → balloc sb datastart d ≡ none
    → datastart ≤ j
    → j < sb.nblocks
    → allocated sb d j ≡ true
unfolding balloc Follows
balloc-none sb d datastart j fits h le hj =
    balloc_loop-none sb d fits (sb.nblocks - datastart) datastart j none tt (omega arith) h le hj

-- `bfree` panics on a block that is free, and otherwise unmarks that block and no other.
pub bfree-allocated :
    (sb : Superblock) (d : Blocks) (b j : ℕ)
    → Fits sb
    → AreBytes d
    → b < sb.nblocks
    → j < sb.nblocks
    → ((allocated sb d b ≡ false) × (bfree sb b d ≡ none))
      ⊎ ((allocated sb d b ≡ true)
          × ((d' : Blocks) × (bfree sb b d ≡ some d')
              × (allocated sb d' j ≡ (if b == j then false else allocated sb d j))))
unfolding bfree allocated
bfree-allocated sb d b j fits bytes hb hj = elim (Bool-cases (allocated sb d b)) [
  | inl used ↦ inr (
    used,
    (
      write_byte d (map_block b sb) (b % 8192 / 8)
          (without_bit (d (map_block b sb) (b % 8192 / 8)) (b % 8192 % 8)),
      rw used,
      unmark-allocated sb d fits b j bytes hb hj,
    ),
  )
  | inr free ↦ inl (free, rw free)
]

-- The data region that `get_datastart` computes overlaps the free map: unless the file system has
-- exactly 8192 blocks, the map block of its last block is at or behind the start of the data.
pub get_datastart-overlap :
    (sb : Superblock)
    → Fits sb
    → 0 < sb.nblocks
    → sb.nblocks ≢ 8192
    → sb.nblocks < 2 ^ 31
    → sb.bmapstart < 2 ^ 31
    → get_datastart sb ≤ map_block (sb.nblocks - 1) sb
unfolding get_datastart
get_datastart-overlap sb fits some_blocks ne small low = omega arith
