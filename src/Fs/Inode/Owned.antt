-- ===== src/Fs/Inode/Owned.antt =====
-- The blocks that an inode names, and what it takes to give them all back.
use zrhos.Base.{
  ℕ, zero, suc, ◌+◌, ◌*◌, ◌/◌, ◌%◌, ◌<◌, ◌≡◌, ◌≢◌, inl, inr, refl, sym, subst, ap, ◌∙◌, Bool, true,
  false, not, ◌&&◌, ◌||◌, Option, none, some, List, [], ◌∷◌, ◌++◌, ◌==◌, if◌then◌else◌, arith, All,
  Bool-cases, Option-cases, get_or,
}
use zrhos.Base.Bits.{has_bit, without_bit, without_bit-lt}
use zrhos.Fs.Bitmap.{Superblock, map_block, Blocks, write_byte, bfree}
use zrhos.Fs.Bitmap.Laws.{allocated, Fits, AreBytes, bfree-allocated}
use zrhos.Fs.Bytes.{read32}

-- The block numbers among `rounds` entries from `i` on.
unfoldable pub direct_blocks : ℕ → ℕ → List ℕ → List ℕ
direct_blocks zero i addrs = []
direct_blocks (suc rounds) i addrs =
    let rest = direct_blocks rounds (i + 1) addrs in
    if get_or addrs i 0 == 0 then rest else get_or addrs i 0 ∷ rest

unfoldable pub indirect_blocks : Blocks → ℕ → ℕ → ℕ → List ℕ
indirect_blocks d n zero j = []
indirect_blocks d n (suc rounds) j =
    let rest = indirect_blocks d n rounds (j + 1) in
    if read32 d n (4 * j) == 0 then rest else read32 d n (4 * j) ∷ rest

-- All the blocks that an inode's table of addresses names, directly and through its indirect block,
-- and that block itself.
unfoldable pub blocks_of : Blocks → List ℕ → List ℕ
blocks_of d addrs =
    let n = get_or addrs 12 0 in
    direct_blocks 12 0 addrs ++ (if n == 0 then [] else indirect_blocks d n 256 0 ++ (n ∷ []))

unfoldable pub mem : ℕ → List ℕ → Bool
mem b [] = false
mem b (x ∷ l) = (x == b) || mem b l

-- No block is named twice.
unfoldable pub Distinct : List ℕ → Type 0
Distinct [] = Unit
Distinct (x ∷ l) = (mem x l ≡ false) × Distinct l

-- `bfree` of all the blocks of a list.
unfoldable pub free_all : Superblock → List ℕ → Blocks → Option Blocks
free_all sb [] d = some d
free_all sb (b ∷ l) d = elim (bfree sb b d) [ none ↦ none | some e ↦ free_all sb l e ]

unfoldable pub InUse : Superblock → Blocks → ℕ → Type 0
InUse sb d b = (b < sb.nblocks) × (allocated sb d b ≡ true)

pub bfree-outside :
    (sb : Superblock) (d e : Blocks) (b n j : ℕ)
    → bfree sb b d ≡ some e
    → map_block b sb ≢ n
    → e n j ≡ d n j
unfolding bfree
bfree-outside sb d e b n j h ne = ground arith

pub no_blocks : {x : Blocks} → ◌≡◌ {A = Option Blocks} (some x) none → ⊥
no_blocks h = cc

pub some_inj {ℓ} : {A : Type ℓ} {x y : A} → some x ≡ some y → x ≡ y
some_inj {A} {x} h = ap from h
  where
    from : Option A → A
    from none = x
    from (some y) = y

bfree-AreBytes :
    (sb : Superblock) (d e : Blocks) (b : ℕ) → AreBytes d → bfree sb b d ≡ some e → AreBytes e
unfolding bfree
bfree-AreBytes sb d e b h f n i =
    let m = map_block b sb in
    let o = b % 8192 / 8 in
    let k = b % 8192 % 8 in
    let low = without_bit-lt (d m o) k (h m o) (omega arith) in
    elim (Bool-cases (has_bit (d m o) k)) [
      | inr free ↦ absurd (no_blocks (sym f ∙ rw free refl))
      | inl used ↦
          let is : some (write_byte d m o (without_bit (d m o) k)) ≡ some e = rw used at f in
          let byte : write_byte d m o (without_bit (d m o) k) n i < 256 = ground (arith, h n i) in
          subst (λ x. x n i < 256) (some_inj is) byte
    ]

bfree-InUse :
    (sb : Superblock) (d : Blocks) (b : ℕ)
    → Fits sb
    → AreBytes d
    → InUse sb d b
    → (e : Blocks) × (bfree sb b d ≡ some e)
unfolding InUse
bfree-InUse sb d b fits bytes (lt, used) = elim (bfree-allocated sb d b b fits bytes lt lt) [
  | inl (free, p) ↦ absurd (ground arith)
  | inr (u, (e, frees, at)) ↦ (e, frees)
]

bfree_at :
    (sb : Superblock) (d e : Blocks) (b j : ℕ)
    → Fits sb
    → AreBytes d
    → InUse sb d b
    → bfree sb b d ≡ some e
    → j < sb.nblocks
    → allocated sb e j ≡ (if b == j then false else allocated sb d j)
unfolding InUse
bfree_at sb d e b j fits bytes (lt, used) frees below =
    elim (bfree-allocated sb d b j fits bytes lt below) [
      | inl (free, p) ↦ absurd (ground arith)
      | inr (u, (e', frees', at)) ↦
          subst (λ x. allocated sb x j ≡ (if b == j then false else allocated sb d j))
            (some_inj (sym frees' ∙ frees)) at
    ]

still :
    (sb : Superblock) (d e : Blocks) (b : ℕ) (l : List ℕ)
    → ((j : ℕ) → j < sb.nblocks → allocated sb e j ≡ (if b == j then false else allocated sb d j))
    → All (InUse sb d) l
    → mem b l ≡ false
    → All (InUse sb e) l
unfolding InUse mem
still sb d e b [] at used apart = tt
still sb d e b (x ∷ l) at used apart = (
  (used.0.0, at x used.0.0 ∙ (let ne : (b == x) ≡ false = ground arith in rw ne used.0.1)),
  still sb d e b l at used.1 (ground arith),
)

drop_one :
    (here a rest : Bool) → ((if here then false else a) && not rest) ≡ (a && not (here || rest))
drop_one here a rest = ground arith

free_all-cons :
    (sb : Superblock) (d e : Blocks) (b : ℕ) (l : List ℕ)
    → bfree sb b d ≡ some e
    → free_all sb (b ∷ l) d ≡ free_all sb l e
unfolding free_all
free_all-cons sb d e b l h = rw (h, free_all) refl

and_true : (a : Bool) → a ≡ (a && true)
and_true a = ground arith

pub free_all-InUse :
    (sb : Superblock) (l : List ℕ) (d : Blocks)
    → Fits sb
    → AreBytes d
    → All (InUse sb d) l
    → Distinct l
    → (e : Blocks) × (free_all sb l d ≡ some e)
      × AreBytes e
      × ((j : ℕ) → j < sb.nblocks → allocated sb e j ≡ (allocated sb d j && not (mem j l)))
unfolding free_all InUse Distinct mem
free_all-InUse sb [] d fits bytes used dis = (d, refl, bytes, (λ j lt. and_true (allocated sb d j)))
free_all-InUse sb (b ∷ l) d fits bytes used dis =
    let (e, frees) = bfree-InUse sb d b fits bytes used.0 in
    let at = λ (j : ℕ) (lt : j < sb.nblocks). bfree_at sb d e b j fits bytes used.0 frees lt in
    let (f, all_freed, f_bytes, f_at) =
      free_all-InUse sb l e fits (bfree-AreBytes sb d e b bytes frees)
        (still sb d e b l at used.1 dis.0) dis.1 in
    (
      f,
      free_all-cons sb d e b l frees ∙ all_freed,
      f_bytes,
      (λ j lt.
          f_at j lt
          ∙ ap (λ a. a && not (mem j l)) (at j lt)
          ∙ drop_one (b == j) (allocated sb d j) (mem j l)),
    )

pub free_all-split :
    (sb : Superblock) (k l : List ℕ) (d f : Blocks)
    → free_all sb (k ++ l) d ≡ some f
    → (e : Blocks) × (free_all sb k d ≡ some e) × (free_all sb l e ≡ some f)
unfolding free_all
free_all-split sb [] l d f h = (d, refl, h)
free_all-split sb (b ∷ k) l d f h = elim (Option-cases (bfree sb b d)) [
  | inl stuck ↦ absurd (no_blocks (sym (rw (stuck, free_all) at h)))
  | inr (e, frees) ↦
      let (g, first, rest) = free_all-split sb k l e f (rw (frees, free_all) at h) in
      (g, rw (frees, free_all) first, rest)
]

pub free_all-outside :
    (sb : Superblock) (l : List ℕ) (d e : Blocks) (n j : ℕ)
    → All (λ b. b < sb.nblocks) l
    → ((b : ℕ) → b < sb.nblocks → map_block b sb ≢ n)
    → free_all sb l d ≡ some e
    → e n j ≡ d n j
unfolding free_all
free_all-outside sb [] d e n j below apart h = ap (λ x. x n j) (sym (some_inj h))
free_all-outside sb (b ∷ l) d e n j below apart h = elim (Option-cases (bfree sb b d)) [
  | inl stuck ↦ absurd (no_blocks (sym (rw (stuck, free_all) at h)))
  | inr (f, frees) ↦
      free_all-outside sb l f e n j below.1 apart (rw (frees, free_all) at h)
      ∙ bfree-outside sb d f b n j frees (apart b below.0)
]

pub All-append {ℓ} : (P : ℕ → Type ℓ) (k l : List ℕ) → All P (k ++ l) → All P k × All P l
All-append P [] l h = (tt, h)
All-append P (x ∷ k) l h = let (a, b) = All-append P k l h.1 in ((h.0, a), b)

pub free_all-single :
    (sb : Superblock) (b : ℕ) (d e : Blocks)
    → free_all sb (b ∷ []) d ≡ some e
    → bfree sb b d ≡ some e
unfolding free_all
free_all-single sb b d e h = elim (Option-cases (bfree sb b d)) [
  | inl stuck ↦ absurd (no_blocks (sym (rw (stuck, free_all) at h)))
  | inr (f, frees) ↦ frees ∙ rw (frees, free_all) at h
]
