-- ===== src/Fs/Inode/Trunc.antt =====
-- `itrunc` gives back the blocks of its inode.
use zrhos.Base.{
  ℕ, zero, suc, ◌+◌, ◌*◌, ◌/◌, ◌%◌, ◌≤◌, ◌<◌, ◌≡◌, ◌≢◌, ◌⊎◌, inl, inr, refl, sym, ℕ_discrete, ap,
  ap₂, ◌∙◌, true, false, not, ◌&&◌, Option, none, some, List, [], ◌∷◌, ◌++◌, ◌==◌, if◌then◌else◌,
  arith, length, All, Bool-cases, Option-cases, get_or, set, get_or-set_ne, get_or-set_self,
  length-set,
}
use zrhos.Base.Bits.{has_bit}
use zrhos.Fs.Bitmap.{Superblock, map_block, Blocks, bfree}
use zrhos.Fs.Bitmap.Laws.{allocated, Fits, AreBytes}
use zrhos.Fs.Bytes.{read32, read32-outside}
use zrhos.Fs.Inode.RoundTrip.{write_dinode-Outside}
use zrhos.Fs.Inode.{
  Node, inode_block, returns, acquire, iunlock, free_direct, free_indirect, free_tree, free_blocks,
  itrunc, iupdate,
}
use zrhos.Fs.Inode.Owned.{
  direct_blocks, indirect_blocks, blocks_of, mem, Distinct, free_all, InUse, bfree-outside,
  some_inj, free_all-InUse, free_all-split, free_all-outside, free_all-single, All-append,
}

-- What the loop over the direct blocks leaves of the addresses.
unfoldable cleared : ℕ → ℕ → List ℕ → List ℕ
cleared zero i addrs = addrs
cleared (suc rounds) i addrs =
    cleared rounds (i + 1) (if get_or addrs i 0 == 0 then addrs else set addrs i 0)

direct_blocks-set :
    (rounds i k : ℕ) (addrs : List ℕ)
    → k < i
    → direct_blocks rounds i (set addrs k 0) ≡ direct_blocks rounds i addrs
unfolding direct_blocks
direct_blocks-set zero i k addrs lt = refl
direct_blocks-set (suc rounds) i k addrs lt =
    ap₂ (λ x l. if x == 0 then l else x ∷ l)
      (get_or-set_ne addrs k i 0 0 (λ e. absurd (omega (arith, e))))
      (direct_blocks-set rounds (i + 1) k addrs (omega arith))

abbrev with_addrs : List ℕ → Option Blocks → Option (List ℕ × Blocks)
with_addrs addrs none = none
with_addrs addrs (some d) = some (addrs, d)

free_direct-free_all :
    (sb : Superblock) (rounds i : ℕ) (addrs : List ℕ) (d : Blocks)
    → free_direct sb rounds i addrs d
      ≡ with_addrs (cleared rounds i addrs) (free_all sb (direct_blocks rounds i addrs) d)
unfolding free_direct direct_blocks cleared free_all
free_direct-free_all sb zero i addrs d = refl
free_direct-free_all sb (suc rounds) i addrs d = elim (Bool-cases (get_or addrs i 0 == 0)) [
  | inl y ↦ rw (y, free_direct) (free_direct-free_all sb rounds (i + 1) addrs d)
  | inr g ↦ elim (Option-cases (bfree sb (get_or addrs i 0) d)) [
    | inl stuck ↦ rw (g, stuck, free_direct, free_all) refl
    | inr (e, frees) ↦
        rw (g, frees, free_direct, free_all)
          (free_direct-free_all sb rounds (i + 1) (set addrs i 0) e
            ∙ ap (λ l. with_addrs (cleared rounds (i + 1) (set addrs i 0)) (free_all sb l e))
                (direct_blocks-set rounds (i + 1) i addrs (omega arith)))
  ]
]

free_indirect-free_all :
    (sb : Superblock) (d e : Blocks) (n rounds j : ℕ)
    → ((b : ℕ) → b < sb.nblocks → map_block b sb ≢ n)
    → ((k : ℕ) → e n k ≡ d n k)
    → All (λ b. b < sb.nblocks) (indirect_blocks d n rounds j)
    → free_indirect sb n rounds j e ≡ free_all sb (indirect_blocks d n rounds j) e
unfolding free_indirect indirect_blocks free_all
free_indirect-free_all sb d e n zero j apart same lt = refl
free_indirect-free_all sb d e n (suc rounds) j apart same lt =
    let word = read32-outside e d n (4 * j) (λ k le below. same k) in
    elim (Bool-cases (read32 d n (4 * j) == 0)) [
      | inl y ↦
          rw (word, y, free_indirect)
            (free_indirect-free_all sb d e n rounds (j + 1) apart same (rw y at lt))
      | inr g ↦
          let below : All (λ b. b < sb.nblocks)
              (read32 d n (4 * j) ∷ indirect_blocks d n rounds (j + 1)) =
            rw g at lt in
          elim (Option-cases (bfree sb (read32 d n (4 * j)) e)) [
            | inl stuck ↦ rw (word, g, word, stuck, free_indirect, free_all) refl
            | inr (f, frees) ↦
                let out = λ (k : ℕ).
                  bfree-outside sb e f (read32 d n (4 * j)) n k frees
                    (apart (read32 d n (4 * j)) below.0)
                  ∙ same k in
                rw (word, g, word, frees, free_indirect, free_all)
                  (free_indirect-free_all sb d f n rounds (j + 1) apart out below.1)
          ]
    ]

indirect_free_all :
    (sb : Superblock) (d e f : Blocks) (addrs : List ℕ) (n : ℕ)
    → get_or addrs 12 0 ≡ n
    → (n == 0) ≡ false
    → ((b : ℕ) → b < sb.nblocks → map_block b sb ≢ n)
    → ((k : ℕ) → e n k ≡ d n k)
    → All (λ b. b < sb.nblocks) (indirect_blocks d n 256 0)
    → free_all sb (indirect_blocks d n 256 0 ++ (n ∷ [])) e ≡ some f
    → free_tree sb addrs e ≡ some (set addrs 12 0, f)
unfolding free_tree
indirect_free_all sb d e f addrs n is some_n apart same below h =
    let (g, words, last) = free_all-split sb (indirect_blocks d n 256 0) (n ∷ []) e f h in
    let words_freed = free_indirect-free_all sb d e n 256 0 apart same below ∙ words in
    let head = free_all-single sb n g f last in
    rw (is, some_n, is, words_freed, is, head, free_tree) refl

length-cleared : (rounds i : ℕ) (addrs : List ℕ) → length (cleared rounds i addrs) ≡ length addrs
unfolding cleared
length-cleared zero i addrs = refl
length-cleared (suc rounds) i addrs = elim (Bool-cases (get_or addrs i 0 == 0)) [
  | inl y ↦ rw y (length-cleared rounds (i + 1) addrs)
  | inr g ↦ rw g (length-cleared rounds (i + 1) (set addrs i 0) ∙ length-set addrs i 0)
]

cleared_other :
    (rounds i k : ℕ) (addrs : List ℕ)
    → (k < i) ⊎ (i + rounds ≤ k)
    → get_or (cleared rounds i addrs) k 0 ≡ get_or addrs k 0
unfolding cleared
cleared_other zero i k addrs out = refl
cleared_other (suc rounds) i k addrs out = elim (Bool-cases (get_or addrs i 0 == 0)) [
  | inl y ↦ rw y (cleared_other rounds (i + 1) k addrs (ground arith))
  | inr g ↦ rw g (
      cleared_other rounds (i + 1) k (set addrs i 0) (ground arith)
      ∙ get_or-set_ne addrs i k 0 0 (λ e. absurd (ground arith)))
]

cleared_zero :
    (rounds i k : ℕ) (addrs : List ℕ)
    → i ≤ k
    → k < i + rounds
    → k < length addrs
    → get_or (cleared rounds i addrs) k 0 ≡ 0
unfolding cleared
cleared_zero zero i k addrs le lt short = absurd (omega arith)
cleared_zero (suc rounds) i k addrs le lt short = elim (ℕ_discrete i k) [
  | yes here ↦ elim (Bool-cases (get_or addrs i 0 == 0)) [
    | inl y ↦ rw y (
        cleared_other rounds (i + 1) k addrs (inl (omega arith))
        ∙ ap (λ x. get_or addrs x 0) (sym here)
        ∙ ground arith)
    | inr g ↦ rw g (
        cleared_other rounds (i + 1) k (set addrs i 0) (inl (omega arith))
        ∙ ap (λ x. get_or (set addrs i 0) x 0) (sym here)
        ∙ get_or-set_self addrs i 0 0 (omega arith))
  ]
  | no later ↦ elim (Bool-cases (get_or addrs i 0 == 0)) [
    | inl y ↦ rw y (cleared_zero rounds (i + 1) k addrs (omega arith) (omega arith) short)
    | inr g ↦ rw g (
        cleared_zero rounds (i + 1) k (set addrs i 0) (omega arith) (omega arith)
          (omega (arith, length-set addrs i 0)))
  ]
]

-- What `itrunc` needs: the blocks that the inode names are in use, none of them twice, and neither its
-- indirect block nor the block of the inode itself is a block of the free map.
pub record IsTruncatable (sb : Superblock) (d : Blocks) (ip : Node) : Type 0 where
  pub fits : Fits sb
  pub bytes : AreBytes d
  pub unlocked : ip.lock ≡ 1
  pub count : length ip.copy.addrs ≡ 13
  pub used : All (InUse sb d) (blocks_of d ip.copy.addrs)
  pub distinct : Distinct (blocks_of d ip.copy.addrs)
  pub indirect_apart : (b : ℕ) → b < sb.nblocks → map_block b sb ≢ get_or ip.copy.addrs 12 0
  pub inode_apart : (b : ℕ) → b < sb.nblocks → map_block b sb ≢ inode_block ip.slot.inum sb

All-below :
    (sb : Superblock) (d : Blocks) (l : List ℕ) → All (InUse sb d) l → All (λ b. b < sb.nblocks) l
unfolding InUse
All-below sb d [] h = tt
All-below sb d (x ∷ l) h = (h.0.0, All-below sb d l h.1)

direct_freed :
    (sb : Superblock) (addrs : List ℕ) (d e : Blocks)
    → free_all sb (direct_blocks 12 0 addrs) d ≡ some e
    → free_blocks sb addrs d ≡ free_tree sb (cleared 12 0 addrs) e
unfolding free_blocks
direct_freed sb addrs d e h = rw (free_direct-free_all sb 12 0 addrs d, h, free_blocks) refl

free_tree-none :
    (sb : Superblock) (addrs : List ℕ) (d : Blocks)
    → (get_or addrs 12 0 == 0) ≡ true
    → free_tree sb addrs d ≡ some (addrs, d)
unfolding free_tree
free_tree-none sb addrs d h = rw (h, free_tree) refl

-- The addresses at the end, where the indirect block is cleared if there is one.
abbrev all_cleared : List ℕ → List ℕ
all_cleared addrs =
    if get_or addrs 12 0 == 0 then cleared 12 0 addrs else set (cleared 12 0 addrs) 12 0

free_blocks-free_all :
    (sb : Superblock) (d f : Blocks) (addrs : List ℕ)
    → All (InUse sb d) (blocks_of d addrs)
    → ((b : ℕ) → b < sb.nblocks → map_block b sb ≢ get_or addrs 12 0)
    → free_all sb (blocks_of d addrs) d ≡ some f
    → free_blocks sb addrs d ≡ some (all_cleared addrs, f)
unfolding blocks_of free_all
free_blocks-free_all sb d f addrs used apart h =
    let n = get_or addrs 12 0 in
    let rest = if n == 0 then [] else indirect_blocks d n 256 0 ++ (n ∷ []) in
    let (e, first, last) = free_all-split sb (direct_blocks 12 0 addrs) rest d f h in
    let below =
      All-append (λ b. b < sb.nblocks) (direct_blocks 12 0 addrs) rest (All-below sb d _ used) in
    let at = cleared_other 12 0 12 addrs (inr (omega arith)) in
    elim (Bool-cases (n == 0)) [
      | inl y ↦
          let ended : some e ≡ some f = rw y at last in
          let no_indirect : (get_or (cleared 12 0 addrs) 12 0 == 0) ≡ true = rw at y in
          direct_freed sb addrs d e first
          ∙ free_tree-none sb (cleared 12 0 addrs) e no_indirect
          ∙ rw y (ap (λ x. some (cleared 12 0 addrs, x)) (some_inj ended))
      | inr g ↦
          let words : All (λ b. b < sb.nblocks) (indirect_blocks d n 256 0 ++ (n ∷ [])) =
            rw g at below.1 in
          let out =
            λ (k : ℕ). free_all-outside sb (direct_blocks 12 0 addrs) d e n k below.0 apart first in
          direct_freed sb addrs d e first
          ∙ indirect_free_all sb d e f (cleared 12 0 addrs) n at g apart out
              (All-append (λ b. b < sb.nblocks) (indirect_blocks d n 256 0) (n ∷ []) words).0
              (rw g at last)
          ∙ rw g refl
    ]

length-all_cleared : (addrs : List ℕ) → length (all_cleared addrs) ≡ length addrs
length-all_cleared addrs = elim (Bool-cases (get_or addrs 12 0 == 0)) [
  | inl y ↦ rw y (length-cleared 12 0 addrs)
  | inr g ↦ rw g (length-set (cleared 12 0 addrs) 12 0 ∙ length-cleared 12 0 addrs)
]

all_cleared_zero :
    (addrs : List ℕ) (k : ℕ) → length addrs ≡ 13 → k < 13 → get_or (all_cleared addrs) k 0 ≡ 0
all_cleared_zero addrs k len lt =
    let size = length-cleared 12 0 addrs in
    elim (Bool-cases (get_or addrs 12 0 == 0)) [
      | inl y ↦ rw y (elim (ℕ_discrete k 12) [
        | yes top ↦
            cleared_other 12 0 k addrs (inr (omega arith))
            ∙ ap (λ x. get_or addrs x 0) top
            ∙ ground arith
        | no under ↦ cleared_zero 12 0 k addrs (omega arith) (omega arith) (omega arith)
      ])
      | inr g ↦ rw g (elim (ℕ_discrete k 12) [
        | yes top ↦
            ap (λ x. get_or (set (cleared 12 0 addrs) 12 0) x 0) top
            ∙ get_or-set_self (cleared 12 0 addrs) 12 0 0 (omega arith)
        | no under ↦
            get_or-set_ne (cleared 12 0 addrs) 12 k 0 0 (λ e. under (sym e))
            ∙ cleared_zero 12 0 k addrs (omega arith) (omega arith) (omega arith)
      ])
    ]

allocated_ext :
    (sb : Superblock) (d e : Blocks) (j : ℕ)
    → ((k : ℕ) → e (map_block j sb) k ≡ d (map_block j sb) k)
    → allocated sb e j ≡ allocated sb d j
unfolding allocated
allocated_ext sb d e j same = ap (λ x. has_bit x (j % 8192 % 8)) (same (j % 8192 / 8))

iupdate-allocated :
    (sb : Superblock) (d : Blocks) (ip : Node) (j : ℕ)
    → length ip.copy.addrs ≡ 13
    → map_block j sb ≢ inode_block ip.slot.inum sb
    → allocated sb (iupdate sb ip d) j ≡ allocated sb d j
unfolding iupdate
iupdate-allocated sb d ip j len apart =
    let n = inode_block ip.slot.inum sb in
    let o = ip.slot.inum % 16 * 64 in
    allocated_ext sb d (iupdate sb ip d) j
      (λ k. write_dinode-Outside d n o ip.copy (map_block j sb) k len (inl (λ e. apart (sym e))))

abbrev truncated : Node → Node
truncated ip = record ip {
  lock = 0;
  copy = record (ip.copy) { addrs = all_cleared ip.copy.addrs; size = 0 };
}

itrunc-free_blocks :
    (sb : Superblock) (d f : Blocks) (ip : Node)
    → ip.lock ≡ 1
    → free_blocks sb ip.copy.addrs d ≡ some (all_cleared ip.copy.addrs, f)
    → itrunc sb ip d ≡ returns (iunlock (truncated ip), iupdate sb (truncated ip) f)
unfolding itrunc acquire
itrunc-free_blocks sb d f ip unlocked h =
    let held : acquire ip ≡ returns (record ip { lock = 0 }) = rw unlocked refl in
    rw (held, h, itrunc) refl

-- `itrunc` of an inode whose blocks are in use, none of them twice, with its semaphore free: it
-- returns with the semaphore free, the size 0 and no address left, and the free map has lost exactly
-- the blocks that the inode named, directly or through its indirect block, and the indirect block.
pub itrunc-allocated :
    (sb : Superblock) (d : Blocks) (ip : Node)
    → IsTruncatable sb d ip
    → (jp : Node) × (e : Blocks) × (itrunc sb ip d ≡ returns (jp, e))
      × (jp.lock ≡ 1)
      × (jp.copy.size ≡ 0)
      × ((k : ℕ) → k < 13 → get_or jp.copy.addrs k 0 ≡ 0)
      × ((j : ℕ)
          → j < sb.nblocks
          → allocated sb e j ≡ (allocated sb d j && not (mem j (blocks_of d ip.copy.addrs))))
unfolding iunlock
itrunc-allocated sb d ip h =
    let (f, freed, bytes, at) =
      free_all-InUse sb (blocks_of d ip.copy.addrs) d h.fits h.bytes h.used h.distinct in
    let all_blocks = free_blocks-free_all sb d f ip.copy.addrs h.used h.indirect_apart freed in
    let len = length-all_cleared ip.copy.addrs ∙ h.count in
    (
      iunlock (truncated ip),
      iupdate sb (truncated ip) f,
      itrunc-free_blocks sb d f ip h.unlocked all_blocks,
      refl,
      refl,
      (λ k lt. all_cleared_zero ip.copy.addrs k h.count lt),
      (λ j lt. iupdate-allocated sb f (truncated ip) j len (h.inode_apart j lt) ∙ at j lt),
    )
