-- ===== src/Fs/Inode.antt =====
-- The inodes of kernel/fs.c: `ialloc`, `iupdate`, `ilock`, `iunlock`, `itrunc` and `iput`, with
-- `struct dinode` of kernel/fs.h and `inode_t` of kernel/file.h.
pub mod RoundTrip
pub mod Owned
pub mod Trunc
pub mod Locks
pub mod Tests
use zrhos.Base.{
  ℕ, zero, suc, ◌+◌, ◌-◌, ◌*◌, ◌/◌, ◌%◌, ◌^◌, Bool, true, false, ◌&&◌, ◌||◌, Option, none, some,
  List, ◌==◌, ltb, if◌then◌else◌, u32, get_or, set,
}
use zrhos.Fs.Bitmap.{Superblock, Blocks, bfree}
use zrhos.Fs.Bytes.{read16, read32, write16, write32, read_words, write_words}
use zrhos.Fs.Itable.{Inode, Itable, iget}

-- How a call ends: it returns, it panics, or it waits for a lock that its own thread holds.
pub data Outcome {ℓ} (A : Type ℓ) : Type ℓ where
  returns : A → Outcome A
  panics : Outcome A
  waits : Outcome A

infixl 5 ◌>>=◌
abbrev pub ◌>>=◌ {ℓ κ} : {A : Type ℓ} {B : Type κ} → Outcome A → (A → Outcome B) → Outcome B
returns a >>= f = f a
panics >>= f = panics
waits >>= f = waits

-- `lm_P` sleeps with its own spin lock and that of the task; with one more, `sched` panics in place of the
-- wait.
abbrev pub no_wait {ℓ} : {A : Type ℓ} → Outcome A → Outcome A
no_wait (returns a) = returns a
no_wait panics = panics
no_wait waits = panics

abbrev pub or_panics {ℓ} : {A : Type ℓ} → Option A → Outcome A
or_panics none = panics
or_panics (some a) = returns a

-- `struct dinode`; the shorts and words are bit patterns.
pub record Dinode : Type 0 where
  pub type : ℕ
  pub major : ℕ
  pub minor : ℕ
  pub nlink : ℕ
  pub size : ℕ
  pub addrs : List ℕ

-- `inode_t`: the entry of the table, the value of its semaphore, and the copy of the disk inode.
pub record Node : Type 0 where
  pub slot : Inode
  pub lock : ℕ
  pub copy : Dinode

-- `NDIRECT`, `NINDIRECT`, `IPB` and `sizeof(struct dinode)`
abbrev pub ndirect : ℕ
ndirect = 12

abbrev pub nindirect : ℕ
nindirect = 256

abbrev pub inodes_per_block : ℕ
inodes_per_block = 16

abbrev pub dinode_size : ℕ
dinode_size = 64

-- `IBLOCK`
abbrev pub inode_block : ℕ → Superblock → ℕ
inode_block i sb = u32 (i / inodes_per_block + sb.inodestart)

-- The fields of the inode at offset `o` of block `n`.
unfoldable pub read_dinode : Blocks → ℕ → ℕ → Dinode
read_dinode d n o = record {
  type = read16 d n o;
  major = read16 d n (o + 2);
  minor = read16 d n (o + 4);
  nlink = read16 d n (o + 6);
  size = read32 d n (o + 8);
  addrs = read_words d n (o + 12) (ndirect + 1);
}

unfoldable pub write_dinode : Blocks → ℕ → ℕ → Dinode → Blocks
write_dinode d n o c =
    let d1 = write16 d n o c.type in
    let d2 = write16 d1 n (o + 2) c.major in
    let d3 = write16 d2 n (o + 4) c.minor in
    let d4 = write16 d3 n (o + 6) c.nlink in
    let d5 = write32 d4 n (o + 8) c.size in write_words d5 n (o + 12) c.addrs

unfoldable pub iupdate : Superblock → Node → Blocks → Blocks
iupdate sb ip d =
    let inum = ip.slot.inum in
    write_dinode d (inode_block inum sb) (inum % inodes_per_block * dinode_size) ip.copy

-- `lm_P` of the inode's semaphore.
unfoldable pub acquire : Node → Outcome Node
acquire ip = if ip.lock == 0 then waits else returns (record ip { lock = ip.lock - 1 })

-- `lm_V`
unfoldable pub iunlock : Node → Node
iunlock ip = record ip { lock = ip.lock + 1 }

-- `ilock` behind `lm_P`.
unfoldable pub load : Superblock → Blocks → Node → Outcome Node
load sb d ip =
    let inum = ip.slot.inum in
    let c = read_dinode d (inode_block inum sb) (inum % inodes_per_block * dinode_size) in
    if ip.slot.valid
    then returns ip
    else if c.type == 0
    then panics
    else returns (record ip { slot = record (ip.slot) { valid = true }; copy = c })

unfoldable pub ilock : Superblock → Blocks → Node → Outcome Node
ilock sb d ip =
    if (ip.slot.ref == 0) || ltb (2 ^ 31 - 1) ip.slot.ref then panics else acquire ip >>= load sb d

-- The loop of `itrunc` over the direct blocks.
unfoldable pub free_direct : Superblock → ℕ → ℕ → List ℕ → Blocks → Option (List ℕ × Blocks)
free_direct sb zero i addrs d = some (addrs, d)
free_direct sb (suc rounds) i addrs d = elim (get_or addrs i 0 == 0) [
  | true ↦ free_direct sb rounds (i + 1) addrs d
  | false ↦ elim (bfree sb (get_or addrs i 0) d) [
    | none ↦ none
    | some e ↦ free_direct sb rounds (i + 1) (set addrs i 0) e
  ]
]

-- The loop over the entries of the indirect block `n`.
unfoldable pub free_indirect : Superblock → ℕ → ℕ → ℕ → Blocks → Option Blocks
free_indirect sb n zero j d = some d
free_indirect sb n (suc rounds) j d = elim (read32 d n (4 * j) == 0) [
  | true ↦ free_indirect sb n rounds (j + 1) d
  | false ↦ elim (bfree sb (read32 d n (4 * j)) d) [
    | none ↦ none
    | some e ↦ free_indirect sb n rounds (j + 1) e
  ]
]

-- The indirect part of `itrunc`.
unfoldable pub free_tree : Superblock → List ℕ → Blocks → Option (List ℕ × Blocks)
free_tree sb addrs d = elim (get_or addrs ndirect 0 == 0) [
  | true ↦ some (addrs, d)
  | false ↦ elim (free_indirect sb (get_or addrs ndirect 0) nindirect 0 d) [
    | none ↦ none
    | some e ↦ elim (bfree sb (get_or addrs ndirect 0) e) [
      | none ↦ none
      | some f ↦ some (set addrs ndirect 0, f)
    ]
  ]
]

unfoldable pub free_blocks : Superblock → List ℕ → Blocks → Option (List ℕ × Blocks)
free_blocks sb addrs d = elim (free_direct sb ndirect 0 addrs d) [
  | none ↦ none
  | some (addrs', e) ↦ free_tree sb addrs' e
]

unfoldable pub itrunc : Superblock → Node → Blocks → Outcome (Node × Blocks)
itrunc sb ip d = acquire ip >>= λ held. or_panics (free_blocks sb held.copy.addrs d) >>= λ freed.
    let empty = record held { copy = record (held.copy) { addrs = freed.0; size = 0 } } in
    returns (iunlock empty, iupdate sb empty freed.1)

-- `iput` on the last reference to an inode without links, with `itable.lock` held.
unfoldable pub release : Superblock → Node → Blocks → Outcome (Node × Blocks)
release sb ip d = no_wait (
    acquire ip >>= λ held. itrunc sb held d >>= λ cut.
    let gone = record (cut.0) { copy = record (cut.0.copy) { type = 0 } } in
    returns (
      iunlock (record gone { slot = record (gone.slot) { valid = false } }),
      iupdate sb gone cut.1,
    ))

unfoldable pub iput : Superblock → Node → Blocks → Outcome (Node × Blocks)
iput sb ip d =
    if ip.slot.ref == 1 && (ip.slot.valid && ip.copy.nlink == 0)
    then release sb ip d
    else returns (record ip { slot = record (ip.slot) { ref = u32 (ip.slot.ref + 2 ^ 32 - 1) } }, d)

-- The block that the loop of `ialloc` holds after its first test in round `i`.
abbrev pub held_inodes : Superblock → ℕ → Option ℕ → ℕ
held_inodes sb i none = inode_block i sb
held_inodes sb i (some n) = if ltb n (inode_block i sb) then inode_block i sb else n

-- The loop of `ialloc` with `rounds` rounds to go: the first inode with the type 0 on the disk.
unfoldable pub ialloc_loop : Superblock → ℕ → ℕ → Option ℕ → Blocks → Option ℕ
ialloc_loop sb zero i held d = none
ialloc_loop sb (suc rounds) i held d =
    let n = held_inodes sb i held in
    let rest = ialloc_loop sb rounds (i + 1) (some n) d in
    if read16 d n (i % inodes_per_block * dinode_size) == 0 then some i else rest

abbrev pub slots : (ℕ → Node) → Itable
slots t k = (t k).slot

-- The table with new entries, where `iget` changed them.
abbrev pub with_slots : (ℕ → Node) → Itable → ℕ → Node
with_slots t s k = record (t k) { slot = s k }

abbrev pub set_type : (ℕ → Node) → ℕ → ℕ → ℕ → Node
set_type t k type j =
    if k == j then record (t j) { copy = record ((t j).copy) { type = type } } else t j

-- The index of the entry in the table, or `none` for the null pointer.
unfoldable pub ialloc : Superblock → ℕ → ℕ → Blocks → (ℕ → Node) → Outcome (Option ℕ × (ℕ → Node))
ialloc sb dev type d t = elim (ialloc_loop sb (sb.ninodes - 1) 1 none d) [
  | none ↦ returns (none, t)
  | some i ↦ or_panics (iget dev i (slots t)) >>= λ got.
      returns (some got.0, set_type (with_slots t got.1) got.0 type)
]
