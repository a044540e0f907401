-- ===== src/Fs/Directory.antt =====
-- Directories: `namecmp`, `dirlookup`, `namex` and `dirlink` of kernel/fs.c.
pub mod Names
pub mod Lookup
use zrhos.Base.{
  ℕ, zero, suc, ◌+◌, ◌-◌, ◌*◌, ◌/◌, ◌%◌, ◌^◌, Bool, true, false, not, ◌&&◌, ◌||◌, Option, none,
  some, List, [], ◌∷◌, ◌++◌, ◌==◌, ltb, leb, if◌then◌else◌, u32, get_or, set, length,
}
use zrhos.Base.Int.{ℤ, pos, negsuc}
use zrhos.Klib.Compare.{strncmp}
use zrhos.Fs.Bitmap.{Superblock, Blocks, balloc}
use zrhos.Fs.Bytes.{read16, write16}
use zrhos.Fs.Itable.{iget, idup}
use zrhos.Fs.Inode.{
  Outcome, returns, panics, waits, ◌>>=◌, or_panics, Node, iupdate, ilock, iunlock, iput, slots,
  with_slots, ndirect,
}
use zrhos.Fs.Content.{readi, with_addrs, block_bytes, store_bytes}
use zrhos.Klib.Strings.{strncpy}
use zrhos.Fs.Path.{skipelem, slash}

-- The memory of the stack, from a local variable on.
abbrev pub Local : Type 0
Local = ℕ → ℕ

-- `either_copyout` to the kernel: `memmove` of the bytes.
unfoldable pub copy_bytes : ℕ → List ℕ → Local → Local
copy_bytes dst [] m = m
copy_bytes dst (x ∷ l) m = copy_bytes (dst + 1) l (λ a. if dst == a then x else m a)

abbrev pub to_kernel : ℕ → List ℕ → Local → Local × Bool
to_kernel dst l m = (copy_bytes dst l m, true)

unfoldable pub local_bytes : Local → ℕ → ℕ → List ℕ
local_bytes m a zero = []
local_bytes m a (suc len) = m a ∷ local_bytes m (a + 1) len

-- `T_DIR`, `DIRSIZ` and `sizeof(struct dirent)`
abbrev pub t_dir : ℕ
t_dir = 1

abbrev pub dirsiz : ℕ
dirsiz = 14

abbrev pub dirent_size : ℕ
dirent_size = 16

abbrev pub is_zero : Option ℤ → Bool
is_zero (some (pos zero)) = true
is_zero (some (pos (suc n))) = false
is_zero (some (negsuc n)) = false
is_zero none = false

-- `namecmp(s, t) == 0`. `strncmp` looks at one byte behind its limit, so at most 15.
unfoldable pub same_name : Local → Local → Bool
same_name s t =
    is_zero (strncmp (local_bytes s 0 (dirsiz + 1)) (local_bytes t 0 (dirsiz + 1)) dirsiz)

abbrev pub is_whole : Option ℕ → Bool
is_whole none = false
is_whole (some n) = n == dirent_size

abbrev pub set_node : (ℕ → Node) → ℕ → Node → ℕ → Node
set_node t k ip j = if k == j then ip else t j

-- `iget` of the inode at an offset of the directory: the entry of the table, and the offset.
abbrev pub entered :
    ℕ → ℕ → ℕ → Blocks → (ℕ → Node) → Outcome (Option (ℕ × ℕ) × Blocks × (ℕ → Node))
entered dev off inum d t = or_panics (iget dev inum (slots t)) >>= λ got.
    returns (some (got.0, off), d, with_slots t got.1)

-- `dirlookup` behind its loop, which leaves the inode of the directory in the entry `k`.
abbrev pub look_end :
    ℕ → (ℕ → Node) → Option (ℕ × ℕ) × Node × Blocks → Outcome (Option (ℕ × ℕ) × Blocks × (ℕ → Node))
look_end k t (none, dp, d) = returns (none, d, set_node t k dp)
look_end k t (some (off, inum), dp, d) = entered dp.slot.dev off inum d (set_node t k dp)

module _ (sb : Superblock) (datastart : ℕ) where
  -- The loop of `dirlookup`, where `m` is the memory from `de` on: the offset of the entry and its inode
  -- number. A round goes 16 bytes on, so `size` rounds end it.
  unfoldable pub dirlookup_loop :
      Local → ℕ → ℕ → Local → Node → Blocks → Outcome (Option (ℕ × ℕ) × Node × Blocks)
  dirlookup_loop name zero off m dp d = returns (none, dp, d)
  dirlookup_loop name (suc rounds) off m dp d = elim (ltb off dp.copy.size) [
    | false ↦ returns (none, dp, d)
    | true ↦ readi sb datastart to_kernel dp 0 off dirent_size m d >>= λ got.
        let (count, de, jp, e) = got in
        let inum = de 0 + 256 * de 1 in
        elim (is_whole count) [
          | false ↦ panics
          | true ↦ elim (not (inum == 0) && same_name name (λ a. de (a + 2))) [
            | true ↦ returns (some (off, inum), jp, e)
            | false ↦ dirlookup_loop name rounds (u32 (off + dirent_size)) de jp e
          ]
        ]
  ]

  -- The entry of the table with the inode, and the offset of the directory's entry.
  unfoldable pub dirlookup :
      Local → Local → ℕ → Blocks → (ℕ → Node) → Outcome (Option (ℕ × ℕ) × Blocks × (ℕ → Node))
  dirlookup name m k d t =
      if not ((t k).copy.type == t_dir)
      then panics
      else dirlookup_loop name (t k).copy.size 0 m (t k) d >>= look_end k t

-- `ROOTDEV` and `ROOTINO`
abbrev pub rootdev : ℕ
rootdev = 1

abbrev pub rootino : ℕ
rootino = 1

abbrev pub is_empty : List ℕ → Bool
is_empty [] = true
is_empty (c ∷ l) = false

abbrev pub is_absolute : List ℕ → Bool
is_absolute [] = false
is_absolute (c ∷ l) = c == slash

unfoldable pub iunlockput : Superblock → ℕ → Blocks → (ℕ → Node) → Outcome (Blocks × (ℕ → Node))
iunlockput sb k d t = iput sb (iunlock (t k)) d >>= λ put. returns (put.1, set_node t k put.0)

-- `name` is the buffer of 14 bytes; `behind` is the memory behind it.
abbrev pub name_memory : List ℕ → (ℕ → ℕ) → Local
name_memory name behind a = if ltb a dirsiz then get_or name a 0 else behind a

-- What `namex` returns: the entry of the table or the null pointer, and the name.
abbrev pub Found : Type 0
Found = Option ℕ × List ℕ × Blocks × (ℕ → Node)

module _ (sb : Superblock) (datastart : ℕ) (behind : ℕ → ℕ) (m : Local) (parent : Bool) where
  -- `namex` behind its loop.
  unfoldable pub namex_end : ℕ → List ℕ → Blocks → (ℕ → Node) → Outcome Found
  namex_end k name d t = elim parent [
    | true ↦ iput sb (t k) d >>= λ put. returns (none, name, put.1, set_node t k put.0)
    | false ↦ returns (some k, name, d, t)
  ]

  -- The loop of `namex` at the entry `k`. A round takes a byte of the path at least, so as many rounds as it
  -- has bytes end it, at a path without elements.
  unfoldable pub namex_loop : ℕ → List ℕ → List ℕ → ℕ → Blocks → (ℕ → Node) → Outcome Found
  namex_loop zero path name k d t = namex_end k name d t
  namex_loop (suc rounds) path name k d t = elim (skipelem path name) [
    | none ↦ namex_end k name d t
    | some (rest, element) ↦ ilock sb d (t k) >>= λ ip.
        let u = set_node t k ip in
        elim (ip.copy.type == t_dir) [
          | false ↦ iunlockput sb k d u >>= λ put. returns (none, element, put.0, put.1)
          | true ↦ elim (parent && is_empty rest) [
            | true ↦ returns (some k, element, d, set_node u k (iunlock (u k)))
            | false ↦ dirlookup sb datastart (name_memory element behind) m k d u >>= λ got.
                iunlockput sb k got.1 got.2 >>= λ put. elim got.0 [
                  | none ↦ returns (none, element, put.0, put.1)
                  | some next ↦ namex_loop rounds rest element next.0 put.0 put.1
                ]
          ]
        ]
  ]

  -- `cwd` is the entry of the task's directory; the name is that of the caller.
  unfoldable pub namex : List ℕ → List ℕ → ℕ → Blocks → (ℕ → Node) → Outcome Found
  namex path name cwd d t = elim (is_absolute path) [
    | true ↦ or_panics (iget rootdev rootino (slots t)) >>= λ got.
        namex_loop (length path) path name got.0 d (with_slots t got.1)
    | false ↦ namex_loop (length path) path name cwd d (with_slots t (idup cwd (slots t)))
  ]

module _ (sb : Superblock) (datastart : ℕ) (behind : ℕ → ℕ) (m : Local) where
  unfoldable pub namei : List ℕ → List ℕ → ℕ → Blocks → (ℕ → Node) → Outcome Found
  namei path name cwd d t = namex sb datastart behind m false path name cwd d t

  unfoldable pub nameiparent : List ℕ → List ℕ → ℕ → Blocks → (ℕ → Node) → Outcome Found
  nameiparent path name cwd d t = namex sb datastart behind m true path name cwd d t

-- `DPB`
abbrev pub dirents_per_block : ℕ
dirents_per_block = 64

-- The entry at offset `o` of block `n`, with `strncpy` of the name: 15 bytes of the source are all that it
-- looks at.
unfoldable pub write_dirent : Local → ℕ → ℕ → ℕ → Blocks → Blocks
write_dirent name inum n o d =
    let e = write16 d n o inum in
    elim (strncpy (block_bytes e n (o + 2) dirsiz) (local_bytes name 0 (dirsiz + 1)) dirsiz) [
      | none ↦ e
      | some l ↦ store_bytes e n (o + 2) l
    ]

module _ (sb : Superblock) (datastart : ℕ) where
  -- The number of the next block of the directory, allocated if there is none, and its address.
  unfoldable pub next_block : ℕ → Node → Blocks → Outcome (ℕ × Node × Blocks)
  next_block nd dip d = elim (get_or dip.copy.addrs nd 0 == 0) [
    | false ↦ returns (get_or dip.copy.addrs nd 0, dip, d)
    | true ↦ or_panics (balloc sb datastart d) >>= λ got.
        let addrs = set dip.copy.addrs nd got.0 in
        returns (get_or addrs nd 0, with_addrs dip addrs, got.1)
  ]

  -- The loop of `dirlink` in round `i`, with `nd` for `ndirect`, holding a block or none yet. `false` is -1.
  unfoldable pub dirlink_loop :
      Local → ℕ → ℕ → ℕ → Option ℕ → ℕ → Node → Blocks → Outcome (Bool × Node × Blocks)
  dirlink_loop name inum zero i held nd dip d = returns (false, dip, d)
  dirlink_loop name inum (suc rounds) i held nd dip d = next_held i held nd dip d >>= λ got.
      let (n, k, jp, e) = got in
      let o = i % dirents_per_block * dirent_size in
      elim (read16 e n o == 0) [
        | false ↦ dirlink_loop name inum rounds (i + 1) (some n) k jp e
        | true ↦
            let size = u32 (jp.copy.size + dirent_size) in
            let larger = record jp { copy = record (jp.copy) { size = size } } in
            returns (true, larger, iupdate sb larger (write_dirent name (inum % 2 ^ 16) n o e))
      ]
    where
      next_held : ℕ → Option ℕ → ℕ → Node → Blocks → Outcome (ℕ × ℕ × Node × Blocks)
      next_held i none nd dip d = next_block nd dip d >>= λ b. returns (b.0, nd, b.1, b.2)
      next_held i (some n) nd dip d = elim (leb ((nd + 1) * dirents_per_block) i) [
        | false ↦ returns (n, nd, dip, d)
        | true ↦ next_block (nd + 1) dip d >>= λ b. returns (b.0, nd + 1, b.1, b.2)
      ]

  -- `false` is -1.
  unfoldable pub dirlink :
      Local → ℕ → Local → ℕ → Blocks → (ℕ → Node) → Outcome (Bool × Blocks × (ℕ → Node))
  dirlink name inum m k d t =
      if not ((t k).copy.type == t_dir)
      then panics
      else dirlookup sb datastart name m k d t >>= λ found. elim found.0 [
        | some entry ↦ returns (false, found.1, found.2)
        | none ↦
            dirlink_loop name inum (ndirect * dirents_per_block) 0 none 0 (found.2 k) found.1
            >>= λ end. returns (end.0, end.2, set_node found.2 k end.1)
      ]
