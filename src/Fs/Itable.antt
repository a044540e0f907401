-- ===== src/Fs/Itable.antt =====
-- `iget` and `idup` of kernel/fs.c: the table of inodes in memory. Each call holds `itable.lock`, so it is
-- one step.
pub mod Unique
use zrhos.Base.{
  ℕ, zero, suc, ◌+◌, ◌^◌, Bool, true, false, ◌&&◌, Option, none, some, ◌==◌, ltb, if◌then◌else◌,
  u32,
}

-- `inode_t`, without the copy of the disk inode; `ref` is a 32-bit pattern.
pub record Inode : Type 0 where
  pub dev : ℕ
  pub inum : ℕ
  pub ref : ℕ
  pub valid : Bool

abbrev pub Itable : Type 0
Itable = ℕ → Inode

-- `NINODE`
abbrev pub ninode : ℕ
ninode = 100

abbrev pub update : Itable → ℕ → Inode → Itable
update s i v j = if i == j then v else s j

-- `ip->ref > 0`
abbrev pub live : Inode → Bool
live x = ltb 0 x.ref && ltb x.ref (2 ^ 31)

abbrev pub holds : ℕ → ℕ → Inode → Bool
holds dev inum x = live x && ((x.dev == dev) && (x.inum == inum))

abbrev pub remember : Option ℕ → ℕ → Inode → Option ℕ
remember (some k) i x = some k
remember none i x = if x.ref == 0 then some i else none

-- How the loop of `iget` ends: at the inode, or with the empty slot that it remembers.
pub data Search : Type 0 where
  found : ℕ → Search
  missing : Option ℕ → Search

unfoldable pub iget_loop : ℕ → ℕ → ℕ → ℕ → Option ℕ → Itable → Search
iget_loop zero i dev inum empty s = missing empty
iget_loop (suc rounds) i dev inum empty s =
    let rest = iget_loop rounds (i + 1) dev inum (remember empty i (s i)) s in
    if holds dev inum (s i) then found i else rest

-- The inode behind the loop; `none` is the panic "iget: no inodes".
unfoldable pub iget_end : ℕ → ℕ → Itable → Search → Option (ℕ × Itable)
iget_end dev inum s (found k) = some (k, update s k (record (s k) { ref = u32 ((s k).ref + 1) }))
iget_end dev inum s (missing none) = none
iget_end dev inum s (missing (some k)) =
    some (k, update s k (record (s k) { dev = dev; inum = inum; ref = 1; valid = false }))

unfoldable pub iget : ℕ → ℕ → Itable → Option (ℕ × Itable)
iget dev inum s = iget_end dev inum s (iget_loop ninode 0 dev inum none s)

unfoldable pub idup : ℕ → Itable → Itable
idup k s = update s k (record (s k) { ref = u32 ((s k).ref + 1) })
