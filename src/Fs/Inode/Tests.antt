-- ===== src/Fs/Inode/Tests.antt =====
-- Runs of the operations on inodes.
use zrhos.Base.{
  ℕ, zero, suc, All, ◌^◌, ◌<◌, ◌≡◌, refl, true, false, ◌&&◌, not, some, [], ◌∷◌, ◌==◌,
  if◌then◌else◌, arith, replicate, get_or,
}
use zrhos.Fs.Bitmap.{Superblock, Blocks}
use zrhos.Fs.Bitmap.Laws.{allocated, AreBytes}
use zrhos.Fs.Bytes.{read16}
use zrhos.Fs.Itable.{iget, iget_end, iget_loop, update}
use zrhos.Fs.Inode.{
  Node, Dinode, returns, panics, iupdate, ilock, itrunc, iput, ialloc, release, acquire,
  ialloc_loop, set_type, with_slots, slots,
}
use zrhos.Fs.Inode.RoundTrip.{IsDinode, ilock-iupdate}
use zrhos.Fs.Inode.Owned.{mem, blocks_of, direct_blocks, Distinct, InUse}
use zrhos.Fs.Inode.Trunc.{IsTruncatable, itrunc-allocated}

abbrev layout : Superblock
layout = record {
  magic = 4739674;
  size = 100;
  nblocks = 100;
  ninodes = 32;
  inodestart = 2;
  bmapstart = 4;
}

-- Blocks 50 and 60 are in use.
abbrev disk : Blocks
disk n i = if (n == 4) && (i == 6) then 4 else if (n == 4) && (i == 7) then 16 else 0

abbrev file : Dinode
file = record {
  type = 2;
  major = 0;
  minor = 0;
  nlink = 1;
  size = 2000;
  addrs = 50 ∷ 60 ∷ replicate 11 0;
}

abbrev node : Node
node = record { slot = record { dev = 1; inum = 3; ref = 1; valid = true }; lock = 1; copy = file }

-- The same inode, not read yet.
abbrev blank : Node
blank = record node { slot = record { dev = 1; inum = 3; ref = 1; valid = false } }

no_more : (n : ℕ) → All (λ x. x < 2 ^ 32) (replicate n 0)
no_more zero = tt
no_more (suc n) = (omega arith, no_more n)

file-IsDinode : IsDinode file
file-IsDinode = record {
  type_fits = omega arith;
  major_fits = omega arith;
  minor_fits = omega arith;
  nlink_fits = omega arith;
  size_fits = omega arith;
  count = refl;
  addrs_fit = (omega arith, (omega arith, no_more 11));
}

ilock-iupdate_example :
    ilock layout (iupdate layout node disk) blank ≡ returns (record node { lock = 0 })
ilock-iupdate_example =
    ilock-iupdate layout disk node blank file-IsDinode (omega arith) (omega arith) (omega arith)
      (omega arith) (omega arith) refl refl

named : blocks_of disk file.addrs ≡ 50 ∷ 60 ∷ []
unfolding blocks_of direct_blocks
named = refl

disk-AreBytes : AreBytes disk
disk-AreBytes n i = ground arith

node-IsTruncatable : IsTruncatable layout disk node
unfolding blocks_of direct_blocks Distinct mem InUse allocated
node-IsTruncatable = record {
  fits = omega arith;
  bytes = disk-AreBytes;
  unlocked = refl;
  count = refl;
  used = ((omega arith, refl), ((omega arith, refl), tt));
  distinct = (refl, (refl, tt));
  indirect_apart = λ b lt. omega arith;
  inode_apart = λ b lt. omega arith;
}

itrunc-allocated_example :
    (jp : Node) × (e : Blocks) × (itrunc layout node disk ≡ returns (jp, e))
    × (jp.lock ≡ 1)
    × (jp.copy.size ≡ 0)
    × ((k : ℕ) → k < 13 → get_or jp.copy.addrs k 0 ≡ 0)
    × ((j : ℕ)
        → j < 100
        → allocated layout e j
          ≡ (allocated layout disk j && not (mem j (blocks_of disk file.addrs))))
itrunc-allocated_example = itrunc-allocated layout disk node node-IsTruncatable

-- The last reference to an inode without links.
abbrev unlinked : Node
unlinked = record node { copy = record file { nlink = 0 } }

iput_run : iput layout unlinked disk ≡ panics
unfolding iput release itrunc acquire
iput_run = refl

-- A table without entries.
abbrev table : ℕ → Node
table k = record blank { slot = record { dev = 0; inum = 0; ref = 0; valid = false } }

abbrev filled : ℕ → Node
filled =
    set_type
      (with_slots table
        (update (slots table) 0 (record { dev = 1; inum = 1; ref = 1; valid = false })))
      0 2

ialloc_run : ialloc layout 1 2 disk table ≡ returns (some 0, filled)
unfolding ialloc ialloc_loop iget iget_end iget_loop read16
ialloc_run = refl
