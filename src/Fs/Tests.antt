-- ===== src/Fs/Tests.antt =====
-- Runs of the file system's helpers, and the theorems at concrete disks and paths.
use zrhos.Base.{
  ◌+◌, ◌^◌, ℕ, zero, suc, ◌≤◌, ◌<◌, ◌-◌, ◌≡◌, ◌⊎◌, refl, true, false, none, some, List, [], ◌∷◌,
  ◌==◌, if◌then◌else◌, take, arith,
}
use zrhos.Base.Bits.{with_bit}
use zrhos.Fs.Bitmap.{Superblock, get_datastart, Blocks, write_byte, balloc_loop, balloc}
use zrhos.Fs.Bitmap.Laws.{allocated, AreBytes, balloc-allocated}
use zrhos.Fs.Itable.{Itable, update, iget, iget_loop, iget_end, holds}
use zrhos.Fs.Itable.Unique.{IsUnique, iget-IsUnique}
use zrhos.Fs.Path.{dirsiz, skip_slashes, span, store_name, first_element, skipelem}
use zrhos.Fs.Path.Laws.{name_text, elements, NoSlash, skipelem-elements}

-- a disk of 5 blocks whose free map is block 0; blocks 0 and 1 are in use
abbrev sb : Superblock
sb = record { magic = 4739674; size = 5; nblocks = 5; ninodes = 4; inodestart = 2; bmapstart = 0 }

abbrev disk : Blocks
disk n i = if i == 0 then 3 else 0

abbrev full_disk : Blocks
full_disk n i = 255

disk-AreBytes : AreBytes disk
disk-AreBytes n zero = omega arith
disk-AreBytes n (suc i) = grind arith

abbrev marked : Blocks
marked = write_byte disk 0 0 (with_bit 3 2)

balloc_run : balloc sb 1 disk ≡ some (2, marked)
unfolding balloc balloc_loop
balloc_run = refl

balloc-allocated_example :
    (1 ≤ 2)
    × (2 < 5)
    × (allocated sb disk 2 ≡ false)
    × (allocated sb marked 3 ≡ (if 2 == 3 then true else allocated sb disk 3))
balloc-allocated_example =
    balloc-allocated sb disk marked 1 2 3 (omega arith) disk-AreBytes (omega arith) (omega arith)
      balloc_run

balloc_full : balloc sb 1 full_disk ≡ none
unfolding balloc balloc_loop
balloc_full = refl

-- the image that mkfs makes
abbrev image : Superblock
image = record {
  magic = 4739674;
  size = 262144;
  nblocks = 262144;
  ninodes = 16384;
  inodestart = 2;
  bmapstart = 1026;
}

image_datastart : get_datastart image ≡ 1027
unfolding get_datastart
image_datastart = refl

-- "//ab/c" and a name that held "xyz"
abbrev path : List ℕ
path = 47 ∷ 47 ∷ 97 ∷ 98 ∷ 47 ∷ 99 ∷ []

abbrev name : List ℕ
name = 120 ∷ 121 ∷ 122 ∷ 0 ∷ []

skipelem_run : skipelem path name ≡ some (99 ∷ [], 97 ∷ 98 ∷ 0 ∷ 0 ∷ [])
unfolding skipelem first_element skip_slashes span store_name
skipelem_run = refl

skipelem-elements_example :
    ((skipelem path name ≡ none) × (elements path ≡ []))
    ⊎ ((e rest name' : List ℕ) × (skipelem path name ≡ some (rest, name'))
        × (elements path ≡ e ∷ elements rest)
        × (name_text dirsiz name' ≡ take dirsiz e)
        × NoSlash rest)
skipelem-elements_example =
    skipelem-elements path name
      (omega arith, (omega arith, (omega arith, (omega arith, (omega arith, (omega arith, tt))))))

-- entry 3 holds inode 5
abbrev inodes : Itable
inodes i = record { dev = 1; inum = 5; ref = if i == 3 then 1 else 0; valid = true }

abbrev shared : Itable
shared = update inodes 3 (record { dev = 1; inum = 5; ref = 2; valid = true })

gets : iget 1 5 inodes ≡ some (3, shared)
unfolding iget iget_loop iget_end
gets = refl

inodes-IsUnique : IsUnique inodes
inodes-IsUnique j k lj lk alive same = ground arith

inodes-small : (j : ℕ) → (inodes j).ref < 2 ^ 31 - 1
inodes-small j = ground arith

iget-IsUnique_example :
    IsUnique shared × (holds 1 5 (shared 3) ≡ true) × ((shared 3).ref ≡ (inodes 3).ref + 1)
iget-IsUnique_example = iget-IsUnique 1 5 3 inodes shared inodes-small inodes-IsUnique gets
