-- ===== src/Fs/Create/Tests.antt =====
-- `create` in an empty directory.
use zrhos.Base.{
  ℕ, zero, suc, ◌≡◌, ◌≢◌, refl, sym, subst, inl, inr, true, ◌&&◌, none, List, ◌==◌, ltb,
  if◌then◌else◌, arith, replicate, get_or, Bool-cases,
}
use zrhos.Fs.Bitmap.{Superblock, Blocks}
use zrhos.Fs.Bytes.{read16, read32}
use zrhos.Fs.Itable.{holds}
use zrhos.Fs.Inode.{Node, returns, read_dinode}
use zrhos.Fs.Inode.RoundTrip.{disk_inode}
use zrhos.Fs.Content.{lookup}
use zrhos.Fs.Content.Bytes.{IsFile}
use zrhos.Fs.Directory.{Local, dirlookup}
use zrhos.Fs.Directory.Lookup.{dirlookup-first}
use zrhos.Fs.Create.{create_in}
use zrhos.Fs.Create.Fails.{IsNothing, create_in-IsNothing}

abbrev layout : Superblock
layout = record {
  magic = 4739674;
  size = 100;
  nblocks = 100;
  ninodes = 32;
  inodestart = 2;
  bmapstart = 4;
}

-- Inode 3 is a directory.
abbrev disk : Blocks
disk n i = if (n == 2) && (i == 192) then 1 else 0

abbrev zeros : ℕ → List ℕ
zeros n = replicate n 0

abbrev folder : ℕ → Node
folder ref = record {
  slot = record { dev = 1; inum = 3; ref = ref; valid = true };
  lock = ref;
  copy = record { type = 1; major = 0; minor = 0; nlink = 1; size = 0; addrs = zeros 13 };
}

-- Entry 0 of the table has it; the others are empty.
abbrev table : ℕ → Node
table k = if k == 0 then folder 1 else folder 0

no_block : (k : ℕ) → lookup (zeros 13) disk k ≡ 0
unfolding read32 read16
no_block k = elim (Bool-cases (ltb k 12)) [ inl y ↦ rw y (get_or-zeros 13 k) | inr g ↦ rw g refl ]
  where
    get_or-zeros : (n i : ℕ) → get_or (zeros n) i 0 ≡ 0
    get_or-zeros zero i = refl
    get_or-zeros (suc n) zero = refl
    get_or-zeros (suc n) (suc i) = get_or-zeros n i

folder-IsFile : IsFile (folder 1) disk
folder-IsFile = record {
  size_fits = omega arith;
  full = λ k lt z. absurd (omega arith);
  ends = λ k small past. no_block k;
}

abbrev name : Local
name a = if a == 0 then 97 else 0

abbrev stack : Local
stack a = 7

not_there : dirlookup layout 5 name stack 0 disk table ≡ returns (none, disk, table)
not_there = elim (dirlookup-first layout 5 name stack 0 disk table folder-IsFile refl) [
  | inl (j, lt, found, before, result) ↦ absurd (omega arith)
  | inr (all, result) ↦ result
]

in_use : (j inum : ℕ) → holds 1 inum (table j).slot ≡ true → (disk_inode layout disk inum).type ≢ 0
unfolding disk_inode read_dinode read16
in_use j inum h free =
    let at : 3 ≡ inum = ground arith in
    let three = subst (λ i. (disk_inode layout disk i).type ≡ 0) (sym at) free in
    omega (arith, three)

create_in-IsNothing_example : IsNothing (create_in layout 5 stack name 2 0 0 0 disk table)
create_in-IsNothing_example =
    create_in-IsNothing layout 5 stack name 2 0 0 0 disk table (omega arith) in_use not_there
