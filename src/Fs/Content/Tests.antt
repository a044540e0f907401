-- ===== src/Fs/Content/Tests.antt =====
-- Runs of `readi` and `writei` on a small file, of `dirlookup` in a small directory.
use zrhos.Base.{
  ℕ, zero, suc, ◌+◌, ◌-◌, ◌*◌, ◌/◌, ◌%◌, ◌≤◌, ◌<◌, ◌≡◌, ◌≢◌, refl, ap, ◌⊎◌, inl, inr, Bool, true,
  false, not, ◌&&◌, some, none, List, ◌∷◌, ◌==◌, ltb, if◌then◌else◌, arith, replicate, get_or,
  Bool-cases,
}
use zrhos.Fs.Bitmap.{Superblock, Blocks}
use zrhos.Fs.Bytes.{read16, read32}
use zrhos.Fs.Inode.{Node, returns, inode_block}
use zrhos.Fs.Content.{lookup, readi, writei}
use zrhos.Fs.Content.Bytes.{IsFile, file_byte, file_bytes, capacity}
use zrhos.Fs.Content.Read.{readi-file_bytes}
use zrhos.Fs.Content.Written.{IsPlain, source_bytes}
use zrhos.Fs.Content.RoundTrip.{IsApart, resized, writei-file_byte, readi-writei}
use zrhos.Fs.Directory.{Local, to_kernel, copy_bytes, dirlookup, entered}
use zrhos.Fs.Directory.Names.{kernel_sink}
use zrhos.Fs.Directory.Lookup.{has_name, entry_inum, dirlookup-first}

abbrev layout : Superblock
layout = record {
  magic = 4739674;
  size = 100;
  nblocks = 100;
  ninodes = 32;
  inodestart = 2;
  bmapstart = 4;
}

-- Block 50 holds a directory: an entry that is not in use, and inode 5 with the name "a".
abbrev disk : Blocks
disk n i = if (n == 50) && (i == 16) then 5 else if (n == 50) && (i == 18) then 97 else 0

abbrev zeros : ℕ → List ℕ
zeros n = replicate n 0

-- A file of 32 bytes in block 50.
abbrev node : ℕ → Node
node type = record {
  slot = record { dev = 1; inum = 3; ref = 1; valid = true };
  lock = 1;
  copy = record { type = type; major = 0; minor = 0; nlink = 1; size = 32; addrs = 50 ∷ zeros 12 };
}

get_or-zeros : (n i : ℕ) → get_or (zeros n) i 0 ≡ 0
get_or-zeros zero i = refl
get_or-zeros (suc n) zero = refl
get_or-zeros (suc n) (suc i) = get_or-zeros n i

no_block : (k : ℕ) → 32 ≤ k * 1024 → lookup (50 ∷ zeros 12) disk k ≡ 0
unfolding read32 read16
no_block zero h = absurd (omega arith)
no_block (suc k) h = elim (Bool-cases (ltb (suc k) 12)) [
  | inl y ↦ rw y (get_or-zeros 12 k)
  | inr g ↦ rw g (ground arith)
]

first_block : (k : ℕ) → k * 1024 < 32 → lookup (50 ∷ zeros 12) disk k ≡ 50
first_block zero h = refl
first_block (suc k) h = absurd (omega arith)

node-IsFile : (type : ℕ) → IsFile (node type) disk
node-IsFile type = record {
  size_fits = omega arith;
  full = λ k lt z. omega (arith, first_block k lt, z);
  ends = λ k small past. no_block k past;
}

node-IsPlain : (type : ℕ) → IsPlain (node type) disk
node-IsPlain type = record {
  distinct = λ j k jj kk same. omega arith;
  indirect_apart = λ k lt z. omega (arith, first_block k lt, z);
}

node-IsApart : (type : ℕ) → IsApart layout (node type) disk
node-IsApart type = record {
  count = refl;
  indirect = λ e. omega (arith, e);
  contents = λ k lt z. omega (arith, first_block k lt, z);
}

abbrev stack : Local
stack a = 7

readi-file_bytes_example :
    readi layout 5 to_kernel (node 2) 0 10 2000 stack disk
    ≡ returns
        (some 1014, copy_bytes 0 (file_bytes (node 2).copy.addrs disk 10 1014) stack, node 2, disk)
readi-file_bytes_example =
    readi-file_bytes layout 5 to_kernel kernel_sink (λ dst l m. refl) 0 10 2000 stack (node 2) disk
      (node-IsFile 2) (omega arith) (omega arith) (omega arith)

abbrev val : ℕ → ℕ
val k = k % 256

abbrev source : ℕ → ℕ → List ℕ × Bool
source src len = (source_bytes val src len, true)

supplies : (k len : ℕ) → k + len ≤ 2000 → source (0 + k) len ≡ (source_bytes val k len, true)
supplies k len le = let at : 0 + k ≡ k = omega arith in ap (λ s. source s len) at

-- The cache loses block 50, or no block.
abbrev loses : ℕ → Bool
loses n = not (n == 50)

abbrev keeps : ℕ → Bool
keeps n = true

-- Of 2000 bytes the file has room for 1014.
writei-file_byte_example :
    (e : Blocks) × (writei layout 5 loses disk source (node 2) 0 10 2000 disk
      ≡ returns (some 1014, resized (node 2) 1024, e))
    × ((i : ℕ)
        → 10 ≤ i
        → i < 10 + 1014
        → file_byte (node 2).copy.addrs e i ≡ (
            if loses (lookup (node 2).copy.addrs disk (i / 1024))
            then val (i - 10)
            else file_byte (node 2).copy.addrs disk i))
    × ((i : ℕ)
        → i < capacity 32
        → (i < 10) ⊎ (10 + 1014 ≤ i)
        → file_byte (node 2).copy.addrs e i ≡ file_byte (node 2).copy.addrs disk i)
    × ((m j : ℕ)
        → inode_block 3 layout ≢ m
        → ((k : ℕ) → k * 1024 < 32 → lookup (node 2).copy.addrs disk k ≢ m)
        → e m j ≡ disk m j)
writei-file_byte_example =
    writei-file_byte layout 5 loses disk source val 0 2000 supplies (omega arith) (node 2) disk 10
      (node-IsFile 2) (node-IsPlain 2) (λ n j g. refl) (node-IsApart 2) (omega arith) (omega arith)

readi-writei_example :
    (e : Blocks) × (writei layout 5 keeps disk source (node 2) 0 10 2000 disk
      ≡ returns (some 1014, resized (node 2) 1024, e))
    × (readi layout 5 to_kernel (resized (node 2) 1024) 0 10 1014 stack e
        ≡ returns
            (some 1014, copy_bytes 0 (source_bytes val 0 1014) stack, resized (node 2) 1024, e))
readi-writei_example =
    readi-writei layout 5 keeps disk source val 0 2000 supplies (omega arith) (node 2) disk 10
      (node-IsFile 2) (node-IsPlain 2) (λ n j g. refl) (node-IsApart 2) (omega arith) (omega arith)
      to_kernel kernel_sink 0 stack (λ dst l m. refl) (omega arith) (λ i le lt. refl)

-- The name "a".
abbrev name : Local
name a = if a == 0 then 97 else 0

abbrev table : ℕ → Node
table k = node 1

dirlookup-first_example :
    ((j : ℕ) × (16 * j < 32)
      × (has_name name stack (node 1).copy.addrs disk j ≡ true)
      × ((l : ℕ) → l < j → has_name name stack (node 1).copy.addrs disk l ≡ false)
      × (dirlookup layout 5 name stack 0 disk table
          ≡ entered 1 (16 * j) (entry_inum (node 1).copy.addrs disk j) disk table))
    ⊎ (((j : ℕ) → 16 * j < 32 → has_name name stack (node 1).copy.addrs disk j ≡ false)
        × (dirlookup layout 5 name stack 0 disk table ≡ returns (none, disk, table)))
dirlookup-first_example = dirlookup-first layout 5 name stack 0 disk table (node-IsFile 1) refl
