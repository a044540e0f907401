-- ===== src/Fs/Bitmap.antt =====
-- `get_datastart`, `balloc` and `bfree` of kernel/fs.c: the free map of disk blocks.
pub mod Laws
use zrhos.Base.{
  ℕ, zero, suc, ◌+◌, ◌-◌, ◌*◌, ◌/◌, ◌%◌, Bool, true, false, not, ◌&&◌, ◌||◌, Option, none, some,
  ◌==◌, ltb, if◌then◌else◌, u32,
}
use zrhos.Base.Bits.{has_bit, with_bit, without_bit}

-- `struct superblock`
pub record Superblock : Type 0 where
  pub magic : ℕ
  pub size : ℕ
  pub nblocks : ℕ
  pub ninodes : ℕ
  pub inodestart : ℕ
  pub bmapstart : ℕ

abbrev pub bsize : ℕ
bsize = 1024

-- `BPB`, `BBLOCK`
abbrev pub bits_per_block : ℕ
bits_per_block = bsize * 8

abbrev pub map_block : ℕ → Superblock → ℕ
map_block b sb = u32 (b / bits_per_block + sb.bmapstart)

unfoldable pub get_datastart : Superblock → ℕ
get_datastart sb =
    let bits = sb.nblocks / bits_per_block in
    let bytes = u32 (bits * 8) in
    let blocks = u32 (bytes + bsize - 1) / bsize in u32 (sb.bmapstart + blocks)

-- The blocks of the disk as the buffer cache gives them, byte by byte.
abbrev pub Blocks : Type 0
Blocks = ℕ → ℕ → ℕ

abbrev pub write_byte : Blocks → ℕ → ℕ → ℕ → Blocks
write_byte d n i x m j = if (n == m) && (i == j) then x else d m j

-- The block that the loop of `balloc` holds after its first test in round `i`.
abbrev pub held_block : Superblock → ℕ → Option ℕ → ℕ
held_block sb i none = map_block i sb
held_block sb i (some n) = if ltb n (map_block i sb) then map_block i sb else n

-- The loop of `balloc` with `rounds` rounds to go, at block `i`, holding the buffer of a map block or
-- none yet. `none` is the panic "out of blocks".
unfoldable pub balloc_loop : Superblock → ℕ → ℕ → Option ℕ → Blocks → Option (ℕ × Blocks)
balloc_loop sb zero i held d = none
balloc_loop sb (suc rounds) i held d =
    let n = held_block sb i held in
    let bi = i % bits_per_block in
    let rest = balloc_loop sb rounds (i + 1) (some n) d in
    if not (has_bit (d n (bi / 8)) (bi % 8))
    then some (i, write_byte d n (bi / 8) (with_bit (d n (bi / 8)) (bi % 8)))
    else rest

unfoldable pub balloc : Superblock → ℕ → Blocks → Option (ℕ × Blocks)
balloc sb datastart d = balloc_loop sb (sb.nblocks - datastart) datastart none d

-- `none` is the panic "freeing free block".
unfoldable pub bfree : Superblock → ℕ → Blocks → Option Blocks
bfree sb b d =
    let n = map_block b sb in
    let bi = b % bits_per_block in
    if not (has_bit (d n (bi / 8)) (bi % 8))
    then none
    else some (write_byte d n (bi / 8) (without_bit (d n (bi / 8)) (bi % 8)))
