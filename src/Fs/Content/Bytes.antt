-- ===== src/Fs/Content/Bytes.antt =====
-- A file as its bytes, whatever blocks hold them.
use zrhos.Base.{
  ℕ, zero, suc, ◌+◌, ◌*◌, ◌/◌, ◌%◌, ◌≤◌, ◌<◌, ◌≡◌, ◌≢◌, refl, sym, ap, ap₂, ◌∙◌, false, List, [],
  ◌∷◌, ◌++◌, ltb, leb, arith, length,
}
use zrhos.Fs.Bitmap.{Superblock, Blocks}
use zrhos.Fs.Inode.{returns, Node}
use zrhos.Fs.Content.{lookup, bmap, block_bytes}

-- Byte `i` of the file with these addresses.
unfoldable pub file_byte : List ℕ → Blocks → ℕ → ℕ
file_byte addrs d i = d (lookup addrs d (i / 1024)) (i % 1024)

unfoldable pub file_bytes : List ℕ → Blocks → ℕ → ℕ → List ℕ
file_bytes addrs d off zero = []
file_bytes addrs d off (suc len) = file_byte addrs d off ∷ file_bytes addrs d (off + 1) len

-- The bytes in the blocks of a file of this size.
abbrev pub capacity : ℕ → ℕ
capacity size = (size + 1023) / 1024 * 1024

-- The file has a block for every byte of its size, and no block behind them.
pub record IsFile (ip : Node) (d : Blocks) : Type 0 where
  pub size_fits : ip.copy.size ≤ 268 * 1024
  pub full : (k : ℕ) → k * 1024 < ip.copy.size → lookup ip.copy.addrs d k ≢ 0
  pub ends : (k : ℕ) → k < 268 → ip.copy.size ≤ k * 1024 → lookup ip.copy.addrs d k ≡ 0

pub bmap-lookup :
    (sb : Superblock) (datastart : ℕ) (ip : Node) (start : ℕ) (d : Blocks)
    → start < 268
    → start ≤ ip.copy.size / 1024 + 1
    → bmap sb datastart ip start d ≡ returns (lookup ip.copy.addrs d start, ip, d)
unfolding bmap
bmap-lookup sb datastart ip start d small near =
    let inside : leb 268 start ≡ false = ground arith in
    let present : ltb (ip.copy.size / 1024 + 1) start ≡ false = ground arith in
    rw (inside, present, bmap) refl

pub block_bytes-file_bytes :
    (addrs : List ℕ) (d : Blocks) (off len : ℕ)
    → off % 1024 + len ≤ 1024
    → block_bytes d (lookup addrs d (off / 1024)) (off % 1024) len ≡ file_bytes addrs d off len
unfolding block_bytes file_bytes file_byte
block_bytes-file_bytes addrs d off zero le = refl
block_bytes-file_bytes addrs d off (suc zero) le = refl
block_bytes-file_bytes addrs d off (suc (suc len)) le =
    let block : (off + 1) / 1024 ≡ off / 1024 = omega arith in
    let byte : (off + 1) % 1024 ≡ off % 1024 + 1 = omega arith in
    ap (λ l. d (lookup addrs d (off / 1024)) (off % 1024) ∷ l)
      (ap₂ (λ b o. block_bytes d (lookup addrs d b) o (suc len)) (sym block) (sym byte)
        ∙ block_bytes-file_bytes addrs d (off + 1) (suc len) (omega arith))

pub file_bytes-append :
    (addrs : List ℕ) (d : Blocks) (off k len : ℕ)
    → file_bytes addrs d off k ++ file_bytes addrs d (off + k) len
      ≡ file_bytes addrs d off (k + len)
unfolding file_bytes
file_bytes-append addrs d off zero len = ap₂ (file_bytes addrs d) (omega arith) (omega arith)
file_bytes-append addrs d off (suc k) len =
    let shift : off + suc k ≡ off + 1 + k = omega arith in
    let count : suc (k + len) ≡ suc k + len = omega arith in
    ap (λ l. file_byte addrs d off ∷ l)
      (ap (λ o. file_bytes addrs d (off + 1) k ++ file_bytes addrs d o len) shift
        ∙ file_bytes-append addrs d (off + 1) k len)
    ∙ ap (file_bytes addrs d off) count

pub length-file_bytes :
    (addrs : List ℕ) (d : Blocks) (off len : ℕ) → length (file_bytes addrs d off len) ≡ len
unfolding file_bytes
length-file_bytes addrs d off zero = refl
length-file_bytes addrs d off (suc len) = ap suc (length-file_bytes addrs d (off + 1) len)
