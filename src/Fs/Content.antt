-- ===== src/Fs/Content.antt =====
-- The contents of files: `bmap`, `writei` and `readi` of kernel/fs.c.
pub mod Bytes
pub mod Read
pub mod Written
pub mod Write
pub mod RoundTrip
pub mod Tests
use zrhos.Base.{
  ℕ, zero, suc, ◌+◌, ◌-◌, ◌*◌, ◌/◌, ◌%◌, ◌^◌, Bool, true, false, not, ◌&&◌, ◌||◌, Option, none,
  some, List, [], ◌∷◌, ◌==◌, ltb, leb, if◌then◌else◌, u32, u64, get_or, set,
}
use zrhos.Fs.Bitmap.{Superblock, Blocks, write_byte, balloc}
use zrhos.Fs.Bytes.{read32, write32}
use zrhos.Fs.Inode.{Outcome, returns, panics, ◌>>=◌, Node, ndirect, iupdate}

-- `MAXFILE` and `BSIZE`
abbrev pub max_file : ℕ
max_file = 268

abbrev pub block_size : ℕ
block_size = 1024

-- `(uint_t)-1`
abbrev pub minus_one : ℕ
minus_one = 2 ^ 32 - 1

abbrev pub with_addrs : Node → List ℕ → Node
with_addrs ip addrs = record ip { copy = record (ip.copy) { addrs = addrs } }

-- The block that the addresses name for block `start` of the file.
abbrev pub lookup : List ℕ → Blocks → ℕ → ℕ
lookup addrs d start =
    if ltb start ndirect
    then get_or addrs start 0
    else read32 d (get_or addrs ndirect 0) (4 * (start - ndirect))

module _ (sb : Superblock) (datastart : ℕ) where
  -- The loop of `bmap` over the direct blocks, from block `i`; `false` is the early return of -1.
  unfoldable pub grow_direct : ℕ → ℕ → List ℕ → Blocks → Outcome (Bool × List ℕ × Blocks)
  grow_direct zero i addrs d = returns (true, addrs, d)
  grow_direct (suc rounds) i addrs d = elim (balloc sb datastart d) [
    | none ↦ panics
    | some (addr, e) ↦ elim (addr == 0) [
      | true ↦ returns (false, addrs, e)
      | false ↦ grow_direct rounds (i + 1) (set addrs i addr) e
    ]
  ]

  -- The loop over the entries of the indirect block `n`, from block `i` of the file.
  unfoldable pub grow_indirect : ℕ → ℕ → ℕ → Blocks → Outcome Blocks
  grow_indirect n zero i d = returns d
  grow_indirect n (suc rounds) i d = elim (read32 d n (4 * (i - ndirect)) == 0) [
    | false ↦ grow_indirect n rounds (i + 1) d
    | true ↦ elim (balloc sb datastart d) [
      | none ↦ panics
      | some (addr, e) ↦ elim (addr == 0) [
        | true ↦ panics
        | false ↦ grow_indirect n rounds (i + 1) (write32 e n (4 * (i - ndirect)) addr)
      ]
    ]
  ]

  -- The indirect block, allocated if there is none.
  unfoldable pub indirect_block : List ℕ → Blocks → Outcome (List ℕ × Blocks)
  indirect_block addrs d = elim (get_or addrs ndirect 0 == 0) [
    | false ↦ returns (addrs, d)
    | true ↦ elim (balloc sb datastart d) [
      | none ↦ panics
      | some (addr, e) ↦ if addr == 0 then panics else returns (set addrs ndirect addr, e)
    ]
  ]

  -- `bmap` behind "append indirect".
  unfoldable pub append_indirect : Node → ℕ → List ℕ → Blocks → Outcome (ℕ × Node × Blocks)
  append_indirect ip start addrs d = indirect_block addrs d >>= λ got.
      let n = get_or got.0 ndirect 0 in
      grow_indirect n (start + 1 - ndirect) ndirect got.1 >>= λ e.
      returns (read32 e n (4 * (start - ndirect)), with_addrs ip got.0, e)

  -- `bmap` behind "append".
  unfoldable pub append_blocks : Node → ℕ → ℕ → Blocks → Outcome (ℕ × Node × Blocks)
  append_blocks ip end_block start d =
      let high = if ltb start ndirect then start else ndirect in
      elim (ltb end_block ndirect) [
        | false ↦ append_indirect ip start ip.copy.addrs d
        | true ↦ grow_direct (high - end_block) end_block ip.copy.addrs d >>= λ grown.
            elim grown.0 [
              | false ↦ returns (minus_one, with_addrs ip grown.1, grown.2)
              | true ↦ elim (leb start high) [
                | true ↦ returns (get_or grown.1 start 0, with_addrs ip grown.1, grown.2)
                | false ↦ append_indirect ip start grown.1 grown.2
              ]
            ]
      ]

  unfoldable pub bmap : Node → ℕ → Blocks → Outcome (ℕ × Node × Blocks)
  bmap ip start d =
      let end_block = ip.copy.size / block_size + 1 in
      elim (leb max_file start) [
        | true ↦ returns (minus_one, ip, d)
        | false ↦ elim (ltb end_block start) [
          | true ↦ append_blocks ip end_block start d
          | false ↦ returns (lookup ip.copy.addrs d start, ip, d)
        ]
      ]

-- What a round of `readi` and `writei` copies.
abbrev pub chunk : ℕ → ℕ → ℕ
chunk left off =
    if ltb left (block_size - off % block_size) then left else block_size - off % block_size

unfoldable pub block_bytes : Blocks → ℕ → ℕ → ℕ → List ℕ
block_bytes d n o zero = []
block_bytes d n o (suc len) = d n o ∷ block_bytes d n (o + 1) len

unfoldable pub store_bytes : Blocks → ℕ → ℕ → List ℕ → Blocks
store_bytes d n o [] = d
store_bytes d n o (x ∷ l) = store_bytes (write_byte d n o x) n (o + 1) l

-- The guards that `readi` and `writei` share; the operands are words.
abbrev pub out_of_range : ℕ → ℕ → ℕ → Bool
out_of_range off n size =
    (ltb size off || ltb (u32 (off + n)) off) || ltb (max_file * block_size) (u32 (off + n))

-- `copyout dst l m` is `either_copyout` of the bytes `l`, with the memory that it leaves and whether it
-- returned 0.
module _ (sb : Superblock) (datastart : ℕ) {M : Type 0} (copyout : ℕ → List ℕ → M → M × Bool) where
  -- The loop of `readi`, with the inode and the disk as `bmap` leaves them. A round copies a byte at
  -- least, so `n` rounds end it.
  unfoldable pub readi_loop :
      ℕ → ℕ → ℕ → ℕ → ℕ → M → Node → Blocks → Outcome (ℕ × M × Node × Blocks)
  readi_loop zero n tot dst off m ip d = returns (tot, m, ip, d)
  readi_loop (suc rounds) n tot dst off m ip d = elim (ltb tot n) [
    | false ↦ returns (tot, m, ip, d)
    | true ↦ bmap sb datastart ip (off / block_size) d >>= λ found.
        let (addr, jp, e) = found in
        elim (addr == 0) [
          | true ↦ returns (tot, m, jp, e)
          | false ↦
              let len = chunk (n - tot) off in
              let copied = copyout dst (block_bytes e addr (off % block_size) len) m in
              elim copied.1 [
                | false ↦ returns (tot, copied.0, jp, e)
                | true ↦
                    readi_loop rounds n (tot + len) (u64 (dst + len)) (u32 (off + len)) copied.0 jp
                      e
              ]
        ]
  ]

  -- `none` is -1.
  unfoldable pub readi : Node → ℕ → ℕ → ℕ → M → Blocks → Outcome (Option ℕ × M × Node × Blocks)
  readi ip dst off n m d = elim (out_of_range off n ip.copy.size) [
    | true ↦ returns (none, m, ip, d)
    | false ↦ readi_loop n n 0 dst off m ip d >>= λ end. returns (some end.0, end.1, end.2, end.3)
  ]

-- `if(off > ip->size) ip->size = off;`
abbrev pub grown_to : Node → ℕ → Node
grown_to ip off =
    if ltb ip.copy.size off then record ip { copy = record (ip.copy) { size = off } } else ip

-- `brelse` of the buffer of block `n`, changed to those of `f` without `bwrite`: while the cache keeps the buffer,
-- `bread` gives the change. Where the buffer goes to another block, `bread` gives the bytes on the disk.
abbrev pub settle : (ℕ → Bool) → Blocks → ℕ → Blocks → Blocks → Blocks
settle kept on_disk n e f = if kept n then f else (λ m j. if n == m then on_disk m j else e m j)

-- `copyin src len` is `either_copyin`: the bytes that it copied and whether it returned 0. `kept` says of which
-- blocks the cache keeps the buffer from here on, and `on_disk` has the bytes on the disk.
module _ (sb : Superblock) (datastart : ℕ) (kept : ℕ → Bool) (on_disk : Blocks)
    (copyin : ℕ → ℕ → List ℕ × Bool) where
  -- The loop of `writei`: how many bytes it copied, and the offset behind them.
  unfoldable pub writei_loop : ℕ → ℕ → ℕ → ℕ → ℕ → Node → Blocks → Outcome (ℕ × ℕ × Node × Blocks)
  writei_loop zero n tot src off ip d = returns (tot, off, ip, d)
  writei_loop (suc rounds) n tot src off ip d = elim (ltb tot n) [
    | false ↦ returns (tot, off, ip, d)
    | true ↦ bmap sb datastart ip (off / block_size) d >>= λ found.
        let (addr, jp, e) = found in
        elim (addr == 0) [
          | true ↦ returns (tot, off, jp, e)
          | false ↦
              let len = chunk (n - tot) off in
              let copied = copyin src len in
              let f = settle kept on_disk addr e (store_bytes e addr (off % block_size) copied.0) in
              elim copied.1 [
                | false ↦ returns (tot, off, jp, f)
                | true ↦ writei_loop rounds n (tot + len) (u64 (src + len)) (u32 (off + len)) jp f
              ]
        ]
  ]

  unfoldable pub writei : Node → ℕ → ℕ → ℕ → Blocks → Outcome (Option ℕ × Node × Blocks)
  writei ip src off n d = elim (out_of_range off n ip.copy.size) [
    | true ↦ returns (none, ip, d)
    | false ↦ writei_loop n n 0 src off ip d >>= λ end.
        let jp = grown_to end.2 end.1 in returns (some end.0, jp, iupdate sb jp end.3)
  ]
