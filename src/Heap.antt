-- ===== src/Heap.antt =====
-- kernel/mem.c: the allocator of the kernel. A list of free blocks is linked through the blocks; here it
-- is the list of their addresses.
use zrhos.Base.{
  ℕ, zero, suc, ◌+◌, ◌-◌, ◌*◌, ◌/◌, ◌%◌, ◌^◌, max, Bool, true, false, not, Option, none, some, List,
  [], ◌∷◌, ◌++◌, reverse, ◌==◌, ltb, leb, if◌then◌else◌,
}
pub mod Big
pub mod Release
pub mod Undo
pub mod UndoBig
pub mod Arena
pub mod Change
pub mod FirstBlock
pub mod FreshPage
pub mod Safety
pub mod SafeFree
pub mod RoundTrip
pub mod Order
mod Tests

abbrev pub pgsize : ℕ
pgsize = 4096

-- `PAGEPOS`
abbrev pub page_pos : ℕ
page_pos = 12

-- `BIGBIT`
abbrev pub big_bit : ℕ
big_bit = 0x80000000

-- The static state: `heap_top`, `heap_end`, the start of the first page and the number of pages, what
-- is known of each page, the heads of the lists of small blocks, the blocks behind a head, and the list of `pagehead`.
pub record Heap : Type 0 where
  pub top : ℕ
  pub limit : ℕ
  pub base : ℕ
  pub len : ℕ
  pub info : ℕ → ℕ
  pub heads : ℕ → ℕ
  pub blocks : ℕ → List ℕ
  pub pages : List ℕ

abbrev pub put {ℓ} : {A : Type ℓ} → (ℕ → A) → ℕ → A → ℕ → A
put f i v j = if i == j then v else f j

-- `none` is the panic.
unfoldable pub mem_sbrk : ℕ → Heap → Option (ℕ × Heap)
mem_sbrk size s =
    if ltb s.limit (size + s.top) then none else some (s.top, record s { top = s.top + size })

-- `_log2`, for sizes to 2 ^ 32.
unfoldable pub log2_loop : ℕ → ℕ → ℕ → ℕ
log2_loop zero pos size = pos
log2_loop (suc rounds) pos size =
    let rest = log2_loop rounds (pos + 1) size in if ltb (2 ^ pos) size then rest else pos

abbrev pub log2 : ℕ → ℕ
log2 size = log2_loop 32 0 size

abbrev pub index : Heap → ℕ → ℕ
index s bp = (bp - s.base) / pgsize

abbrev pub setinfobybp : ℕ → ℕ → Heap → Heap
setinfobybp bp v s = record s { info = put s.info (index s bp) v }

abbrev pub istop : ℕ → Heap → Bool
istop bp s = index s bp == s.len - 1

unfoldable pub allocpage : ℕ → Heap → Option (ℕ × Heap)
allocpage v s = elim (mem_sbrk pgsize s) [
  | none ↦ none
  | some (p, s') ↦ some (p, record s' { info = put s'.info s'.len v; len = s'.len + 1 })
]

unfoldable pub getpage : ℕ → Heap → Option (ℕ × Heap)
getpage v s = elim s.pages [
  | [] ↦ allocpage v s
  | p ∷ ps ↦ some (p, record (setinfobybp p v s) { pages = ps })
]

-- The blocks that the loop of `acquireonepage` links: `n` from `p` on.
unfoldable pub chain : ℕ → ℕ → ℕ → List ℕ
chain p pos zero = []
chain p pos (suc n) = p ∷ chain (p + 2 ^ pos) pos n

-- For `pos` of 3 to 11, the page with the blocks behind its first one.
unfoldable pub acquireonepage : ℕ → Heap → Option (ℕ × List ℕ × Heap)
acquireonepage pos s = elim (getpage (1 + 2 ^ pos) s) [
  | none ↦ none
  | some (p, s') ↦ some (p, chain (p + 2 ^ pos) pos (pgsize / 2 ^ pos - 1), s')
]

-- The loop of `mm_init` over the sizes from `pos` on.
unfoldable pub init_loop : ℕ → ℕ → Heap → Option Heap
init_loop zero pos s = some s
init_loop (suc n) pos s = elim (acquireonepage pos s) [
  | none ↦ none
  | some (p, l, s') ↦
      init_loop n (pos + 1) (record s' { heads = put s'.heads pos p; blocks = put s'.blocks pos l })
]

-- From the end of the kernel and the end of the memory.
unfoldable pub mem_init : ℕ → ℕ → Option Heap
mem_init end_ memstop =
    let start = (end_ + 4095) / 4096 * 4096 in
    let table = ((memstop - start) / pgsize + 4095) / 4096 * 4096 * 16 in
    if ltb memstop (table + start)
    then none
    else init_loop 9 3 (record {
      top = start + table;
      limit = memstop;
      base = start + table;
      len = 0;
      info = λ i. 0;
      heads = λ pos. 0;
      blocks = λ pos. [];
      pages = [];
    })

unfoldable pub smallfind : ℕ → Heap → Option (ℕ × Heap)
smallfind pos s = elim (s.blocks pos) [
  | [] ↦ elim (acquireonepage pos s) [
    | none ↦ none
    | some (p, l, s') ↦ some (p, record s' { blocks = put s'.blocks pos l })
  ]
  | p ∷ ps ↦ some (p, record s { blocks = put s.blocks pos ps })
]
