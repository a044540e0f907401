-- ===== src/Vm.antt =====
-- kernel/vm.c: Sv39 page tables. A table is the address of its page, and holds 512 entries; the
-- pages that `mem_malloc` will give are a list.
pub mod Tree
pub mod Walk
pub mod Map
pub mod Pages
pub mod Range
pub mod Address
pub mod Unmap
pub mod User
pub mod Copy
mod Tests
use zrhos.Base.{
  ◌||◌, ℕ, zero, suc, ◌+◌, ◌-◌, ◌*◌, ◌/◌, ◌%◌, ◌^◌, Bool, true, false, not, ◌&&◌, Option, none,
  some, List, [], ◌∷◌, ◌==◌, leb, if◌then◌else◌, u64,
}

abbrev pub pgsize : ℕ
pgsize = 4096

-- `MAXVA`
abbrev pub max_va : ℕ
max_va = 2 ^ 38

-- `PGROUNDDOWN`
abbrev pub pg_round_down : ℕ → ℕ
pg_round_down a = a / pgsize * pgsize

-- `PX`
abbrev pub px : ℕ → ℕ → ℕ
px zero va = va / 2 ^ 12 % 512
px (suc zero) va = va / 2 ^ 21 % 512
px (suc (suc level)) va = va / 2 ^ 30 % 512

-- `PA2PTE`, `PTE2PA` and `PTE_FLAGS`
abbrev pub pa2pte : ℕ → ℕ
pa2pte pa = pa / 2 ^ 12 * 2 ^ 10

abbrev pub pte2pa : ℕ → ℕ
pte2pa pte = u64 (pte / 2 ^ 10 * 2 ^ 12)

abbrev pub pte_flags : ℕ → ℕ
pte_flags pte = pte % 1024

-- `pte & PTE_V` and `pte & PTE_U`
abbrev pub is_valid : ℕ → Bool
is_valid pte = pte % 2 == 1

abbrev pub is_user : ℕ → Bool
is_user pte = pte / 16 % 2 == 1

-- `PA2PTE(pa) | perm | PTE_V`, for `perm` of 10 bits.
abbrev pub make_pte : ℕ → ℕ → ℕ
make_pte pa perm = pa2pte pa + (perm / 2 * 2 + 1)

abbrev pub Tables : Type 0
Tables = ℕ → ℕ → ℕ

pub record Ram : Type 0 where
  pub tables : Tables
  pub free : List ℕ

abbrev pub set_pte : Tables → ℕ → ℕ → ℕ → Tables
set_pte m t i v u j = if (t == u) && (i == j) then v else m u j

-- `memset(page, 0, PGSIZE)`
abbrev pub clear : Tables → ℕ → Tables
clear m p u j = if p == u then 0 else m u j

-- One round of the loop of `walk`, at entry `i` of table `t`. `none` is the null pointer without `alloc`.
-- With it `mem_malloc` is not null: without a free page `none` is the panic of `mem_sbrk`.
unfoldable pub descend : Bool → ℕ → ℕ → Ram → Option ℕ × Ram
descend alloc t i s =
    if is_valid (s.tables t i)
    then (some (pte2pa (s.tables t i)), s)
    else if not alloc
    then (none, s)
    else elim s.free [
      | [] ↦ (none, s)
      | p ∷ ps ↦
          (some p, record s { tables = set_pte (clear s.tables p) t i (pa2pte p + 1); free = ps })
    ]

-- The loop with `level` rounds to go, at table `t`. The answer is a pointer to an entry.
unfoldable pub walk_loop : Bool → ℕ → ℕ → ℕ → Ram → Option (ℕ × ℕ) × Ram
walk_loop alloc va zero t s = (some (t, px 0 va), s)
walk_loop alloc va (suc level) t s =
    let (next, s') = descend alloc t (px (suc level) va) s in
    elim next [ none ↦ (none, s') | some u ↦ walk_loop alloc va level u s' ]

unfoldable pub walk : ℕ → ℕ → Bool → Ram → Option (ℕ × ℕ) × Ram
walk root va alloc s = walk_loop alloc va 2 root s

-- How `vm_map` ends: with 0, by the panic of `mem_sbrk` in `walk`, by its own, or not within the rounds.
-- It has no -1, since no `walk` with `alloc` returns the null pointer.
pub data Mapped : Type 0 where
  mapped : Ram → Mapped
  no_space : Mapped
  panics : Mapped
  runs_on : Mapped

unfoldable pub map_loop : ℕ → ℕ → ℕ → ℕ → ℕ → ℕ → Bool → Ram → Mapped
map_loop zero root last va pa perm remap s = runs_on
map_loop (suc rounds) root last va pa perm remap s =
    let (slot, s') = walk root va true s in
    elim slot [
      | none ↦ no_space
      | some (t, i) ↦ elim (is_valid (s'.tables t i) && not remap) [
        | true ↦ panics
        | false ↦
            let s'' : Ram = record s' { tables = set_pte s'.tables t i (make_pte pa perm) } in
            elim (va == last) [
              | true ↦ mapped s''
              | false ↦
                  map_loop rounds root last (u64 (va + pgsize)) (u64 (pa + pgsize)) perm remap s''
            ]
      ]
    ]

-- `sz` is not 0. An aligned range takes one round for each page.
unfoldable pub vm_map : ℕ → ℕ → ℕ → ℕ → ℕ → Bool → Ram → Mapped
vm_map root va pa sz perm remap s =
    map_loop (sz / pgsize + 1) root (pg_round_down (u64 (va + sz + 2 ^ 64 - 1))) va pa perm remap s

-- `perm | PTE_U`
abbrev pub with_user : ℕ → ℕ
with_user perm = if perm / 16 % 2 == 1 then perm else perm + 16

unfoldable pub uvm_map : ℕ → ℕ → ℕ → ℕ → ℕ → Bool → Ram → Mapped
uvm_map root va pa sz perm remap s = vm_map root va pa sz (with_user perm) remap s

-- `none` is the null pointer, or no user page: the address 0.
unfoldable pub walkaddr : ℕ → ℕ → Ram → ℕ
walkaddr root va s = if leb max_va va then 0 else elim (walk root va false s).0 [
  | none ↦ 0
  | some (t, i) ↦
      let pte = s.tables t i in
      if not (is_valid pte) then 0 else if not (is_user pte) then 0 else pte2pa pte + va % 4096
]

-- The loop of `vm_unmap` with `rounds` pages to go: the pages that it gives to `mem_free`. `none` is a
-- panic.
unfoldable pub unmap_loop : ℕ → ℕ → ℕ → Bool → Ram → Option (List ℕ × Ram)
unmap_loop zero root a do_free s = some ([], s)
unmap_loop (suc rounds) root a do_free s = elim (walk root a false s).0 [
  | none ↦ none
  | some (t, i) ↦
      let pte = s.tables t i in
      elim (not (is_valid pte) || pte_flags pte == 1) [
        | true ↦ none
        | false ↦
            elim (unmap_loop rounds root (u64 (a + pgsize)) do_free
              (record s { tables = set_pte s.tables t i 0 })) [
                | none ↦ none
                | some (freed, s') ↦ some (if do_free then pte2pa pte ∷ freed else freed, s')
              ]
      ]
]

unfoldable pub vm_unmap : ℕ → ℕ → ℕ → Bool → Ram → Option (List ℕ × Ram)
vm_unmap root va npages do_free s =
    if not (va % pgsize == 0) then none else unmap_loop npages root va do_free s
