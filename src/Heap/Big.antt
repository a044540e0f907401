-- ===== src/Heap/Big.antt =====
-- `bigfind` and `mm_malloc`.
use zrhos.Base.{
  ℕ, zero, suc, ◌+◌, ◌-◌, ◌/◌, ◌^◌, max, Option, none, some, List, [], ◌∷◌, ◌++◌, reverse, ◌==◌,
  ltb, if◌then◌else◌,
}
use zrhos.Heap.{
  Heap, pgsize, page_pos, big_bit, log2, setinfobybp, istop, allocpage, getpage, smallfind,
}

-- How the search for `pages` pages in a row ends: at the last of them, with the pages before the
-- first one, nearest first, and those behind the last one; or at the end of the list, with a row of
-- `count` pages there that begins with `ret` and ends with `lp`.
pub data Search : Type 0 where
  found : (before : List ℕ) (ret : ℕ) (after : List ℕ) → Search
  ended : (before : List ℕ) (ret count lp : ℕ) → Search

-- The loop of `bigfind`. The row so far is `run`, the last page first; `pret` is the first of
-- `before`.
unfoldable pub search : ℕ → ℕ → List ℕ → ℕ → ℕ → List ℕ → List ℕ → Search
search need count before ret lp run [] = ended before ret count lp
search need count before ret lp run (p ∷ rest) =
    let longer = search need (count + 1) before ret p (p ∷ run) rest in
    let anew = search need 1 (run ++ before) p p (p ∷ []) rest in
    if lp + pgsize == p then (if need == count + 1 then found before ret rest else longer) else anew

-- `n` calls of `allocpage`.
unfoldable pub alloc_more : ℕ → Heap → Option Heap
alloc_more zero s = some s
alloc_more (suc n) s = elim (allocpage (big_bit + 1) s) [
  | none ↦ none
  | some (p, s') ↦ alloc_more n s'
]

-- A page with others behind it.
abbrev pub alloc_row : ℕ → ℕ → Heap → Option (ℕ × Heap)
alloc_row pages others s = elim (allocpage (big_bit + pages) s) [
  | none ↦ none
  | some (p, s') ↦ elim (alloc_more others s') [ none ↦ none | some s'' ↦ some (p, s'') ]
]

-- What follows the search.
unfoldable pub take_run : ℕ → Search → Heap → Option (ℕ × Heap)
take_run pages (found before ret after) s = some (ret, record s { pages = reverse before ++ after })
take_run pages (ended before ret count lp) s =
    if istop lp s
    then elim (alloc_more (pages - count) s) [
      | none ↦ none
      | some s' ↦ some (ret, record s' { pages = reverse before })
    ]
    else elim (alloc_row pages pages s) [
      | none ↦ none
      | some (p, s') ↦ elim before [
        | [] ↦ some (p, s')
        | q ∷ qs ↦ some (p, record s' { pages = reverse (q ∷ qs) })
      ]
    ]

abbrev pub find_row : ℕ → Heap → List ℕ → Option (ℕ × Heap)
find_row pages s [] = alloc_row pages (pages - 1) s
find_row pages s (p ∷ rest) = take_run pages (search pages 1 [] p p (p ∷ []) rest) s

abbrev pub mark_big : ℕ → Option (ℕ × Heap) → Option (ℕ × Heap)
mark_big pages none = none
mark_big pages (some (ret, s)) = some (ret, setinfobybp ret (big_bit + pages) s)

-- The first page of `pages` pages, for `pages` of 2 to 2 ^ 31.
unfoldable pub bigfind : ℕ → Heap → Option (ℕ × Heap)
bigfind pages s = mark_big pages (find_row pages s s.pages)

-- The address 0 is the null pointer.
unfoldable pub mm_malloc : ℕ → Heap → Option (ℕ × Heap)
mm_malloc size s =
    let pos = max (log2 size) 3 in
    if ltb (2 ^ 24) size
    then some (0, s)
    else if ltb pos page_pos
    then smallfind pos s
    else if pos == page_pos
    then getpage (1 + 2 ^ page_pos) s
    else bigfind ((size + pgsize - 1) / pgsize) s
