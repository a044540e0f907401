-- ===== src/Heap/Release.antt =====
-- `mm_free`.
use zrhos.Base.{
  ℕ, zero, suc, ◌+◌, ◌-◌, ◌/◌, ◌%◌, Option, none, some, List, [], ◌∷◌, ◌++◌, ◌==◌, ltb,
  if◌then◌else◌,
}
use zrhos.Heap.{Heap, pgsize, page_pos, big_bit, log2, index, put, setinfobybp}

-- The loop that looks for the place of `bp`, and the linking. A block that is there already is left.
unfoldable pub insert : ℕ → List ℕ → List ℕ
insert bp [] = bp ∷ []
insert bp (p ∷ ps) =
    let rest = insert bp ps in
    if ltb p bp then p ∷ rest else if ltb bp p then bp ∷ p ∷ ps else p ∷ ps

-- For a page the list is changed at its head by another branch.
unfoldable pub insert_page : ℕ → List ℕ → List ℕ
insert_page bp [] = bp ∷ []
insert_page bp (p ∷ ps) = if ltb p bp then insert bp (p ∷ ps) else bp ∷ p ∷ ps

-- The pages that `adjustpages` links.
unfoldable pub row : ℕ → ℕ → List ℕ
row p zero = []
row p (suc n) = p ∷ row (p + pgsize) n

-- What `adjustpages` sets for `n` pages.
unfoldable pub clear_info : ℕ → ℕ → Heap → Heap
clear_info p zero s = s
clear_info p (suc n) s = clear_info (p + pgsize) n (setinfobybp p 0 s)

-- A row goes in front of the first page that is not before it.
unfoldable pub splice : ℕ → List ℕ → List ℕ → List ℕ
splice bp run [] = run
splice bp run (p ∷ ps) =
    let rest = splice bp run ps in if ltb p bp then p ∷ rest else run ++ (p ∷ ps)

-- A small block. The write at the null pointer, for a block in front of the head, is `none`.
unfoldable pub free_small : ℕ → ℕ → Heap → Option Heap
free_small pos bp s =
    if ltb bp (s.heads pos)
    then none
    else if bp == s.heads pos
    then some s
    else some (record s { blocks = put s.blocks pos (insert bp (s.blocks pos)) })

-- With the word of the page of `bp`. A block that is not used is left, with a message.
unfoldable pub free_as : ℕ → ℕ → Heap → Option Heap
free_as info bp s =
    let pos = log2 (info - info % 2) in
    let pages = info - big_bit in
    if info / big_bit % 2 == 1
    then some (record (clear_info bp pages s) { pages = splice bp (row bp pages) s.pages })
    else if info % 2 == 0
    then some s
    else if ltb pos page_pos
    then free_small pos bp s
    else some (setinfobybp bp 0 (record s { pages = insert_page bp s.pages }))

unfoldable pub mm_free : ℕ → Heap → Option Heap
mm_free bp s = free_as (s.info (index s bp)) bp s
