-- ===== src/Heap/RoundTrip.antt =====
-- `mm_free` undoes `mm_malloc`.
use zrhos.Base.{
  true, ℕ, zero, suc, ◌+◌, ◌-◌, ◌/◌, ◌^◌, ◌≤◌, ◌<◌, ◌≡◌, ◌≢◌, sym, ap, subst, max, false, Option,
  none, some, List, [], ◌∷◌, ◌==◌, ltb, arith, Bool-cases, List-cases, inl, inr, ℕ_discrete,
}
use zrhos.Heap.{
  Heap, pgsize, page_pos, put, log2_loop, log2, setinfobybp, allocpage, getpage, acquireonepage,
  smallfind,
}
use zrhos.Heap.Big.{mm_malloc}
use zrhos.Heap.Undo.{IsHeap, Undone, free_small-first, free_page-first}
use zrhos.Heap.UndoBig.{Grown-Undone, allocpage-Grown, bigfind-Undone}

abbrev take_page : ℕ → Heap → List ℕ → Option (ℕ × Heap)
take_page v s l = elim l [
  | [] ↦ allocpage v s
  | p ∷ ps ↦ some (p, record (setinfobybp p v s) { pages = ps })
]

getpage-Undone : (s : Heap) → IsHeap s → Undone s (getpage (1 + 2 ^ page_pos) s)
unfolding getpage
getpage-Undone s heap = elim (List-cases s.pages) [
  | inl e ↦
      subst (λ l. Undone s (take_page (1 + 2 ^ page_pos) s l)) (sym e)
        (Grown-Undone 1 s _ (omega arith) (allocpage-Grown (1 + 2 ^ page_pos) s))
  | inr (p, ps, e) ↦
      subst (λ l. Undone s (take_page (1 + 2 ^ page_pos) s l)) (sym e)
        (λ same_len. free_page-first p ps s e heap)
]

abbrev take_block : ℕ → Heap → List ℕ → Option (ℕ × Heap)
take_block pos s l = elim l [
  | [] ↦ elim (acquireonepage pos s) [
    | none ↦ none
    | some (p, l, s') ↦ some (p, record s' { blocks = put s'.blocks pos l })
  ]
  | p ∷ ps ↦ some (p, record s { blocks = put s.blocks pos ps })
]

smallfind-Undone :
    (pos : ℕ) (s : Heap)
    → IsHeap s
    → 3 ≤ pos
    → pos < page_pos
    → s.blocks pos ≢ []
    → Undone s (smallfind pos s)
unfolding smallfind
smallfind-Undone pos s heap lo hi some_block = elim (List-cases (s.blocks pos)) [
  | inl e ↦ absurd (some_block e)
  | inr (p, ps, e) ↦
      subst (λ l. Undone s (take_block pos s l)) (sym e)
        (λ same_len. free_small-first pos p ps s lo hi e heap)
]

-- The list that a size is taken from.
abbrev pub pos_of : ℕ → ℕ
pos_of size = max (log2 size) 3

pub next_pos :
    (pos size : ℕ) → size ≤ pgsize → pos ≤ page_pos → ltb (2 ^ pos) size ≡ true → pos + 1 ≤ page_pos
next_pos pos size le lt y = elim (ℕ_discrete pos page_pos) [
  | yes e ↦ absurd (ground (arith, ap (λ k. 2 ^ k) e))
  | no ne ↦ omega (arith, lt, ne)
]

pub log2_loop-page :
    (rounds pos size : ℕ) → size ≤ pgsize → pos ≤ page_pos → log2_loop rounds pos size ≤ page_pos
unfolding log2_loop
log2_loop-page zero pos size le lt = lt
log2_loop-page (suc rounds) pos size le lt = elim (Bool-cases (ltb (2 ^ pos) size)) [
  | inl y ↦ rw y (log2_loop-page rounds (pos + 1) size le (next_pos pos size le lt y))
  | inr n ↦ rw n lt
]

-- After an allocation of up to 16 megabytes that takes no new page, and no first block of an empty list,
-- freeing the block gives back the heap as it was: every list in its order, and every word.
pub mm_malloc-Undone :
    (size : ℕ) (s : Heap)
    → IsHeap s
    → size ≤ 2 ^ 24
    → (pos_of size < page_pos → s.blocks (pos_of size) ≢ [])
    → Undone s (mm_malloc size s)
unfolding mm_malloc
mm_malloc-Undone size s heap le some_block =
    let fits : ltb (2 ^ 24) size ≡ false = ground arith in
    elim (Bool-cases (ltb (pos_of size) page_pos)) [
      | inl y ↦
          let lt : pos_of size < page_pos = ground arith in
          rw (fits, y) (smallfind-Undone (pos_of size) s heap (omega arith) lt (some_block lt))
      | inr n ↦ elim (Bool-cases (pos_of size == page_pos)) [
        | inl y ↦ rw (fits, n, y) (getpage-Undone s heap)
        | inr m ↦
            let page = log2_loop-page 32 0 size in
            let large : pgsize < size = ground (arith, page) in
            rw (fits, n, m)
              (bigfind-Undone ((size + pgsize - 1) / pgsize) s heap (omega (arith, large))
                (omega (arith, le)))
      ]
    ]
