-- ===== src/Heap/UndoBig.antt =====
-- `mm_free` undoes `bigfind`.
use zrhos.Base.{
  ℕ, zero, suc, ◌+◌, ◌-◌, ◌*◌, ◌^◌, ◌<◌, ◌≡◌, refl, sym, ap, ap₂, ◌∙◌, subst, fun_ext, Bool, true,
  false, Option, none, some, List, [], ◌∷◌, ◌++◌, reverse, ◌==◌, ltb, if◌then◌else◌, All, arith,
  Bool-cases, List-cases, inl, inr, ◌⊎◌,
}
use zrhos.Heap.{Heap, pgsize, big_bit, put, mem_sbrk, index, setinfobybp, istop, allocpage}
use zrhos.Heap.Big.{
  Search, found, ended, search, alloc_more, alloc_row, take_run, find_row, mark_big, bigfind,
}
use zrhos.Heap.Release.{row, clear_info, free_as, mm_free}
use zrhos.Heap.Order.{
  Ascending, splice-append, IsFound, search-IsFound, row_one, All-append, Ascending-middle,
}
use zrhos.Heap.Undo.{IsHeap, Undone, free_as-big}

-- How many pages a call takes from the end of the heap.
abbrev pub Grown : ℕ → Heap → Option (ℕ × Heap) → Type 0
Grown n s none = Unit
Grown n s (some (p, s')) = s'.len ≡ s.len + n

abbrev register : ℕ → Option (ℕ × Heap) → Option (ℕ × Heap)
register v r = elim r [
  | none ↦ none
  | some (p, s') ↦ some (p, record s' { info = put s'.info s'.len v; len = s'.len + 1 })
]

pub allocpage-Grown : (v : ℕ) (s : Heap) → Grown 1 s (allocpage v s)
unfolding allocpage mem_sbrk
allocpage-Grown v s = either (ltb s.limit (4096 + s.top))
  where
    either :
        (b : Bool)
        → Grown 1 s (register v (if b then none else some (s.top, record s { top = s.top + 4096 })))
    either true = tt
    either false = refl

abbrev GrownHeap : ℕ → Heap → Option Heap → Type 0
GrownHeap n s none = Unit
GrownHeap n s (some s') = s'.len ≡ s.len + n

GrownHeap-add :
    (n : ℕ) (s s' : Heap) (o : Option Heap)
    → s'.len ≡ s.len + 1
    → GrownHeap n s' o
    → GrownHeap (suc n) s o
GrownHeap-add n s s' none e h = tt
GrownHeap-add n s s' (some t) e h = omega (arith, e, h)

abbrev then_more : ℕ → Option (ℕ × Heap) → Option Heap
then_more n r = elim r [ none ↦ none | some (p, s') ↦ alloc_more n s' ]

then_more-Grown :
    (n : ℕ) (s : Heap) (r : Option (ℕ × Heap))
    → Grown 1 s r
    → ((s' : Heap) → GrownHeap n s' (alloc_more n s'))
    → GrownHeap (suc n) s (then_more n r)
then_more-Grown n s none g h = tt
then_more-Grown n s (some (p, s')) g h = GrownHeap-add n s s' (alloc_more n s') g (h s')

alloc_more-Grown : (n : ℕ) (s : Heap) → GrownHeap n s (alloc_more n s)
unfolding alloc_more
alloc_more-Grown zero s = omega arith
alloc_more-Grown (suc n) s =
    then_more-Grown n s (allocpage (big_bit + 1) s) (allocpage-Grown (big_bit + 1) s)
      (alloc_more-Grown n)

-- A row of pages is cleared: where the words are not those of `f`, they are those of pages of the row.
clear_info-undo :
    (n p : ℕ) (s : Heap) (f : ℕ → ℕ)
    → All (λ q. f (index s q) ≡ 0) (row p n)
    → ((j : ℕ) → (s.info j ≡ f j) ⊎ ((k : ℕ) × (k < n) × (index s (p + k * pgsize) ≡ j)))
    → clear_info p n s ≡ record s { info = f }
unfolding clear_info row
clear_info-undo zero p s f zeros h =
    ap (λ g. record s { info = g })
      (fun_ext (λ j. elim (h j) [ inl e ↦ e | inr (k, lt, e) ↦ absurd (omega (arith, lt)) ]))
clear_info-undo (suc n) p s f (z, zeros) h =
    clear_info-undo n (p + pgsize) (setinfobybp p 0 s) f zeros (λ j.
      elim (Bool-cases (index s p == j)) [
        | inl y ↦ inl (rw y (sym z ∙ ap f (ground arith)))
        | inr m ↦ elim (h j) [
          | inl e ↦ inl (rw m e)
          | inr (zero, lt, e) ↦ absurd (ground (arith, e))
          | inr (suc k, lt, e) ↦ inr (k, omega (arith, lt), ap (index s) (omega arith) ∙ e)
        ]
      ])

row-head : (p n : ℕ) → 0 < n → row p n ≡ p ∷ row (p + pgsize) (n - 1)
unfolding row
row-head p zero lt = absurd (omega arith)
row-head p (suc n) lt = ap (λ k. p ∷ row (p + pgsize) k) (omega arith)

-- The row that a search found.
found-Undone :
    (n ret : ℕ) (before after : List ℕ) (s : Heap)
    → IsHeap s
    → 0 < n
    → n < 2 ^ 31
    → s.pages ≡ reverse before ++ (row ret n ++ after)
    → Undone s (mark_big n (take_run n (found before ret after) s))
unfolding take_run mm_free
found-Undone n ret before after s heap pos lt e same_len =
    let s' : Heap = setinfobybp ret (big_bit + n) (record s { pages = reverse before ++ after }) in
    let behind : List ℕ = row (ret + pgsize) (n - 1) in
    let split : s.pages ≡ reverse before ++ (ret ∷ (behind ++ after)) =
      e ∙ ap (λ r. reverse before ++ (r ++ after)) (row-head ret n pos) in
    let (lo, hi) =
      Ascending-middle (reverse before) ret (behind ++ after)
        (subst Ascending split heap.pages_ascend) in
    let zeros =
      (All-append (λ p. s.info (index s p) ≡ 0) (row ret n) after
        (All-append (λ p. s.info (index s p) ≡ 0) (reverse before) (row ret n ++ after)
          (subst (All (λ p. s.info (index s p) ≡ 0)) e heap.pages_free)).1).0 in
    let here : s'.info (index s' ret) ≡ big_bit + n = ground arith in
    let cleared = clear_info-undo n ret s' s.info zeros (λ j. elim (Bool-cases (index s ret == j)) [
      | inl y ↦ inr (0, omega arith, ground arith)
      | inr m ↦ inl (rw m refl)
    ]) in
    let linked =
      splice-append ret (row ret n) (reverse before) after lo
        (All-append (λ z. ret < z) behind after hi).1 in
    let build : Heap → List ℕ → Option Heap = λ t l. some (record t { pages = l }) in
    ap (λ v. free_as v ret s') here ∙ free_as-big n ret s' lt ∙ ap₂ build cleared (linked ∙ sym e)

-- A result with more pages.
pub Grown-Undone : (n : ℕ) (s : Heap) (r : Option (ℕ × Heap)) → 0 < n → Grown n s r → Undone s r
Grown-Undone n s none pos g = tt
Grown-Undone n s (some (p, s')) pos g = λ same_len. absurd (omega (arith, g, same_len))

mark_big-Grown :
    (k n : ℕ) (s : Heap) (r : Option (ℕ × Heap)) → Grown k s r → Grown k s (mark_big n r)
mark_big-Grown k n s none g = tt
mark_big-Grown k n s (some (p, s')) g = g

abbrev with_row : ℕ → ℕ → Option (ℕ × Heap) → Option (ℕ × Heap)
with_row n k r = elim r [
  | none ↦ none
  | some (p, s') ↦ elim (alloc_more k s') [ none ↦ none | some s'' ↦ some (p, s'') ]
]

alloc_row-Grown : (n k : ℕ) (s : Heap) → Grown (suc k) s (alloc_row n k s)
alloc_row-Grown n k s = go (allocpage (big_bit + n) s) (allocpage-Grown (big_bit + n) s)
  where
    more :
        (p : ℕ) (s' : Heap) (o : Option Heap)
        → s'.len ≡ s.len + 1
        → GrownHeap k s' o
        → Grown (suc k) s (elim o [ none ↦ none | some s'' ↦ some (p, s'') ])
    more p s' none e g = tt
    more p s' (some t) e g = omega (arith, e, g)

    go : (r : Option (ℕ × Heap)) → Grown 1 s r → Grown (suc k) s (with_row n k r)
    go none g = tt
    go (some (p, s')) g = more p s' (alloc_more k s') g (alloc_more-Grown k s')

-- The two ends of a search that found no row take new pages.
at_top-Grown :
    (k ret : ℕ) (l : List ℕ) (s : Heap) (o : Option Heap)
    → GrownHeap k s o
    → Grown k s (elim o [ none ↦ none | some s' ↦ some (ret, record s' { pages = l }) ])
at_top-Grown k ret l s none g = tt
at_top-Grown k ret l s (some s') g = g

cut-Grown :
    (k : ℕ) (before : List ℕ) (s : Heap) (r : Option (ℕ × Heap))
    → Grown k s r
    → Grown k s (elim r [
      | none ↦ none
      | some (p, s') ↦ elim before [
        | [] ↦ some (p, s')
        | q ∷ qs ↦ some (p, record s' { pages = reverse (q ∷ qs) })
      ]
    ])
cut-Grown k before s none g = tt
cut-Grown k [] s (some (p, s')) g = g
cut-Grown k (q ∷ qs) s (some (p, s')) g = g

ended-Undone :
    (n ret count lp : ℕ) (before : List ℕ) (s : Heap)
    → count < n
    → Undone s (mark_big n (take_run n (ended before ret count lp) s))
unfolding take_run
ended-Undone n ret count lp before s lt = elim (Bool-cases (istop lp s)) [
  | inl y ↦ rw y (
      Grown-Undone (n - count) s _ (omega (arith, lt)) (
        mark_big-Grown (n - count) n s _ (
          at_top-Grown (n - count) ret (reverse before) s (alloc_more (n - count) s)
            (alloc_more-Grown (n - count) s))))
  | inr m ↦ rw m (
      Grown-Undone (suc n) s _ (omega arith) (
        mark_big-Grown (suc n) n s _
          (cut-Grown (suc n) before s (alloc_row n n s) (alloc_row-Grown n n s))))
]

search-Undone :
    (n : ℕ) (r : Search) (s : Heap)
    → IsHeap s
    → 0 < n
    → n < 2 ^ 31
    → IsFound n s.pages r
    → Undone s (mark_big n (take_run n r s))
search-Undone n (found before ret after) s heap pos lt e =
    found-Undone n ret before after s heap pos lt e
search-Undone n (ended before ret count lp) s heap pos lt (e, at, few) =
    ended-Undone n ret count lp before s few

pub bigfind-Undone : (n : ℕ) (s : Heap) → IsHeap s → 1 < n → n < 2 ^ 31 → Undone s (bigfind n s)
unfolding bigfind
bigfind-Undone n s heap two lt = elim (List-cases s.pages) [
  | inl e ↦
      subst (λ l. Undone s (mark_big n (find_row n s l))) (sym e)
        (Grown-Undone (suc (n - 1)) s _ (omega arith)
          (mark_big-Grown (suc (n - 1)) n s _ (alloc_row-Grown n (n - 1) s)))
  | inr (p, rest, e) ↦
      subst (λ l. Undone s (mark_big n (find_row n s l))) (sym e)
        (search-Undone n (search n 1 [] p p (p ∷ []) rest) s heap (omega (arith, two)) lt (
          search-IsFound n 1 [] p p (p ∷ []) rest s.pages (row_one p) (omega arith) (omega arith)
            two (e ∙ ap (λ r. r ++ rest) (row_one p))))
]
