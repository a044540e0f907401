-- ===== src/Heap/Undo.antt =====
-- `mm_free` undoes the taking of a small block and of a page.
use zrhos.Base.{
  ℕ, ◌+◌, ◌-◌, ◌/◌, ◌%◌, ◌^◌, ◌≤◌, ◌<◌, ◌≡◌, refl, sym, ap, ap₂, ◌∙◌, subst, fun_ext, true, false,
  Option, none, some, List, ◌∷◌, ◌==◌, ltb, All, arith, Bool-cases, inl, inr, ℕ_discrete,
}
use zrhos.Heap.{Heap, page_pos, big_bit, put, log2_loop, log2, index, setinfobybp}
use zrhos.Heap.Release.{insert, insert_page, row, clear_info, splice, free_small, free_as, mm_free}
use zrhos.Heap.Order.{Ascending, insert-first, insert_page-first}

-- The lists of free pages and blocks are ascending, and what is known of their pages fits.
pub record IsHeap (s : Heap) : Type 0 where
  pub pages_ascend : Ascending s.pages
  pub pages_free : All (λ p. s.info (index s p) ≡ 0) s.pages
  pub blocks_ascend : (pos : ℕ) → 3 ≤ pos → pos < page_pos → Ascending (s.heads pos ∷ s.blocks pos)
  pub blocks_info :
      (pos : ℕ)
      → 3 ≤ pos
      → pos < page_pos
      → All (λ b. s.info (index s b) ≡ 1 + 2 ^ pos) (s.blocks pos)

-- Freeing what was allocated gives the heap before, if the heap has no more pages than before.
abbrev pub Undone : Heap → Option (ℕ × Heap) → Type 0
Undone s none = Unit
Undone s (some (p, s')) = s'.len ≡ s.len → mm_free p s' ≡ some s

-- A power from 3 to 12.
pub pos_cases :
    (P : ℕ → Type 0)
    → P 3
    → P 4
    → P 5
    → P 6
    → P 7
    → P 8
    → P 9
    → P 10
    → P 11
    → P 12
    → (pos : ℕ) → 3 ≤ pos
    → pos ≤ 12
    → P pos
pos_cases P p3 p4 p5 p6 p7 p8 p9 p10 p11 p12 pos lo hi = elim (ℕ_discrete pos 3) [
  | yes e ↦ subst P (sym e) p3
  | no n3 ↦ elim (ℕ_discrete pos 4) [
    | yes e ↦ subst P (sym e) p4
    | no n4 ↦ elim (ℕ_discrete pos 5) [
      | yes e ↦ subst P (sym e) p5
      | no n5 ↦ elim (ℕ_discrete pos 6) [
        | yes e ↦ subst P (sym e) p6
        | no n6 ↦ elim (ℕ_discrete pos 7) [
          | yes e ↦ subst P (sym e) p7
          | no n7 ↦ elim (ℕ_discrete pos 8) [
            | yes e ↦ subst P (sym e) p8
            | no n8 ↦ elim (ℕ_discrete pos 9) [
              | yes e ↦ subst P (sym e) p9
              | no n9 ↦ elim (ℕ_discrete pos 10) [
                | yes e ↦ subst P (sym e) p10
                | no n10 ↦ elim (ℕ_discrete pos 11) [
                  | yes e ↦ subst P (sym e) p11
                  | no n11 ↦ subst P (omega arith) p12
                ]
              ]
            ]
          ]
        ]
      ]
    ]
  ]
]

put-undo {ℓ} : {A : Type ℓ} (f : ℕ → A) (i : ℕ) (v w : A) → f i ≡ w → put (put f i v) i w ≡ f
put-undo f i v w e = fun_ext (λ j. elim (Bool-cases (i == j)) [
  | inl y ↦ rw y (sym (subst (λ k. f k ≡ w) (ground arith) e))
  | inr n ↦ rw n refl
])

-- What `mm_free` reads from the word of a small block or a page.
abbrev Reads : ℕ → Type 0
Reads pos =
    ((1 + 2 ^ pos) / big_bit % 2 == 1 ≡ false)
    × ((1 + 2 ^ pos) % 2 == 0 ≡ false)
    × (log2 (1 + 2 ^ pos - (1 + 2 ^ pos) % 2) ≡ pos)

pub pos-Reads : (pos : ℕ) → 3 ≤ pos → pos ≤ 12 → Reads pos
unfolding log2_loop
pos-Reads =
    pos_cases Reads (refl, refl, refl) (refl, refl, refl) (refl, refl, refl) (refl, refl, refl)
      (refl, refl, refl) (refl, refl, refl) (refl, refl, refl) (refl, refl, refl) (refl, refl, refl)
      (refl, refl, refl)

pub free_as-small :
    (v bp pos : ℕ) (s : Heap)
    → (v / big_bit % 2 == 1) ≡ false
    → (v % 2 == 0) ≡ false
    → log2 (v - v % 2) ≡ pos
    → pos < page_pos
    → free_as v bp s ≡ free_small pos bp s
unfolding free_as
free_as-small v bp pos s a b c lt =
    let small : ltb (log2 (v - v % 2)) page_pos ≡ true = ground arith in
    rw (a, b, small) (ap (λ k. free_small k bp s) c)

pub free_as-page :
    (v bp : ℕ) (s : Heap)
    → (v / big_bit % 2 == 1) ≡ false
    → (v % 2 == 0) ≡ false
    → log2 (v - v % 2) ≡ page_pos
    → free_as v bp s ≡ some (setinfobybp bp 0 (record s { pages = insert_page bp s.pages }))
unfolding free_as
free_as-page v bp s a b c =
    let page : ltb (log2 (v - v % 2)) page_pos ≡ false = ground arith in rw (a, b, page) refl

pub free_as-big :
    (n bp : ℕ) (s : Heap)
    → n < 2 ^ 31
    → free_as (big_bit + n) bp s
      ≡ some (record (clear_info bp n s) { pages = splice bp (row bp n) s.pages })
unfolding free_as
free_as-big n bp s lt =
    let big : ((big_bit + n) / big_bit % 2 == 1) ≡ true = ground arith in
    let is : big_bit + n - big_bit ≡ n = omega arith in
    rw big (ap (λ k. some (record (clear_info bp k s) { pages = splice bp (row bp k) s.pages })) is)

-- A small block, or a page, that was at the front of its list.
pub free_small-linked :
    (pos bp : ℕ) (s : Heap)
    → s.heads pos < bp
    → free_small pos bp s ≡ some (record s { blocks = put s.blocks pos (insert bp (s.blocks pos)) })
unfolding free_small
free_small-linked pos bp s lt =
    let a : ltb bp (s.heads pos) ≡ false = ground arith in
    let b : (bp == s.heads pos) ≡ false = ground arith in rw (a, b) refl

pub free_small-first :
    (pos p : ℕ) (ps : List ℕ) (s : Heap)
    → 3 ≤ pos
    → pos < page_pos
    → s.blocks pos ≡ p ∷ ps
    → IsHeap s
    → mm_free p (record s { blocks = put s.blocks pos ps }) ≡ some s
unfolding mm_free
free_small-first pos p ps s lo hi e heap =
    let ascends = subst (λ l. Ascending (s.heads pos ∷ l)) e (heap.blocks_ascend pos lo hi) in
    let known =
      (subst (All (λ b. s.info (index s b) ≡ 1 + 2 ^ pos)) e (heap.blocks_info pos lo hi)).0 in
    let (not_big, used, power) = pos-Reads pos lo (omega (arith, hi)) in
    let after_head : s.heads pos < p = ascends.0.0 in
    let back : put (put s.blocks pos ps) pos (p ∷ ps) ≡ s.blocks =
      put-undo s.blocks pos ps (p ∷ ps) e in
    let here : put s.blocks pos ps pos ≡ ps = ground arith in
    let linked : insert p (put s.blocks pos ps pos) ≡ p ∷ ps =
      ap (insert p) here ∙ insert-first p ps ascends.1.0 in
    ap (λ v. free_as v p (record s { blocks = put s.blocks pos ps })) known
    ∙ free_as-small (1 + 2 ^ pos) p pos (record s { blocks = put s.blocks pos ps }) not_big used
        power hi
    ∙ free_small-linked pos p (record s { blocks = put s.blocks pos ps }) after_head
    ∙ ap (λ l. some (record s { blocks = put (put s.blocks pos ps) pos l })) linked
    ∙ ap (λ f. some (record s { blocks = f })) back

pub free_page-first :
    (p : ℕ) (ps : List ℕ) (s : Heap)
    → s.pages ≡ p ∷ ps
    → IsHeap s
    → mm_free p (record (setinfobybp p (1 + 2 ^ page_pos) s) { pages = ps }) ≡ some s
unfolding mm_free
free_page-first p ps s e heap =
    let ascends = subst Ascending e heap.pages_ascend in
    let known = (subst (All (λ p. s.info (index s p) ≡ 0)) e heap.pages_free).0 in
    let back : put (put s.info (index s p) (1 + 2 ^ page_pos)) (index s p) 0 ≡ s.info =
      put-undo s.info (index s p) (1 + 2 ^ page_pos) 0 known in
    let here : put s.info (index s p) (1 + 2 ^ page_pos) (index s p) ≡ 1 + 2 ^ page_pos =
      ground arith in
    let s' : Heap = record (setinfobybp p (1 + 2 ^ page_pos) s) { pages = ps } in
    let (not_big, used, power) = pos-Reads 12 (omega arith) (omega arith) in
    ap (λ v. free_as v p s') here
    ∙ free_as-page (1 + 2 ^ page_pos) p s' not_big used power
    ∙ ap₂ (λ f l. some (record s { info = f; pages = l })) back
        (insert_page-first p ps ascends.0 ∙ sym e)
