-- ===== src/Vm/Unmap.antt =====
-- `vm_unmap` takes a range of pages away.
use zrhos.Base.{
  ℕ, zero, suc, ◌+◌, ◌*◌, ◌/◌, ◌%◌, ◌^◌, ◌≤◌, ◌<◌, ◌≡◌, refl, sym, ap, ap₂, ◌∙◌, Bool, true, false,
  not, ◌&&◌, ◌||◌, Option, none, some, List, [], ◌∷◌, ◌==◌, leb, ltb, if◌then◌else◌, arith,
  Bool-cases, Option-cases, inl, inr, subst, u64,
}
use zrhos.Vm.{
  Tables, Ram, px, is_valid, pte_flags, pte2pa, set_pte, walk, pgsize, unmap_loop, vm_unmap,
}
use zrhos.Vm.Tree.{pte_of}
use zrhos.Vm.Walk.{leaf}
use zrhos.Vm.Map.{page-put, put-IsTree, leaf-path}
use zrhos.Vm.Address.{walk_loop-leaf, slot_of, entry-leaf, entry_at}
use zrhos.Vm.Pages.{IsSpace}

-- A page that the loop may take away.
abbrev pub is_page : ℕ → Bool
is_page pte = not (not (is_valid pte) || pte_flags pte == 1)

-- The page of `a` is one of the `n` from `va` on.
abbrev pub among : ℕ → ℕ → ℕ → Bool
among va n a = leb va a && ltb a (va + n * 4096)

-- The physical pages of the `n` pages from `va` on.
abbrev pub pages_of : ℕ → ℕ → ℕ → Tables → List ℕ
pages_of zero root va m = []
pages_of (suc n) root va m = pte2pa (pte_of root va m) ∷ pages_of n root (va + 4096) m

-- What is claimed of a run on `n` pages.
abbrev pub Unmaps : ℕ → ℕ → ℕ → Bool → Tables → Option (List ℕ × Ram) → Type 0
Unmaps root va n do_free m none =
    (k : ℕ) × (k < n) × (is_page (pte_of root (va + k * 4096) m) ≡ false)
Unmaps root va n do_free m (some (freed, s')) =
    IsSpace root s'
    × (freed ≡ (if do_free then pages_of n root va m else []))
    × ((k : ℕ) → k < n → is_page (pte_of root (va + k * 4096) m) ≡ true)
    × ((a : ℕ)
        → a < 2 ^ 39
        → pte_of root a s'.tables ≡ (if among va n a then 0 else pte_of root a m))

-- The walk of a round.
abbrev taken : ℕ → ℕ → ℕ → Bool → Ram → Option (ℕ × ℕ) → Option (List ℕ × Ram)
taken rounds root a do_free s none = none
taken rounds root a do_free s (some (t, i)) =
    elim (not (is_valid (s.tables t i)) || pte_flags (s.tables t i) == 1) [
      | true ↦ none
      | false ↦
          elim (unmap_loop rounds root (u64 (a + pgsize)) do_free
            (record s { tables = set_pte s.tables t i 0 })) [
              | none ↦ none
              | some (freed, s') ↦
                  some (if do_free then pte2pa (s.tables t i) ∷ freed else freed, s')
            ]
    ]

unmap_loop-leaf :
    (rounds root a : ℕ) (do_free : Bool) (s : Ram)
    → unmap_loop (suc rounds) root a do_free s
      ≡ taken rounds root a do_free s (slot_of a (leaf 2 root a s.tables))
unfolding unmap_loop walk
unmap_loop-leaf rounds root a do_free s =
    ap (λ r. taken rounds root a do_free s r.0) (walk_loop-leaf 2 root a s)

-- The tables without the page of `va`.
abbrev Without : ℕ → ℕ → Tables → Tables → Type 0
Without root va m m1 =
    (a : ℕ) → a < 2 ^ 39 → pte_of root a m1 ≡ (if va / 4096 == a / 4096 then 0 else pte_of root a m)

-- Another page than that of `va`.
Without-later :
    (root va v : ℕ) (m m1 : Tables)
    → Without root va m m1
    → va % 4096 ≡ 0
    → va + 4096 ≤ v
    → v < 2 ^ 39
    → pte_of root v m1 ≡ pte_of root v m
Without-later root va v m m1 w al le lt =
    let apart : (va / 4096 == v / 4096) ≡ false = ground arith in w v lt ∙ rw apart refl

pages_of-Without :
    (n root va v : ℕ) (m m1 : Tables)
    → Without root va m m1
    → va % 4096 ≡ 0
    → va + 4096 ≤ v
    → v + n * 4096 ≤ 2 ^ 39
    → pages_of n root v m1 ≡ pages_of n root v m
pages_of-Without zero root va v m m1 w al le top = refl
pages_of-Without (suc n) root va v m m1 w al le top =
    ap₂ (λ p l. pte2pa p ∷ l) (Without-later root va v m m1 w al le (omega arith))
      (pages_of-Without n root va (v + 4096) m m1 w al (omega arith) (omega arith))

among-suc :
    (va n a : ℕ) (x : ℕ)
    → va % 4096 ≡ 0
    → (if among (va + 4096) n a then 0 else if va / 4096 == a / 4096 then 0 else x)
      ≡ (if among va (suc n) a then 0 else x)
among-suc va n a x al = elim (Bool-cases (among va (suc n) a)) [
  | inl y ↦ elim (Bool-cases (va / 4096 == a / 4096)) [
    | inl z ↦ rw (y, z) (ground arith)
    | inr z ↦ let rest : among (va + 4096) n a ≡ true = ground arith in rw (y, rest) refl
  ]
  | inr f ↦
      let rest : among (va + 4096) n a ≡ false = ground arith in
      let first : (va / 4096 == a / 4096) ≡ false = ground arith in rw (f, rest, first) refl
]

freed_pages :
    (do_free : Bool) (p : ℕ) (freed : List ℕ) (root va n : ℕ) (m m1 : Tables)
    → va % 4096 ≡ 0
    → va + suc n * 4096 ≤ 2 ^ 39
    → Without root va m m1
    → p ≡ pte2pa (pte_of root va m)
    → freed ≡ (if do_free then pages_of n root (va + 4096) m1 else [])
    → (if do_free then p ∷ freed else freed) ≡ (if do_free then pages_of (suc n) root va m else [])
freed_pages true p freed root va n m m1 al top w e is =
    ap₂ (λ q l. q ∷ l) e
      (is ∙ pages_of-Without n root va (va + 4096) m m1 w al (omega arith) (omega arith))
freed_pages false p freed root va n m m1 al top w e is = is

-- The page that a round takes away, then the others.
abbrev keep : Bool → ℕ → Option (List ℕ × Ram) → Option (List ℕ × Ram)
keep do_free p none = none
keep do_free p (some (freed, s')) = some (if do_free then p ∷ freed else freed, s')

pages-suc :
    (root va n : ℕ) (m m1 : Tables)
    → va % 4096 ≡ 0
    → va + suc n * 4096 ≤ 2 ^ 39
    → Without root va m m1
    → is_page (pte_of root va m) ≡ true
    → ((k : ℕ) → k < n → is_page (pte_of root (va + 4096 + k * 4096) m1) ≡ true)
    → (k : ℕ) → k < suc n
    → is_page (pte_of root (va + k * 4096) m) ≡ true
pages-suc root va n m m1 al top w here there zero lt =
    ap (λ v. is_page (pte_of root v m)) (omega arith) ∙ here
pages-suc root va n m m1 al top w here there (suc k) lt =
    ap (λ v. is_page (pte_of root v m)) (omega arith)
    ∙ ap is_page
        (sym (Without-later root va (va + 4096 + k * 4096) m m1 w al (omega arith) (grind arith)))
    ∙ there k (omega arith)

Unmaps-suc :
    (root va n p : ℕ) (do_free : Bool) (m m1 : Tables) (r : Option (List ℕ × Ram))
    → va % 4096 ≡ 0
    → va + suc n * 4096 ≤ 2 ^ 39
    → Without root va m m1
    → p ≡ pte2pa (pte_of root va m)
    → is_page (pte_of root va m) ≡ true
    → Unmaps root (va + 4096) n do_free m1 r
    → Unmaps root va (suc n) do_free m (keep do_free p r)
Unmaps-suc root va n p do_free m m1 none al top w e here (k, lt, bad) = (
  k + 1,
  omega arith,
  ap (λ v. is_page (pte_of root v m)) (omega arith)
      ∙ ap is_page
          (sym (Without-later root va (va + 4096 + k * 4096) m m1 w al (omega arith) (grind arith)))
      ∙ bad,
)
Unmaps-suc root va n p do_free m m1 (some (freed, s')) al top w e here (space, is, there, rest) = (
  space,
  freed_pages do_free p freed root va n m m1 al top w e is,
  pages-suc root va n m m1 al top w here there,
  λ a lt.
      rest a lt
      ∙ ap (λ x. if among (va + 4096) n a then 0 else x) (w a lt)
      ∙ among-suc va n a (pte_of root a m) al,
)

-- A write of 0 to the entry of `va`.
put-Without :
    (root va t : ℕ) (s : Ram)
    → (space : IsSpace root s) → leaf 2 root va s.tables ≡ some t
    → va < 2 ^ 39
    → IsSpace root (record s { tables = set_pte s.tables t (px 0 va) 0 })
      × Without root va s.tables (set_pte s.tables t (px 0 va) 0)
put-Without root va t s space l lt =
    let at_t =
      leaf-path space.owner 2 root va t s.tables [] space.tree space.at_root (omega arith) l in
    (
      record {
        owner = space.owner;
        tree =
            put-IsTree space.owner s.tables t (px 0 va) 0 (px 1 va ∷ px 2 va ∷ []) space.tree at_t
              (omega arith);
        fresh = space.fresh;
        at_root = space.at_root;
      },
      λ a lt'. page-put space.owner s.tables root t va a 0 space.tree space.at_root l lt lt',
    )

-- A round at an entry that may be taken away.
abbrev tested : ℕ → ℕ → ℕ → Bool → ℕ → ℕ → Ram → Bool → Option (List ℕ × Ram)
tested rounds root a do_free t i s b = elim b [
  | true ↦ none
  | false ↦ keep do_free (pte2pa (s.tables t i)) (
      unmap_loop rounds root (u64 (a + pgsize)) do_free
        (record s { tables = set_pte s.tables t i 0 }))
]

unmap_loop-zero :
    (root va : ℕ) (do_free : Bool) (s : Ram) → unmap_loop zero root va do_free s ≡ some ([], s)
unfolding unmap_loop
unmap_loop-zero root va do_free s = refl

nothing_freed : (b : Bool) → ◌≡◌ {A = List ℕ} [] (if b then [] else [])
nothing_freed true = refl
nothing_freed false = refl

none_among : (va a x : ℕ) → x ≡ (if among va 0 a then 0 else x)
none_among va a x = ground arith

taken-tested :
    (rounds root a : ℕ) (do_free : Bool) (t i : ℕ) (s : Ram)
    → tested rounds root a do_free t i s
        (not (is_valid (s.tables t i)) || pte_flags (s.tables t i) == 1)
      ≡ taken rounds root a do_free s (some (t, i))
taken-tested rounds root a do_free t i s = ground arith

unmap_loop-Unmaps :
    (rounds root va : ℕ) (do_free : Bool) (s : Ram)
    → IsSpace root s
    → va % 4096 ≡ 0
    → va + rounds * 4096 ≤ 2 ^ 39
    → Unmaps root va rounds do_free s.tables (unmap_loop rounds root va do_free s)
unmap_loop-Unmaps zero root va do_free s space al top =
    subst (Unmaps root va zero do_free s.tables) (sym (unmap_loop-zero root va do_free s)) (
      space,
      nothing_freed do_free,
      λ k lt. absurd (omega (arith, lt)),
      λ a lt. none_among va a (pte_of root a s.tables),
    )
unmap_loop-Unmaps (suc rounds) root va do_free s space al top =
    let Goal : Option (List ℕ × Ram) → Type 0 = Unmaps root va (suc rounds) do_free s.tables in
    let found : Option ℕ → Option (List ℕ × Ram) =
      λ o. taken rounds root va do_free s (slot_of va o) in
    subst Goal (sym (unmap_loop-leaf rounds root va do_free s))
      (elim (Option-cases (leaf 2 root va s.tables)) [
        | inl e ↦
            let none_there : pte_of root (va + 0 * 4096) s.tables ≡ 0 =
              ap (λ v. pte_of root v s.tables) (omega arith)
              ∙ entry-leaf 2 root va s.tables
              ∙ ap (entry_at va s.tables) e in
            subst (λ o. Goal (found o)) (sym e) (0, omega arith, ap is_page none_there)
        | inr (t, e) ↦
            let i : ℕ = px 0 va in
            let is : pte_of root va s.tables ≡ s.tables t i =
              entry-leaf 2 root va s.tables ∙ ap (entry_at va s.tables) e in
            let test : Bool = not (is_valid (s.tables t i)) || pte_flags (s.tables t i) == 1 in
            let (space', w) = put-Without root va t s space e (omega arith) in
            subst (λ o. Goal (found o)) (sym e)
              (subst Goal (taken-tested rounds root va do_free t i s) (elim (Bool-cases test) [
                | inl y ↦
                    subst (λ b. Goal (tested rounds root va do_free t i s b)) (sym y)
                      (
                        0,
                        omega arith,
                        ap (λ v. is_page (pte_of root v s.tables)) (omega arith)
                            ∙ ap is_page is
                            ∙ ap not y,
                      )
                | inr f ↦
                    let rest =
                      unmap_loop-Unmaps rounds root (va + 4096) do_free
                        (record s { tables = set_pte s.tables t i 0 }) space' (omega arith)
                        (omega arith) in
                    let next : u64 (va + pgsize) ≡ va + 4096 = omega arith in
                    subst (λ b. Goal (tested rounds root va do_free t i s b)) (sym f)
                      (subst
                        (λ v. Goal (
                          keep do_free (pte2pa (s.tables t i)) (
                            unmap_loop rounds root v do_free
                              (record s { tables = set_pte s.tables t i 0 }))))
                        (sym next)
                        (Unmaps-suc root va rounds (pte2pa (s.tables t i)) do_free s.tables
                          (set_pte s.tables t i 0) _ al top w (ap pte2pa (sym is))
                          (ap is_page is ∙ ap not f) rest))
              ]))
      ])

-- `vm_unmap` of an aligned range panics exactly when a page of the range is not mapped, or is a table.
-- Otherwise it takes the pages of the range away and no other, and frees their physical pages, in order, when it is asked to.
pub vm_unmap-Unmaps :
    (root va npages : ℕ) (do_free : Bool) (s : Ram)
    → IsSpace root s
    → va % 4096 ≡ 0
    → va + npages * 4096 ≤ 2 ^ 39
    → Unmaps root va npages do_free s.tables (vm_unmap root va npages do_free s)
unfolding vm_unmap
vm_unmap-Unmaps root va npages do_free s space al top =
    let aligned : (va % pgsize == 0) ≡ true = ground arith in
    subst
      (λ b.
        Unmaps root va npages do_free s.tables
          (if not b then none else unmap_loop npages root va do_free s))
      (sym aligned) (unmap_loop-Unmaps npages root va do_free s space al top)
