-- ===== src/Vm/Range.antt =====
-- `vm_map` maps a range of pages and nothing else.
use zrhos.Base.{
  ℕ, zero, suc, ◌+◌, ◌-◌, ◌*◌, ◌/◌, ◌%◌, ◌^◌, ◌≤◌, ◌<◌, ◌≡◌, refl, sym, ap, ap₂, ◌∙◌, Bool, true,
  false, not, ◌&&◌, Option, none, some, List, [], ◌∷◌, ◌==◌, if◌then◌else◌, arith, Bool-cases, inl,
  inr, subst, u64, length,
}
use zrhos.Vm.{
  Ram, px, is_valid, set_pte, walk, Mapped, mapped, no_space, panics, runs_on, map_loop, vm_map,
  make_pte, pgsize, pg_round_down,
}
use zrhos.Vm.Tree.{pte_of}
use zrhos.Vm.Walk.{Grows, leaf, walk-IsWalk, walk-Takes}
use zrhos.Vm.Address.{entry-leaf, entry_at}
use zrhos.Vm.Map.{page-put, put-IsTree, leaf-path}
use zrhos.Vm.Pages.{IsSpace, covers, MapsTo, MapsTo-suc, MapsTo-last}

-- What is claimed of a run. It ends; one that has no space had fewer than two free pages for each page of
-- its range, and one that panics had a page of its range mapped.
abbrev pub Maps : Bool → ℕ → ℕ → ℕ → ℕ → ℕ → Ram → Mapped → Type 0
Maps remap root va last pa perm s (mapped s') =
    IsSpace root s' × MapsTo root va last pa perm s.tables s'.tables
Maps remap root va last pa perm s no_space = length s.free < 2 * ((last - va) / 4096 + 1)
Maps remap root va last pa perm s panics =
    (remap ≡ false)
    × ((a : ℕ) × (a < 2 ^ 39)
        × (covers va last a ≡ true)
        × (is_valid (pte_of root a s.tables) ≡ true))
Maps remap root va last pa perm s runs_on = ⊥

abbrev pub mapping : ℕ → ℕ → ℕ → ℕ → Ram → Ram
mapping t i pa perm s = record s { tables = set_pte s.tables t i (make_pte pa perm) }

-- The parts of a round, each at the value that it splits on.
abbrev ended : ℕ → ℕ → ℕ → ℕ → ℕ → ℕ → Bool → Ram → Bool → Mapped
ended rounds root last va pa perm remap s b = elim b [
  | true ↦ mapped s
  | false ↦ map_loop rounds root last (u64 (va + pgsize)) (u64 (pa + pgsize)) perm remap s
]

abbrev check : ℕ → ℕ → ℕ → ℕ → ℕ → ℕ → Bool → ℕ → ℕ → Ram → Bool → Mapped
check rounds root last va pa perm remap t i s b = elim b [
  | true ↦ panics
  | false ↦ ended rounds root last va pa perm remap (mapping t i pa perm s) (va == last)
]

abbrev enter : ℕ → ℕ → ℕ → ℕ → ℕ → ℕ → Bool → Option (ℕ × ℕ) × Ram → Mapped
enter rounds root last va pa perm remap r = elim r.0 [
  | none ↦ no_space
  | some (t, i) ↦
      check rounds root last va pa perm remap t i r.1 (is_valid (r.1.tables t i) && not remap)
]

Maps-suc :
    (remap : Bool) (root va last pa perm : ℕ) (s s1 : Ram) (r : Mapped)
    → va % 4096 ≡ 0
    → va + 4096 ≤ last
    → last % 4096 ≡ 0
    → length s.free ≤ length s1.free + 2
    → ((a : ℕ)
        → a < 2 ^ 39
        → pte_of root a s1.tables
          ≡ (if va / 4096 == a / 4096 then make_pte pa perm else pte_of root a s.tables))
    → Maps remap root (va + 4096) last (pa + 4096) perm s1 r
    → Maps remap root va last pa perm s r
Maps-suc remap root va last pa perm s s1 (mapped s') al le al' few first (space, rest) =
    (space, MapsTo-suc root va last pa perm s.tables s1.tables s'.tables al le al' first rest)
Maps-suc remap root va last pa perm s s1 no_space al le al' few first lt =
    omega (arith, le, few, lt)
Maps-suc remap root va last pa perm s s1 panics al le al' few first (off, (a, lt, cov, v)) =
    let other : (va / 4096 == a / 4096) ≡ false = ground arith in
    (off, (a, lt, ground arith, ap is_valid (sym (first a lt ∙ rw other refl)) ∙ v))
Maps-suc remap root va last pa perm s s1 runs_on al le al' few first h = h

-- One page: the tables after it form an address space, and its page is mapped.
mapping-IsSpace :
    (root va t pa perm : ℕ) (owner owner' : ℕ → Option (List ℕ)) (s s' : Ram)
    → Grows owner owner' s s'
    → owner root ≡ some []
    → leaf 2 root va s'.tables ≡ some t
    → va < 2 ^ 39
    → IsSpace root (mapping t (px 0 va) pa perm s')
      × ((a : ℕ)
          → a < 2 ^ 39
          → pte_of root a (mapping t (px 0 va) pa perm s').tables
            ≡ (if va / 4096 == a / 4096 then make_pte pa perm else pte_of root a s.tables))
mapping-IsSpace root va t pa perm owner owner' s s' g at_root l lt =
    let at_root' = g.kept root [] at_root in
    let at_t = leaf-path owner' 2 root va t s'.tables [] g.tree at_root' (omega arith) l in
    let v : ℕ = make_pte pa perm in
    (
      record {
        owner = owner';
        tree =
            put-IsTree owner' s'.tables t (px 0 va) v (px 1 va ∷ px 2 va ∷ []) g.tree at_t
              (omega arith);
        fresh = g.fresh;
        at_root = at_root';
      },
      λ a lt'.
          page-put owner' s'.tables root t va a v g.tree at_root' l lt lt'
          ∙ ap (λ x. if va / 4096 == a / 4096 then v else x)
              (g.same 2 root a [] at_root (omega arith)),
    )

-- The end of a round whose entry may be written: `rest` is what the next rounds do.
ended-Maps :
    (rounds root last va pa perm k : ℕ) (remap : Bool) (s s' : Ram)
    → va + 4096 * k ≡ last
    → va % 4096 ≡ 0
    → last < 2 ^ 39
    → pa + 4096 * k < 2 ^ 64
    → IsSpace root s'
    → length s.free ≤ length s'.free + 2
    → ((a : ℕ)
        → a < 2 ^ 39
        → pte_of root a s'.tables
          ≡ (if va / 4096 == a / 4096 then make_pte pa perm else pte_of root a s.tables))
    → (1 ≤ k
        → Maps remap root
            (va + 4096)
            last
            (pa + 4096)
            perm
            s'
            (map_loop rounds root last (va + 4096) (pa + 4096) perm remap s'))
    → Maps remap root va last pa perm s (ended rounds root last va pa perm remap s' (va == last))
ended-Maps rounds root last va pa perm k remap s s' end al top ptop space few first rest =
    let Goal : Mapped → Type 0 = Maps remap root va last pa perm s in
    let next : ℕ → ℕ → Mapped = λ x y. map_loop rounds root last x y perm remap s' in
    elim (Bool-cases (va == last)) [
      | inl y ↦
          let here : va ≡ last = ground arith in
          let once = MapsTo-last root va pa perm s.tables s'.tables al first in
          subst (λ b. Goal (ended rounds root last va pa perm remap s' b)) (sym y)
            (space, subst (λ x. MapsTo root va x pa perm s.tables s'.tables) here once)
      | inr n ↦
          let more : 1 ≤ k = ground arith in
          let va_is : u64 (va + pgsize) ≡ va + 4096 = omega arith in
          let pa_is : u64 (pa + pgsize) ≡ pa + 4096 = omega arith in
          subst (λ b. Goal (ended rounds root last va pa perm remap s' b)) (sym n)
            (subst Goal (ap₂ next (sym va_is) (sym pa_is)) (
              Maps-suc remap root va last pa perm s s' (next (va + 4096) (pa + 4096)) al
                (omega arith) (omega arith) few first (rest more)))
    ]

map_loop-Maps :
    (rounds root last va pa perm k : ℕ) (remap : Bool) (s : Ram)
    → IsSpace root s
    → k < rounds
    → va + 4096 * k ≡ last
    → va % 4096 ≡ 0
    → last < 2 ^ 39
    → pa + 4096 * k < 2 ^ 64
    → Maps remap root va last pa perm s (map_loop rounds root last va pa perm remap s)
unfolding map_loop
map_loop-Maps zero root last va pa perm k remap s space lt end al top ptop = absurd (omega arith)
map_loop-Maps (suc rounds) root last va pa perm k remap s space lt end al top ptop =
    let (owner', g, found) =
      walk-IsWalk root va space.owner s space.tree space.fresh space.at_root in
    let few = walk-Takes root va s in
    let s' : Ram = (walk root va true s).1 in
    let i : ℕ = px 0 va in
    let Goal : Mapped → Type 0 = Maps remap root va last pa perm s in
    let at_slot : Option (ℕ × ℕ) → Mapped = λ o. enter rounds root last va pa perm remap (o, s') in
    elim found [
      | inl e ↦ subst (λ o. Goal (at_slot o)) (sym e) (omega (arith, few.1 e))
      | inr (t, e, l) ↦
          let tested : Bool → Mapped = check rounds root last va pa perm remap t i s' in
          let (space', first) =
            mapping-IsSpace root va t pa perm space.owner owner' s s' g space.at_root l
              (omega arith) in
          subst (λ o. Goal (at_slot o)) (sym e)
            (elim (Bool-cases (is_valid (s'.tables t i) && not remap)) [
              | inl y ↦
                  subst (λ b. Goal (tested b)) (sym y)
                    (
                      ground arith,
                      (
                        va,
                        omega arith,
                        ground arith,
                        ap is_valid (
                              sym (g.same 2 root va [] space.at_root (omega arith))
                              ∙ entry-leaf 2 root va s'.tables
                              ∙ ap (entry_at va s'.tables) l)
                            ∙ (ground arith),
                      ),
                    )
              | inr f ↦
                  subst (λ b. Goal (tested b)) (sym f)
                    (ended-Maps rounds root last va pa perm k remap s (mapping t i pa perm s') end
                      al top ptop space' few.0 first
                      (λ more.
                        map_loop-Maps rounds root last (va + 4096) (pa + 4096) perm (k - 1) remap
                          (mapping t i pa perm s') space' (omega arith) (omega arith) (omega arith)
                          top (omega arith)))
            ])
    ]

-- `vm_map` of an aligned address with the flags of an entry ends. With 0 it has mapped the pages of its
-- range, and no other page is mapped otherwise than before. It panics for want of memory only with fewer
-- than two free pages for each page of its range, and otherwise only without `remap`, where a page of the
-- range was mapped before.
pub vm_map-Maps :
    (root va pa sz perm : ℕ) (remap : Bool) (s : Ram)
    → IsSpace root s
    → va % 4096 ≡ 0
    → 0 < sz
    → va + sz ≤ 2 ^ 39
    → pa + sz ≤ 2 ^ 64
    → perm < 1024
    → Maps remap root va (pg_round_down (va + sz - 1)) pa perm s (vm_map root va pa sz perm remap s)
unfolding vm_map
vm_map-Maps root va pa sz perm remap s space al some_size top ptop bits =
    let last : ℕ = pg_round_down (va + sz - 1) in
    let is : pg_round_down (u64 (va + sz + 2 ^ 64 - 1)) ≡ last = omega arith in
    subst
      (λ l.
        Maps remap root va last pa perm s (map_loop (sz / pgsize + 1) root l va pa perm remap s))
      (sym is)
      (map_loop-Maps (sz / pgsize + 1) root last va pa perm ((last - va) / 4096) remap s space
        (omega arith) (omega arith) al (omega arith) (omega arith))
