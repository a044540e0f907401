-- ===== src/Vm/Pages.antt =====
-- Address spaces, and what it is to map a range of pages.
use zrhos.Base.{
  ℕ, ◌+◌, ◌-◌, ◌/◌, ◌%◌, ◌^◌, ◌≤◌, ◌<◌, ◌≡◌, refl, sym, ap, ◌∙◌, Bool, true, false, ◌&&◌, Option,
  some, List, [], ◌==◌, leb, if◌then◌else◌, arith, Bool-cases, inl, inr,
}
use zrhos.Vm.{Tables, Ram, make_pte, pg_round_down}
use zrhos.Vm.Tree.{pte_of, IsTree, AllFresh}

-- The tables of `root` form a tree and the free pages are no part of it.
pub record IsSpace (root : ℕ) (s : Ram) : Type 0 where
  pub owner : ℕ → Option (List ℕ)
  pub tree : IsTree owner s.tables
  pub fresh : AllFresh owner s.free
  pub at_root : owner root ≡ some []

-- The page of `a` is one of those from `va` to `last`.
abbrev pub covers : ℕ → ℕ → ℕ → Bool
covers va last a = leb va (pg_round_down a) && leb (pg_round_down a) last

-- The pages from `va` to `last` are mapped to those from `pa` on, and all others as before.
abbrev pub MapsTo : ℕ → ℕ → ℕ → ℕ → ℕ → Tables → Tables → Type 0
MapsTo root va last pa perm m m' =
    (a : ℕ)
    → a < 2 ^ 39
    → pte_of root a m'
      ≡ (if covers va last a then make_pte (pa + (pg_round_down a - va)) perm else pte_of root a m)

-- The first page, then the others.
pub MapsTo-suc :
    (root va last pa perm : ℕ) (m m1 m' : Tables)
    → va % 4096 ≡ 0
    → va + 4096 ≤ last
    → last % 4096 ≡ 0
    → ((a : ℕ)
        → a < 2 ^ 39
        → pte_of root a m1 ≡ (if va / 4096 == a / 4096 then make_pte pa perm else pte_of root a m))
    → MapsTo root (va + 4096) last (pa + 4096) perm m1 m'
    → MapsTo root va last pa perm m m'
MapsTo-suc root va last pa perm m m1 m' al le al' first rest a lt =
    rest a lt ∙ elim (Bool-cases (covers (va + 4096) last a)) [
      | inl y ↦
          let here : covers va last a ≡ true = ground arith in
          rw (y, here) (ap (λ p. make_pte p perm) (ground arith))
      | inr f ↦ elim (Bool-cases (va / 4096 == a / 4096)) [
        | inl y ↦
            let here : covers va last a ≡ true = ground arith in
            let at : pa + (pg_round_down a - va) ≡ pa = ground arith in
            rw (f, here) (first a lt ∙ rw y (ap (λ p. make_pte p perm) (sym at)))
        | inr g ↦
            let here : covers va last a ≡ false = ground arith in
            rw (f, here) (first a lt ∙ rw g refl)
      ]
    ]

-- The last page.
pub MapsTo-last :
    (root va pa perm : ℕ) (m m1 : Tables)
    → va % 4096 ≡ 0
    → ((a : ℕ)
        → a < 2 ^ 39
        → pte_of root a m1 ≡ (if va / 4096 == a / 4096 then make_pte pa perm else pte_of root a m))
    → MapsTo root va va pa perm m m1
MapsTo-last root va pa perm m m1 al first a lt =
    first a lt ∙ elim (Bool-cases (va / 4096 == a / 4096)) [
      | inl y ↦
          let here : covers va va a ≡ true = ground arith in
          let at : pa ≡ pa + (pg_round_down a - va) = ground arith in
          rw (y, here) (ap (λ p. make_pte p perm) at)
      | inr g ↦ let here : covers va va a ≡ false = ground arith in rw (g, here) refl
    ]
