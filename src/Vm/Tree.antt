-- ===== src/Vm/Tree.antt =====
-- The tables of an address space form a tree, and what an address is mapped to.
use zrhos.Base.{
  ap₂, subst, ℕ, zero, suc, ◌+◌, ◌%◌, ◌^◌, ◌<◌, ◌≡◌, ◌≢◌, refl, sym, ap, ◌∙◌, true, false, ◌&&◌,
  Option, none, some, List, [], ◌∷◌, ◌==◌, if◌then◌else◌, arith, Bool-cases, inl, inr, length, All,
  ℕ_discrete, ◌⊎◌,
}
use zrhos.Vm.{Tables, px, pa2pte, pte2pa, is_valid, set_pte, clear}

-- The entry of `va` below table `t`, `level` tables down; 0 where there is no table.
unfoldable pub entry : ℕ → ℕ → ℕ → Tables → ℕ
entry zero t va m = m t (px 0 va)
entry (suc level) t va m =
    let pte = m t (px (suc level) va) in
    let below = entry level (pte2pa pte) va m in if is_valid pte then below else 0

-- What `va` is mapped to: its entry, or 0.
abbrev pub pte_of : ℕ → ℕ → Tables → ℕ
pte_of root va m = entry 2 root va m

-- Each table is reached by one path of indices, and `owner` gives it, the last index first.
pub record IsTree (owner : ℕ → Option (List ℕ)) (m : Tables) : Type 0 where
  pub child :
      (t i : ℕ) (path : List ℕ)
      → owner t ≡ some path
      → length path < 2
      → is_valid (m t i) ≡ true
      → owner (pte2pa (m t i)) ≡ some (i ∷ path)

-- A page that `mem_malloc` may give for a table.
abbrev pub IsFresh : (ℕ → Option (List ℕ)) → ℕ → Type 0
IsFresh owner p = (owner p ≡ none) × (p % 4096 ≡ 0) × (p < 2 ^ 56)

-- The free pages are fresh, and different.
abbrev pub AllFresh : (ℕ → Option (List ℕ)) → List ℕ → Type 0
AllFresh owner [] = Unit
AllFresh owner (p ∷ ps) = IsFresh owner p × All (λ q. p ≢ q) ps × AllFresh owner ps

abbrev pub own : (ℕ → Option (List ℕ)) → ℕ → List ℕ → ℕ → Option (List ℕ)
own owner p path t = if p == t then some path else owner t

entry-cleared : (level p va : ℕ) (m : Tables) → ((i : ℕ) → m p i ≡ 0) → entry level p va m ≡ 0
unfolding entry
entry-cleared zero p va m h = h (px 0 va)
entry-cleared (suc level) p va m h = rw (h (px (suc level) va)) refl

pub own_self : (owner : ℕ → Option (List ℕ)) (p : ℕ) (l : List ℕ) → own owner p l p ≡ some l
own_self owner p l = ground arith

-- A new table below entry `i` of `t` maps nothing, and changes no mapping.
module _ (owner : ℕ → Option (List ℕ)) (m : Tables) (t i p : ℕ) (path : List ℕ)
    (tree : IsTree owner m) (at_t : owner t ≡ some path) (short : length path < 2)
    (fresh : IsFresh owner p) (free : is_valid (m t i) ≡ false) where
  abbrev pub grown : Tables
  grown = set_pte (clear m p) t i (pa2pte p + 1)

  t-ne-p : t ≢ p
  t-ne-p e = cc

  pub grown_new : grown t i ≡ pa2pte p + 1
  grown_new = ground arith

  pub grown_child : pte2pa (pa2pte p + 1) ≡ p
  grown_child = omega arith

  grown_empty : (j : ℕ) → grown p j ≡ 0
  grown_empty j = ground (arith, t-ne-p)

  pub grown_old : (u j : ℕ) → u ≢ p → (t ≢ u) ⊎ (i ≢ j) → grown u j ≡ m u j
  grown_old u j ne h = ground arith

  pub owned-ne-p : (u : ℕ) (path' : List ℕ) → owner u ≡ some path' → u ≢ p
  owned-ne-p u path' at_u e = cc

  other_path : (u : ℕ) (path' : List ℕ) → owner u ≡ some path' → length path' ≡ 2 → t ≢ u
  other_path u path' at_u len e =
      let same : path ≡ path' = cc in absurd (omega (arith, ap length same))

  pub own-other : (l l' : List ℕ) (u : ℕ) → owner u ≡ some l' → own owner p l u ≡ some l'
  own-other l l' u e = ground (arith, owned-ne-p u l' e)

  grown_old_empty : (u j : ℕ) → ((t == u) && (i == j)) ≡ false → p ≡ u → grown u j ≡ 0
  grown_old_empty u j f e = ground arith

  -- At the new entry.
  entry_here :
      (level va : ℕ)
      → px (suc level) va ≡ i
      → entry (suc level) t va grown ≡ entry (suc level) t va m
  unfolding entry
  entry_here level va e = ground (
    arith,
    entry-cleared level p va grown grown_empty,
    grown_child,
    grown_new,
    ap (λ j. grown t j) e,
    ap (λ j. is_valid (m t j)) e,
  )

  pub entry-grown :
      (level u va : ℕ) (path' : List ℕ)
      → owner u ≡ some path'
      → length path' + level ≡ 2
      → entry level u va grown ≡ entry level u va m
  unfolding entry
  entry-grown zero u va path' at_u len =
      grown_old u (px 0 va) (owned-ne-p u path' at_u)
        (inl (λ e. other_path u path' at_u (omega arith) e))
  entry-grown (suc level) u va path' at_u len =
      let j : ℕ = px (suc level) va in
      elim (Bool-cases ((t == u) && (i == j))) [
        | inl y ↦
            let e : t ≡ u = ground arith in
            subst (λ u. entry (suc level) u va grown ≡ entry (suc level) u va m) e
              (entry_here level va (ground arith))
        | inr f ↦
            let same : grown u j ≡ m u j = grown_old u j (owned-ne-p u path' at_u) (ground arith) in
            elim (Bool-cases (is_valid (m u j))) [
              | inl v ↦
                  let ih =
                    entry-grown level (pte2pa (m u j)) va (j ∷ path')
                      (tree.child u j path' at_u (omega arith) v) (omega arith) in
                  ground (arith, same, ih)
              | inr v ↦ ground (arith, same)
            ]
      ]

  -- The new table has its place in the tree.
  pub grown-IsTree : i < 512 → IsTree (own owner p (i ∷ path)) grown
  grown-IsTree lt = record {
    child = λ u j path' at_u len v. elim (Bool-cases ((t == u) && (i == j))) [
      | inl y ↦
          let here : grown u j ≡ pa2pte p + 1 = ground arith in
          let at_t' : own owner p (i ∷ path) u ≡ some path = ground (arith, at_t, t-ne-p) in
          let same : path ≡ path' = cc in
          let target : pte2pa (grown u j) ≡ p = ap pte2pa here ∙ grown_child in
          ap (own owner p (i ∷ path)) target
          ∙ own_self owner p (i ∷ path)
          ∙ ap₂ (λ k l. some (k ∷ l)) (ground arith) same
      | inr f ↦ elim (ℕ_discrete p u) [
        | yes e ↦ absurd (ground (arith, ap (λ k. is_valid k) (grown_old_empty u j f e)))
        | no ne ↦
            let old : grown u j ≡ m u j = grown_old u j (λ e. ne (sym e)) (ground arith) in
            let at_u' : owner u ≡ some path' = ground arith in
            let kept = tree.child u j path' at_u' len (ap is_valid (sym old) ∙ v) in
            ap (λ k. own owner p (i ∷ path) (pte2pa k)) old
            ∙ own-other (i ∷ path) (j ∷ path') (pte2pa (m u j)) kept
      ]
    ];
  }
