-- ===== src/Vm/Map.antt =====
-- A write to the entry of an address, as all addresses see it.
use zrhos.Base.{
  ℕ, zero, suc, ◌+◌, ◌/◌, ◌^◌, ◌<◌, ◌≡◌, ◌≢◌, sym, ap, ap₂, ◌∙◌, true, false, Option, none, some,
  List, [], ◌∷◌, ◌==◌, if◌then◌else◌, arith, Bool-cases, inl, inr, length,
}
use zrhos.Vm.{Tables, px, pte2pa, is_valid, set_pte}
use zrhos.Vm.Tree.{entry, pte_of, IsTree}
use zrhos.Vm.Walk.{leaf}

-- The indices from table to table, the last one first.
abbrev pub indices : ℕ → ℕ → List ℕ → List ℕ
indices zero va path = path
indices (suc level) va path = indices level va (px (suc level) va ∷ path)

pub leaf-path :
    (owner : ℕ → Option (List ℕ)) (level t va t0 : ℕ) (m : Tables) (path : List ℕ)
    → IsTree owner m
    → owner t ≡ some path
    → length path + level ≡ 2
    → leaf level t va m ≡ some t0
    → owner t0 ≡ some (indices level va path)
unfolding leaf
leaf-path owner zero t va t0 m path tree at_t len h = let same : t ≡ t0 = cc in cc
leaf-path owner (suc level) t va t0 m path tree at_t len h =
    elim (Bool-cases (is_valid (m t (px (suc level) va)))) [
      | inl v ↦
          leaf-path owner level (pte2pa (m t (px (suc level) va))) va t0 m
            (px (suc level) va ∷ path) tree
            (tree.child t (px (suc level) va) path at_t (omega arith) v) (omega arith)
            (ground arith)
      | inr f ↦ absurd (ground arith)
    ]

leaf_valid :
    (level u va : ℕ) (m : Tables) (o : Option ℕ)
    → is_valid (m u (px (suc level) va)) ≡ true
    → leaf level (pte2pa (m u (px (suc level) va))) va m ≡ o
    → leaf (suc level) u va m ≡ o
unfolding leaf
leaf_valid level u va m o v e = ground arith

-- Addresses of one page have the same indices.
leaf_page : (u va va' : ℕ) (m : Tables) → va / 4096 ≡ va' / 4096 → leaf 2 u va m ≡ leaf 2 u va' m
unfolding leaf
leaf_page u va va' m e =
    let p1 : px 1 va ≡ px 1 va' = omega arith in
    let p2 : px 2 va ≡ px 2 va' = omega arith in
    ap₂
      (λ (i j : ℕ).
        let p = m u i in
        let q = m (pte2pa p) j in
        if is_valid p then (if is_valid q then some (pte2pa q) else none) else none)
      p2 p1

-- A write to a leaf table changes the entry of the addresses that it holds there, and no other.
module _ (owner : ℕ → Option (List ℕ)) (m : Tables) (t0 i v : ℕ) (path0 : List ℕ)
    (tree : IsTree owner m) (at_t0 : owner t0 ≡ some path0) (deep : length path0 ≡ 2) where
  abbrev pub put : Tables
  put = set_pte m t0 i v

  inner : (u j : ℕ) (path : List ℕ) → owner u ≡ some path → length path < 2 → put u j ≡ m u j
  inner u j path at_u len =
      let apart : t0 ≢ u = λ e. let same : path0 ≡ path = cc in omega (arith, ap length same) in
      ground arith

  pub put-IsTree : IsTree owner put
  put-IsTree = record {
    child = λ u j path at_u len w.
        let same = inner u j path at_u len in
        ap (λ k. owner (pte2pa k)) same ∙ tree.child u j path at_u len (ap is_valid (sym same) ∙ w);
  }

  -- At an address whose leaf is `t0`, and at any other.
  entry-put_here :
      (level u va : ℕ) (path : List ℕ)
      → owner u ≡ some path
      → length path + level ≡ 2
      → leaf level u va m ≡ some t0
      → px 0 va ≡ i
      → entry level u va put ≡ v
  unfolding entry leaf
  entry-put_here zero u va path at_u len l e = let same : u ≡ t0 = cc in ground (arith, same, e)
  entry-put_here (suc level) u va path at_u len l e =
      let j : ℕ = px (suc level) va in
      let same = inner u j path at_u (omega arith) in
      elim (Bool-cases (is_valid (m u j))) [
        | inl w ↦
            let ih =
              entry-put_here level (pte2pa (m u j)) va (j ∷ path)
                (tree.child u j path at_u (omega arith) w) (omega arith) (ground arith) e in
            ground (arith, same, ih)
        | inr f ↦ absurd (ground arith)
      ]

  entry-put_other :
      (level u va : ℕ) (path : List ℕ)
      → owner u ≡ some path
      → length path + level ≡ 2
      → ((leaf level u va m ≡ some t0) × (px 0 va ≡ i) → ⊥)
      → entry level u va put ≡ entry level u va m
  unfolding entry leaf
  entry-put_other zero u va path at_u len ne = ground (arith, ne)
  entry-put_other (suc level) u va path at_u len ne =
      let j : ℕ = px (suc level) va in
      let same = inner u j path at_u (omega arith) in
      elim (Bool-cases (is_valid (m u j))) [
        | inl w ↦
            let ih =
              entry-put_other level (pte2pa (m u j)) va (j ∷ path)
                (tree.child u j path at_u (omega arith) w) (omega arith)
                (λ h. ne (leaf_valid level u va m (some t0) w h.0, h.1)) in
            ground (arith, same, ih)
        | inr f ↦ ground (arith, same)
      ]

front : {a b c d : ℕ} → a ∷ b ∷ [] ≡ c ∷ d ∷ [] → a ≡ c
front h = cc

second : {a b c d : ℕ} → a ∷ b ∷ [] ≡ c ∷ d ∷ [] → b ≡ d
second h = cc

pages_differ :
    (va va' : ℕ)
    → va < 2 ^ 39
    → va' < 2 ^ 39
    → (va / 4096 == va' / 4096) ≡ false
    → px 1 va ≡ px 1 va'
    → px 2 va ≡ px 2 va'
    → px 0 va' ≡ px 0 va
    → ⊥
pages_differ va va' lt lt' f p1 p2 p0 =
    let same : va / 4096 ≡ va' / 4096 = omega arith in absurd (ground arith)

-- The page of `va` is mapped by `v` now, and every other page as before.
pub page-put :
    (owner : ℕ → Option (List ℕ)) (m : Tables) (root t0 va va' v : ℕ)
    → IsTree owner m
    → owner root ≡ some []
    → leaf 2 root va m ≡ some t0
    → va < 2 ^ 39
    → va' < 2 ^ 39
    → pte_of root va' (set_pte m t0 (px 0 va) v)
      ≡ (if va / 4096 == va' / 4096 then v else pte_of root va' m)
page-put owner m root t0 va va' v tree at_root l lt lt' =
    let at_t0 = leaf-path owner 2 root va t0 m [] tree at_root (omega arith) l in
    elim (Bool-cases (va / 4096 == va' / 4096)) [
      | inl y ↦
          let e : va / 4096 ≡ va' / 4096 = ground arith in
          rw y (
            entry-put_here owner m t0 (px 0 va) v (px 1 va ∷ px 2 va ∷ []) tree at_t0 (omega arith)
              2 root va' [] at_root (omega arith) (sym (leaf_page root va va' m e) ∙ l)
              (omega arith))
      | inr f ↦ rw f (
          entry-put_other owner m t0 (px 0 va) v (px 1 va ∷ px 2 va ∷ []) tree at_t0 (omega arith) 2
            root va' [] at_root (omega arith)
            (λ h.
              let at_t0' = leaf-path owner 2 root va' t0 m [] tree at_root (omega arith) h.0 in
              let same : px 1 va ∷ px 2 va ∷ [] ≡ px 1 va' ∷ px 2 va' ∷ [] = cc in
              absurd (pages_differ va va' lt lt' f (front same) (second same) h.1)))
    ]
