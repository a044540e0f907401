-- ===== src/Vm/Walk.antt =====
-- `walk` makes tables where they are missing, and finds the entry of an address.
use zrhos.Base.{
  ℕ, zero, suc, ◌+◌, ◌≤◌, ◌<◌, ◌≡◌, ◌≢◌, refl, sym, ap, ◌∙◌, true, false, ◌&&◌, Option, none, some,
  List, [], ◌∷◌, ◌==◌, if◌then◌else◌, arith, Bool-cases, inl, inr, length, All, ◌⊎◌, subst,
}
use zrhos.Vm.{Tables, Ram, px, pa2pte, pte2pa, is_valid, set_pte, clear, descend, walk_loop, walk}
use zrhos.Vm.Tree.{
  own_self, entry, IsTree, IsFresh, AllFresh, own, entry-grown, grown-IsTree, grown_old, own-other,
  owned-ne-p,
}

-- `owner'` and `s'` come from `owner` and `s` by new tables, and no mapping has changed.
pub record Grows (owner owner' : ℕ → Option (List ℕ)) (s s' : Ram) : Type 0 where
  pub tree : IsTree owner' s'.tables
  pub fresh : AllFresh owner' s'.free
  pub kept : (t : ℕ) (path : List ℕ) → owner t ≡ some path → owner' t ≡ some path
  pub same :
      (level u va : ℕ) (path : List ℕ)
      → owner u ≡ some path
      → length path + level ≡ 2
      → entry level u va s'.tables ≡ entry level u va s.tables
  pub stays :
      (u j : ℕ) (path : List ℕ)
      → owner u ≡ some path
      → is_valid (s.tables u j) ≡ true
      → s'.tables u j ≡ s.tables u j

-- The table that holds the entry of `va`, `level` tables below `t`.
unfoldable pub leaf : ℕ → ℕ → ℕ → Tables → Option ℕ
leaf zero t va m = some t
leaf (suc level) t va m =
    let pte = m t (px (suc level) va) in
    let below = leaf level (pte2pa pte) va m in if is_valid pte then below else none

AllFresh-own :
    (owner : ℕ → Option (List ℕ)) (p : ℕ) (l : List ℕ) (ps : List ℕ)
    → All (λ q. p ≢ q) ps
    → AllFresh owner ps
    → AllFresh (own owner p l) ps
AllFresh-own owner p l [] ne f = tt
AllFresh-own owner p l (q ∷ ps) (ne, nes) ((none_q, al, lt), d, f) =
    ((ground arith, al, lt), d, AllFresh-own owner p l ps nes f)

Grows-refl :
    (owner : ℕ → Option (List ℕ)) (s : Ram)
    → IsTree owner s.tables
    → AllFresh owner s.free
    → Grows owner owner s s
Grows-refl owner s tree f = record {
  tree = tree;
  fresh = f;
  kept = λ t path e. e;
  same = λ level u va path e len. refl;
  stays = λ u j path e v. refl;
}

Grows-trans :
    {o1 o2 o3 : ℕ → Option (List ℕ)} {s1 s2 s3 : Ram}
    → Grows o1 o2 s1 s2
    → Grows o2 o3 s2 s3
    → Grows o1 o3 s1 s3
Grows-trans g h = record {
  tree = h.tree;
  fresh = h.fresh;
  kept = λ t path e. h.kept t path (g.kept t path e);
  same = λ level u va path e len.
      h.same level u va path (g.kept u path e) len ∙ g.same level u va path e len;
  stays = λ u j path e v.
      let first = g.stays u j path e v in
      h.stays u j path (g.kept u path e) (ap is_valid first ∙ v) ∙ first;
}

-- The step that makes a table.
Grows-grown :
    (owner : ℕ → Option (List ℕ)) (s : Ram) (t i p : ℕ) (path ps : List ℕ)
    → IsTree owner s.tables
    → owner t ≡ some path
    → length path < 2
    → i < 512
    → is_valid (s.tables t i) ≡ false
    → AllFresh owner (p ∷ ps)
    → Grows owner
        (own owner p (i ∷ path))
        s
        (record s { tables = set_pte (clear s.tables p) t i (pa2pte p + 1); free = ps })
Grows-grown owner s t i p path ps tree at_t short lt free (fresh, ne, rest) = record {
  tree = grown-IsTree owner s.tables t i p path tree at_t short fresh free lt;
  fresh = AllFresh-own owner p (i ∷ path) ps ne rest;
  kept = λ u l e. own-other owner s.tables t i p path tree at_t short fresh free (i ∷ path) l u e;
  same = λ level u va l e len.
      entry-grown owner s.tables t i p path tree at_t short fresh free level u va l e len;
  stays = λ u j l e v.
      grown_old owner s.tables t i p path tree at_t short fresh free u j
        (owned-ne-p owner s.tables t i p path tree at_t short fresh free u l e)
        (valid_elsewhere u j v);
}
  where
    valid_elsewhere : (u j : ℕ) → is_valid (s.tables u j) ≡ true → (t ≢ u) ⊎ (i ≢ j)
    valid_elsewhere u j v = elim (Bool-cases ((t == u) && (i == j))) [
      | inl y ↦ absurd (both_valid (ground arith) (ground arith) v)
      | inr f ↦ ground arith
    ]
      where
        both_valid : t ≡ u → i ≡ j → is_valid (s.tables u j) ≡ true → ⊥
        both_valid e d v = cc

List-cases {ℓ} : {A : Type ℓ} (l : List A) → (l ≡ []) ⊎ ((x : A) × (xs : List A) × (l ≡ x ∷ xs))
List-cases [] = inl refl
List-cases (x ∷ xs) = inr (x, xs, refl)

-- What a round does: it follows an entry, has no page, or makes a table.
descend-cases :
    (t i : ℕ) (s : Ram)
    → ((is_valid (s.tables t i) ≡ true) × (descend true t i s ≡ (some (pte2pa (s.tables t i)), s)))
      ⊎ ((s.free ≡ []) × (descend true t i s ≡ (none, s)))
      ⊎ ((p : ℕ) × (ps : List ℕ) × (is_valid (s.tables t i) ≡ false)
          × (s.free ≡ p ∷ ps)
          × (descend true t i s ≡ (
            some p,
            record s { tables = set_pte (clear s.tables p) t i (pa2pte p + 1); free = ps },
          )))
unfolding descend
descend-cases t i s = elim (Bool-cases (is_valid (s.tables t i))) [
  | inl v ↦ inl (v, ground arith)
  | inr f ↦ elim (List-cases s.free) [
    | inl e ↦ inr (inl (e, ground arith))
    | inr (p, ps, e) ↦ inr (inr (p, ps, f, e, ground arith))
  ]
]

leaf-zero : (t va : ℕ) (m : Tables) → leaf zero t va m ≡ some t
unfolding leaf
leaf-zero t va m = refl

-- The answer of `walk` is no table, or the entry of the address.
abbrev pub Finds : ℕ → ℕ → ℕ → Option (ℕ × ℕ) × Ram → Type 0
Finds level t va r =
    (r.0 ≡ none) ⊎ ((t0 : ℕ) × (r.0 ≡ some (t0, px 0 va)) × (leaf level t va r.1.tables ≡ some t0))

abbrev resume : ℕ → ℕ → Option ℕ × Ram → Option (ℕ × ℕ) × Ram
resume va level r = elim r.0 [ none ↦ (none, r.1) | some u ↦ walk_loop true va level u r.1 ]

-- `leaf` goes on below an entry that stays.
leaf-suc :
    (level t u va : ℕ) (m : Tables) (o : Option ℕ)
    → is_valid (m t (px (suc level) va)) ≡ true
    → pte2pa (m t (px (suc level) va)) ≡ u
    → leaf level u va m ≡ o
    → leaf (suc level) t va m ≡ o
unfolding leaf
leaf-suc level t u va m o v e l = ground (arith, ap (λ u. leaf level u va m) e)

lift-Finds :
    (level t u va : ℕ) (r : Option (ℕ × ℕ) × Ram)
    → is_valid (r.1.tables t (px (suc level) va)) ≡ true
    → pte2pa (r.1.tables t (px (suc level) va)) ≡ u
    → Finds level u va r
    → Finds (suc level) t va r
lift-Finds level t u va r v e (inl none_found) = inl none_found
lift-Finds level t u va r v e (inr (t0, is, l)) =
    inr (t0, is, leaf-suc level t u va r.1.tables (some t0) v e l)

-- What is claimed of a walk from `s`.
abbrev pub IsWalk : ℕ → ℕ → ℕ → (ℕ → Option (List ℕ)) → Ram → Option (ℕ × ℕ) × Ram → Type 0
IsWalk level t va owner s r =
    (owner' : ℕ → Option (List ℕ)) × Grows owner owner' s r.1 × Finds level t va r

pub px-lt : (level va : ℕ) → px level va < 512
px-lt zero va = omega arith
px-lt (suc zero) va = omega arith
px-lt (suc (suc level)) va = omega arith

set_pte_self : (m : Tables) (t i v : ℕ) → set_pte m t i v t i ≡ v
set_pte_self m t i v = ground arith

new_valid : (p : ℕ) → is_valid (pa2pte p + 1) ≡ true
new_valid p = ground arith

new_child : (owner : ℕ → Option (List ℕ)) (p : ℕ) → IsFresh owner p → pte2pa (pa2pte p + 1) ≡ p
new_child owner p (none_p, aligned, lt) = omega arith

walk_loop-Grows :
    (level t va : ℕ) (owner : ℕ → Option (List ℕ)) (s : Ram) (path : List ℕ)
    → IsTree owner s.tables
    → AllFresh owner s.free
    → owner t ≡ some path
    → length path + level ≡ 2
    → IsWalk level t va owner s (walk_loop true va level t s)
unfolding walk_loop
walk_loop-Grows zero t va owner s path tree f at_t len =
    (owner, Grows-refl owner s tree f, inr (t, refl, leaf-zero t va s.tables))
walk_loop-Grows (suc level) t va owner s path tree f at_t len =
    let i : ℕ = px (suc level) va in
    let Goal : Option ℕ × Ram → Type 0 = λ r. IsWalk (suc level) t va owner s (resume va level r) in
    elim (descend-cases t i s) [
      | inl (v, e) ↦
          let u : ℕ = pte2pa (s.tables t i) in
          let (owner', g, found) =
            walk_loop-Grows level u va owner s (i ∷ path) tree f
              (tree.child t i path at_t (omega arith) v) (omega arith) in
          let kept = g.stays t i path at_t v in
          subst Goal (sym e) (
            owner',
            g,
            lift-Finds level t u va (walk_loop true va level u s) (ap is_valid kept ∙ v)
                (ap pte2pa kept) found,
          )
      | inr (inl (empty, e)) ↦ subst Goal (sym e) (owner, Grows-refl owner s tree f, inl refl)
      | inr (inr (p, ps, v, free, e)) ↦
          let s1 : Ram = record s {
            tables = set_pte (clear s.tables p) t i (pa2pte p + 1);
            free = ps;
          } in
          let fresh = subst (AllFresh owner) free f in
          let g1 : Grows owner (own owner p (i ∷ path)) s s1 =
            Grows-grown owner s t i p path ps tree at_t (omega arith) (px-lt (suc level) va) v
              fresh in
          let (owner', g, found) =
            walk_loop-Grows level p va (own owner p (i ∷ path)) s1 (i ∷ path) g1.tree g1.fresh
              (own_self owner p (i ∷ path)) (omega arith) in
          let new : s1.tables t i ≡ pa2pte p + 1 =
            set_pte_self (clear s.tables p) t i (pa2pte p + 1) in
          let valid : is_valid (s1.tables t i) ≡ true = ap is_valid new ∙ new_valid p in
          let kept = g.stays t i path (g1.kept t path at_t) valid in
          subst Goal (sym e) (
            owner',
            Grows-trans g1 g,
            lift-Finds level t p va (walk_loop true va level p s1) (ap is_valid kept ∙ valid)
                (ap pte2pa (kept ∙ new) ∙ new_child owner p fresh.0) found,
          )
    ]

-- A walk takes at most a page for each level, and has no answer only without as many.
abbrev pub Takes : ℕ → List ℕ → Option (ℕ × ℕ) × Ram → Type 0
Takes level l r = (length l ≤ length r.1.free + level) × ((r.0 ≡ none) → length l < level)

Takes-suc :
    (level : ℕ) (l l1 : List ℕ) (r : Option (ℕ × ℕ) × Ram)
    → length l ≤ length l1 + 1
    → Takes level l1 r
    → Takes (suc level) l r
Takes-suc level l l1 r le (lost, empty) = (omega (arith, le, lost), λ e. omega (arith, le, empty e))

pub walk_loop-Takes : (level t va : ℕ) (s : Ram) → Takes level s.free (walk_loop true va level t s)
unfolding walk_loop
walk_loop-Takes zero t va s = (omega arith, λ e. absurd cc)
walk_loop-Takes (suc level) t va s =
    let i : ℕ = px (suc level) va in
    let Goal : Option ℕ × Ram → Type 0 = λ r. Takes (suc level) s.free (resume va level r) in
    elim (descend-cases t i s) [
      | inl (v, e) ↦ subst Goal (sym e) (
          Takes-suc level s.free s.free (walk_loop true va level (pte2pa (s.tables t i)) s)
            (omega arith) (walk_loop-Takes level (pte2pa (s.tables t i)) va s))
      | inr (inl (empty, e)) ↦
          let none_free : length s.free ≡ 0 = ap length empty in
          subst Goal (sym e) (omega arith, λ d. omega (arith, none_free))
      | inr (inr (p, ps, v, free, e)) ↦
          let s1 : Ram = record s {
            tables = set_pte (clear s.tables p) t i (pa2pte p + 1);
            free = ps;
          } in
          let one_more : length s.free ≡ suc (length ps) = ap length free in
          subst Goal (sym e) (
            Takes-suc level s.free ps (walk_loop true va level p s1) (omega (arith, one_more))
              (walk_loop-Takes level p va s1))
    ]

pub walk-Takes : (root va : ℕ) (s : Ram) → Takes 2 s.free (walk root va true s)
unfolding walk
walk-Takes root va s = walk_loop-Takes 2 root va s

-- `walk` with `alloc` makes tables, changes no mapping, and answers with the entry of the address or
-- with the null pointer.
pub walk-IsWalk :
    (root va : ℕ) (owner : ℕ → Option (List ℕ)) (s : Ram)
    → IsTree owner s.tables
    → AllFresh owner s.free
    → owner root ≡ some []
    → IsWalk 2 root va owner s (walk root va true s)
unfolding walk
walk-IsWalk root va owner s tree f at_root =
    walk_loop-Grows 2 root va owner s [] tree f at_root (omega arith)
