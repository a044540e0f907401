-- ===== src/Fs/Itable/Unique.antt =====
-- An inode of the disk has one entry in the table.
use zrhos.Base.{
  ◌-◌, some_pair, ==_refl, ℕ, zero, suc, ◌+◌, ◌^◌, ◌≤◌, ◌<◌, ◌≡◌, ◌≢◌, refl, sym, ap, ◌∙◌, ◌⊎◌, inl,
  inr, Bool, true, false, Option, none, some, arith, ◌==◌, if◌then◌else◌, Bool-cases, subst,
  ℕ_discrete, u32,
}
use zrhos.Fs.Itable.{
  Inode, Itable, ninode, update, live, holds, remember, Search, found, missing, iget_loop, iget_end,
  iget,
}

abbrev go_on : ℕ → ℕ → ℕ → ℕ → Option ℕ → Itable → Bool → Search
go_on rounds i dev inum empty s b =
    if b then found i else iget_loop rounds (i + 1) dev inum (remember empty i (s i)) s

not_found : {k : ℕ} {o : Option ℕ} → found k ≡ missing o → ⊥
not_found h = cc

pub iget_loop-found :
    (rounds i dev inum k : ℕ) (empty : Option ℕ) (s : Itable)
    → iget_loop rounds i dev inum empty s ≡ found k
    → (k < i + rounds) × (holds dev inum (s k) ≡ true)
unfolding iget_loop
iget_loop-found zero i dev inum k empty s h = absurd (not_found (sym h))
iget_loop-found (suc rounds) i dev inum k empty s h = elim (Bool-cases (holds dev inum (s i))) [
  | inl y ↦
      let at : found i ≡ found k = sym (ap (go_on rounds i dev inum empty s) y) ∙ h in
      let same : i ≡ k = cc in (omega arith, subst (λ j. holds dev inum (s j) ≡ true) same y)
  | inr f ↦
      let rest = sym (ap (go_on rounds i dev inum empty s) f) ∙ h in
      let (lt, y) = iget_loop-found rounds (i + 1) dev inum k (remember empty i (s i)) s rest in
      (omega arith, y)
]

iget_loop-missing :
    (rounds i dev inum j : ℕ) (empty o : Option ℕ) (s : Itable)
    → iget_loop rounds i dev inum empty s ≡ missing o
    → i ≤ j
    → j < i + rounds
    → holds dev inum (s j) ≡ false
unfolding iget_loop
iget_loop-missing zero i dev inum j empty o s h le lt = absurd (omega arith)
iget_loop-missing (suc rounds) i dev inum j empty o s h le lt =
    elim (Bool-cases (holds dev inum (s i))) [
      | inl y ↦ absurd (not_found (sym (ap (go_on rounds i dev inum empty s) y) ∙ h))
      | inr f ↦
          let rest = sym (ap (go_on rounds i dev inum empty s) f) ∙ h in
          elim (ℕ_discrete i j) [
            | yes e ↦ subst (λ j. holds dev inum (s j) ≡ false) e f
            | no ne ↦
                iget_loop-missing rounds (i + 1) dev inum j (remember empty i (s i)) o s rest
                  (omega arith) (omega arith)
          ]
    ]

abbrev IsEmptySlot : ℕ → Itable → Option ℕ → Type 0
IsEmptySlot to s none = Unit
IsEmptySlot to s (some k) = (k < to) × ((s k).ref ≡ 0)

remember-IsEmptySlot :
    (to i : ℕ) (empty : Option ℕ) (s : Itable)
    → i < to
    → IsEmptySlot to s empty
    → IsEmptySlot to s (remember empty i (s i))
remember-IsEmptySlot to i (some k) s lt h = h
remember-IsEmptySlot to i none s lt h = elim (Bool-cases ((s i).ref == 0)) [
  | inl y ↦ subst (λ b. IsEmptySlot to s (if b then some i else none)) (sym y) (lt, ground arith)
  | inr f ↦ subst (λ b. IsEmptySlot to s (if b then some i else none)) (sym f) tt
]

iget_loop-empty :
    (rounds i to dev inum : ℕ) (empty o : Option ℕ) (s : Itable)
    → i + rounds ≤ to
    → IsEmptySlot to s empty
    → iget_loop rounds i dev inum empty s ≡ missing o
    → IsEmptySlot to s o
unfolding iget_loop
iget_loop-empty zero i to dev inum empty o s le h e =
    let same : empty ≡ o = cc in subst (IsEmptySlot to s) same h
iget_loop-empty (suc rounds) i to dev inum empty o s le h e =
    elim (Bool-cases (holds dev inum (s i))) [
      | inl y ↦ absurd (not_found (sym (ap (go_on rounds i dev inum empty s) y) ∙ e))
      | inr f ↦
          iget_loop-empty rounds (i + 1) to dev inum (remember empty i (s i)) o s (omega arith)
            (remember-IsEmptySlot to i empty s (omega arith) h)
            (sym (ap (go_on rounds i dev inum empty s) f) ∙ e)
    ]

-- Two live entries are of different inodes.
abbrev pub IsUnique : Itable → Type 0
IsUnique s =
    (j k : ℕ)
    → j < ninode
    → k < ninode
    → live (s j) ≡ true
    → holds (s j).dev (s j).inum (s k) ≡ true
    → j ≡ k

pub Search-cases :
    (x : Search)
    → ((k : ℕ) × (x ≡ found k)) ⊎ (x ≡ missing none) ⊎ ((k : ℕ) × (x ≡ missing (some k)))
Search-cases (found k) = inl (k, refl)
Search-cases (missing none) = inr (inl refl)
Search-cases (missing (some k)) = inr (inr (k, refl))

-- A change of one entry, which is the only one for its inode then.
update-IsUnique :
    (k : ℕ) (v : Inode) (s : Itable)
    → k < ninode
    → IsUnique s
    → ((j : ℕ) → j < ninode → j ≢ k → holds v.dev v.inum (s j) ≡ false)
    → IsUnique (update s k v)
update-IsUnique k v s lk u alone a b la lb live_a same = elim (ℕ_discrete k a) [
  | yes ka ↦ elim (ℕ_discrete k b) [
    | yes kb ↦ omega arith
    | no nb ↦ absurd (ground (arith, alone b lb (λ e. nb (sym e))))
  ]
  | no na ↦ elim (ℕ_discrete k b) [
    | yes kb ↦ absurd (ground (arith, alone a la (λ e. na (sym e))))
    | no nb ↦ u a b la lb (ground arith) (ground arith)
  ]
]

pub no_answer : {k : ℕ} {t : Itable} → ◌≡◌ {A = Option (ℕ × Itable)} none (some (k, t)) → ⊥
no_answer h = cc

-- The answer of `iget` is entry `i`, which is `v` now.
entry :
    (dev inum i k : ℕ) (v : Inode) (s s' : Itable)
    → i < ninode
    → IsUnique s
    → ((j : ℕ) → j < ninode → j ≢ i → holds dev inum (s j) ≡ false)
    → holds dev inum v ≡ true
    → v.ref ≡ (s i).ref + 1
    → ◌≡◌ {A = Option (ℕ × Itable)} (some (i, update s i v)) (some (k, s'))
    → IsUnique s' × (holds dev inum (s' k) ≡ true) × ((s' k).ref ≡ (s k).ref + 1)
entry dev inum i k v s s' li u alone hv one h =
    let (at, is) = some_pair h in
    let here : update s i v i ≡ v = ap (λ b. if b then v else s i) (==_refl i) in
    let done : IsUnique (update s i v)
        × (holds dev inum (update s i v i) ≡ true)
        × ((update s i v i).ref ≡ (s i).ref + 1) =
      (
        update-IsUnique i v s li u (λ j lj ne. ground (arith, alone j lj ne)),
        ap (holds dev inum) here ∙ hv,
        ap (λ x. x.ref) here ∙ one,
      ) in
    subst (λ t. IsUnique t × (holds dev inum (t k) ≡ true) × ((t k).ref ≡ (s k).ref + 1)) is
      (subst
        (λ c.
          IsUnique (update s i v)
          × (holds dev inum (update s i v c) ≡ true)
          × ((update s i v c).ref ≡ (s c).ref + 1))
        at done)

only_one :
    (dev inum i j : ℕ) (s : Itable)
    → IsUnique s
    → i < ninode
    → j < ninode
    → holds dev inum (s i) ≡ true
    → j ≢ i
    → holds dev inum (s j) ≡ false
only_one dev inum i j s u li lj hi ne = elim (Bool-cases (holds dev inum (s j))) [
  | inl y ↦ absurd (ne (u j i lj li (ground arith) (ground arith)))
  | inr f ↦ f
]

-- `iget` keeps that an inode of the disk has one entry. It answers with the entry of the inode, with
-- one reference more when it was there before and with one when it is new.
pub iget-IsUnique :
    (dev inum k : ℕ) (s s' : Itable)
    → ((j : ℕ) → (s j).ref < 2 ^ 31 - 1)
    → IsUnique s
    → iget dev inum s ≡ some (k, s')
    → IsUnique s' × (holds dev inum (s' k) ≡ true) × ((s' k).ref ≡ (s k).ref + 1)
unfolding iget iget_end
iget-IsUnique dev inum k s s' small u h = elim (Search-cases (iget_loop ninode 0 dev inum none s)) [
  | inl (i, e) ↦
      let (li, hi) = iget_loop-found ninode 0 dev inum i none s e in
      let low = small i in
      entry dev inum i k (record (s i) { ref = u32 ((s i).ref + 1) }) s s' (omega arith) u
        (λ j lj ne. only_one dev inum i j s u (omega arith) lj hi ne) (ground arith) (omega arith)
        (sym (ap (iget_end dev inum s) e) ∙ h)
  | inr (inl e) ↦ absurd (no_answer (sym (ap (iget_end dev inum s) e) ∙ h))
  | inr (inr (i, e)) ↦
      let (li, zero_ref) =
        iget_loop-empty ninode 0 ninode dev inum none (some i) s (omega arith) tt e in
      entry dev inum i k (record (s i) { dev = dev; inum = inum; ref = 1; valid = false }) s s' li u
        (λ j lj ne.
          iget_loop-missing ninode 0 dev inum j none (some i) s e (omega arith) (omega arith))
        (ground arith) (omega arith) (sym (ap (iget_end dev inum s) e) ∙ h)
]
