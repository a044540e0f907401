-- ===== src/Fs/Path/Laws.antt =====
-- `skipelem` against the elements of a path.
use zrhos.Base.{
  sym, subst, ℕ, zero, suc, ◌<◌, ◌≡◌, refl, ap, ◌∙◌, ◌⊎◌, inl, inr, true, false, not, none, some,
  List, [], ◌∷◌, ◌++◌, arith, ◌==◌, leb, if◌then◌else◌, Bool-cases, length, take, drop, All,
}
use zrhos.Fs.Path.{slash, dirsiz, skip_slashes, span, store_name, first_element, skipelem}

-- The elements of a path: its runs of bytes other than the slash. `pieces` gives the run at the
-- front, perhaps empty, and the others.
abbrev pub add_run : List ℕ → List (List ℕ) → List (List ℕ)
add_run [] ws = ws
add_run (c ∷ w) ws = (c ∷ w) ∷ ws

unfoldable pub pieces : List ℕ → List ℕ × List (List ℕ)
pieces [] = ([], [])
pieces (c ∷ s) = let (w, ws) = pieces s in if c == slash then ([], add_run w ws) else (c ∷ w, ws)

unfoldable pub elements : List ℕ → List (List ℕ)
elements s = let (w, ws) = pieces s in add_run w ws

abbrev pub NonZero : List ℕ → Type 0
NonZero s = All (λ c. 0 < c) s

-- `name` read back as `strncmp(…, DIRSIZ)` reads it: up to a 0, or 14 bytes.
unfoldable pub name_text : ℕ → List ℕ → List ℕ
name_text zero l = []
name_text (suc k) [] = []
name_text (suc k) (c ∷ l) = let rest = name_text k l in if c == 0 then [] else c ∷ rest

pieces-slash : (c : ℕ) (s : List ℕ) → (c == slash) ≡ true → pieces (c ∷ s) ≡ ([], elements s)
unfolding elements pieces
pieces-slash c s t =
    ap
      (λ b. if b then ([], add_run (pieces s).0 (pieces s).1) else (c ∷ (pieces s).0, (pieces s).1))
      t

pieces-other :
    (c : ℕ) (s : List ℕ) → (c == slash) ≡ false → pieces (c ∷ s) ≡ (c ∷ (pieces s).0, (pieces s).1)
unfolding elements pieces
pieces-other c s t =
    ap
      (λ b. if b then ([], add_run (pieces s).0 (pieces s).1) else (c ∷ (pieces s).0, (pieces s).1))
      t

skip_slashes-elements : (s : List ℕ) → elements (skip_slashes s) ≡ elements s
unfolding skip_slashes elements
skip_slashes-elements [] = refl
skip_slashes-elements (c ∷ s) = elim (Bool-cases (c == slash)) [
  | inl t ↦
      let skip : skip_slashes (c ∷ s) ≡ skip_slashes s =
        ap (λ b. if b then skip_slashes s else c ∷ s) t in
      ap elements skip
      ∙ skip_slashes-elements s
      ∙ sym (ap (λ p. add_run p.0 p.1) (pieces-slash c s t))
  | inr f ↦ ap (λ b. elements (if b then skip_slashes s else c ∷ s)) f
]

pieces-nil : ((pieces []).0 ≡ []) × ((pieces []).1 ≡ elements [])
unfolding pieces elements
pieces-nil = (refl, refl)

elements-slash : (c : ℕ) (s : List ℕ) → (c == slash) ≡ true → elements (c ∷ s) ≡ elements s
unfolding elements
elements-slash c s t = ap (λ p. add_run p.0 p.1) (pieces-slash c s t)

span-other :
    (c : ℕ) (s : List ℕ) → (c == slash) ≡ false → span (c ∷ s) ≡ (c ∷ (span s).0, (span s).1)
unfolding span
span-other c s f = ap (λ b. if not b then (c ∷ (span s).0, (span s).1) else ([], c ∷ s)) f

-- The run at the front is what `span` passes.
span-pieces : (s : List ℕ) → ((pieces s).0 ≡ (span s).0) × ((pieces s).1 ≡ elements (span s).1)
unfolding span
span-pieces [] = pieces-nil
span-pieces (c ∷ s) =
    let (front, back) = span-pieces s in
    elim (Bool-cases (c == slash)) [
      | inl t ↦
          let stop : span (c ∷ s) ≡ ([], c ∷ s) =
            ap (λ b. if not b then (c ∷ (span s).0, (span s).1) else ([], c ∷ s)) t in
          (
            ap (λ p. p.0) (pieces-slash c s t) ∙ sym (ap (λ p. p.0) stop),
            ap (λ p. p.1) (pieces-slash c s t)
                ∙ sym (elements-slash c s t)
                ∙ sym (ap (λ p. elements p.1) stop),
          )
      | inr f ↦
          let go = span-other c s f in
          (
            ap (λ p. p.0) (pieces-other c s f) ∙ ap (λ w. c ∷ w) front ∙ sym (ap (λ p. p.0) go),
            ap (λ p. p.1) (pieces-other c s f) ∙ back ∙ sym (ap (λ p. elements p.1) go),
          )
    ]

-- A path that does not start with a slash.
abbrev pub NoSlash : List ℕ → Type 0
NoSlash [] = Unit
NoSlash (c ∷ s) = (c == slash) ≡ false

skip_slashes-NoSlash : (s : List ℕ) → NoSlash (skip_slashes s)
unfolding skip_slashes
skip_slashes-NoSlash [] = tt
skip_slashes-NoSlash (c ∷ s) = elim (Bool-cases (c == slash)) [
  | inl t ↦
      subst NoSlash (sym (ap (λ b. if b then skip_slashes s else c ∷ s) t)) (skip_slashes-NoSlash s)
  | inr f ↦ subst NoSlash (sym (ap (λ b. if b then skip_slashes s else c ∷ s) f)) f
]

name_text-take : (k : ℕ) (e : List ℕ) → NonZero e → name_text k (take k e) ≡ take k e
unfolding name_text
name_text-take zero e nz = refl
name_text-take (suc k) [] nz = refl
name_text-take (suc k) (c ∷ e) (h, nz) =
    let nonzero : (c == 0) ≡ false = ground arith in
    ap (λ b. if b then [] else c ∷ name_text k (take k e)) nonzero
    ∙ ap (λ l. c ∷ l) (name_text-take k e nz)

name_text-zero :
    (k : ℕ) (e r : List ℕ) → NonZero e → length e < k → name_text k (e ++ (0 ∷ r)) ≡ take k e
unfolding name_text
name_text-zero zero e r nz lt = absurd (omega arith)
name_text-zero (suc k) [] r nz lt = refl
name_text-zero (suc k) (c ∷ e) r (h, nz) lt =
    let nonzero : (c == 0) ≡ false = ground arith in
    ap (λ b. if b then [] else c ∷ name_text k (e ++ (0 ∷ r))) nonzero
    ∙ ap (λ l. c ∷ l) (name_text-zero k e r nz (omega arith))

-- A stored element reads back as its first 14 bytes.
name_text-store_name :
    (e name : List ℕ) → NonZero e → name_text dirsiz (store_name e name) ≡ take dirsiz e
unfolding store_name
name_text-store_name e name nz = elim (Bool-cases (leb dirsiz (length e))) [
  | inl long ↦
      ap
        (λ b. name_text dirsiz (if b then take dirsiz e else e ++ (0 ∷ drop (suc (length e)) name)))
        long
      ∙ name_text-take dirsiz e nz
  | inr short ↦
      ap
        (λ b. name_text dirsiz (if b then take dirsiz e else e ++ (0 ∷ drop (suc (length e)) name)))
        short
      ∙ name_text-zero dirsiz e (drop (suc (length e)) name) nz (ground arith)
]

elements-nil : elements [] ≡ []
unfolding elements pieces
elements-nil = refl

-- The first element of a path that starts with another byte than a slash.
elements-span :
    (c : ℕ) (s : List ℕ)
    → (c == slash) ≡ false
    → elements (c ∷ s) ≡ (span (c ∷ s)).0 ∷ elements (skip_slashes (span (c ∷ s)).1)
unfolding elements
elements-span c s f =
    ap (λ p. add_run p.0 p.1) (pieces-other c s f)
    ∙ ap (λ w. (c ∷ w) ∷ (pieces s).1) (span-pieces s).0
    ∙ ap (λ w. (c ∷ (span s).0) ∷ w) ((span-pieces s).1 ∙ sym (skip_slashes-elements (span s).1))
    ∙ sym (ap (λ p. p.0 ∷ elements (skip_slashes p.1)) (span-other c s f))

skip_slashes-NonZero : (s : List ℕ) → NonZero s → NonZero (skip_slashes s)
unfolding skip_slashes
skip_slashes-NonZero [] a = tt
skip_slashes-NonZero (c ∷ s) (h, a) = elim (Bool-cases (c == slash)) [
  | inl t ↦
      subst NonZero (sym (ap (λ b. if b then skip_slashes s else c ∷ s) t))
        (skip_slashes-NonZero s a)
  | inr f ↦ subst NonZero (sym (ap (λ b. if b then skip_slashes s else c ∷ s) f)) (h, a)
]

span-NonZero : (s : List ℕ) → NonZero s → NonZero (span s).0
unfolding span
span-NonZero [] a = tt
span-NonZero (c ∷ s) (h, a) = elim (Bool-cases (c == slash)) [
  | inl t ↦
      subst (λ (p : List ℕ × List ℕ). NonZero p.0)
        (sym (ap (λ b. if not b then (c ∷ (span s).0, (span s).1) else ([], c ∷ s)) t)) tt
  | inr f ↦
      subst (λ (p : List ℕ × List ℕ). NonZero p.0) (sym (span-other c s f)) (h, span-NonZero s a)
]

List-cases : (s : List ℕ) → (s ≡ []) ⊎ ((c : ℕ) × (t : List ℕ) × (s ≡ c ∷ t))
List-cases [] = inl refl
List-cases (c ∷ t) = inr (c, t, refl)

-- `skipelem` answers the null pointer exactly on a path with no element. Otherwise it takes the first
-- element off: the rest has the other elements and starts with none of the slashes, and `name` reads as the element, cut
-- to 14 bytes.
pub skipelem-elements :
    (path name : List ℕ)
    → NonZero path
    → ((skipelem path name ≡ none) × (elements path ≡ []))
      ⊎ ((e rest name' : List ℕ) × (skipelem path name ≡ some (rest, name'))
          × (elements path ≡ e ∷ elements rest)
          × (name_text dirsiz name' ≡ take dirsiz e)
          × NoSlash rest)
unfolding skipelem first_element
skipelem-elements path name nz = elim (List-cases (skip_slashes path)) [
  | inl e ↦ inl (
    ap (λ t. first_element t name) e,
    sym (skip_slashes-elements path) ∙ ap elements e ∙ elements-nil,
  )
  | inr (c, s, e) ↦
      let first : (c == slash) ≡ false = subst NoSlash e (skip_slashes-NoSlash path) in
      let bytes = subst NonZero e (skip_slashes-NonZero path nz) in
      let (run, r) = span (c ∷ s) in
      inr (
        run,
        skip_slashes r,
        store_name run name,
        ap (λ t. first_element t name) e,
        sym (skip_slashes-elements path) ∙ ap elements e ∙ elements-span c s first,
        name_text-store_name run name (span-NonZero (c ∷ s) bytes),
        skip_slashes-NoSlash r,
      )
]
