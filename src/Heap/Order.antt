-- ===== src/Heap/Order.antt =====
-- Lists in ascending order, and the search for a row of pages.
use zrhos.Base.{
  ℕ, zero, suc, ◌+◌, ◌-◌, ◌*◌, ◌<◌, ◌≡◌, refl, sym, ap, ap₂, ◌∙◌, List, [], ◌∷◌, ◌++◌, reverse,
  append_assoc, append-nil, ◌==◌, ltb, reverse-append, reverse-cons, All, arith, Bool-cases, inl,
  inr,
}
use zrhos.Heap.{pgsize}
use zrhos.Heap.Release.{insert, insert_page, row, splice}
use zrhos.Heap.Big.{Search, found, ended, search}

abbrev pub Ascending : List ℕ → Type 0
Ascending [] = Unit
Ascending (x ∷ xs) = All (λ y. x < y) xs × Ascending xs

pub insert-first : (x : ℕ) (xs : List ℕ) → All (λ y. x < y) xs → insert x xs ≡ x ∷ xs
unfolding insert
insert-first x [] h = refl
insert-first x (y ∷ ys) (lt, h) = ground (arith, lt)

pub insert_page-first : (x : ℕ) (xs : List ℕ) → All (λ y. x < y) xs → insert_page x xs ≡ x ∷ xs
unfolding insert_page
insert_page-first x [] h = refl
insert_page-first x (y ∷ ys) (lt, h) = ground (arith, lt)

pub All-insert : (P : ℕ → Type 0) (x : ℕ) (xs : List ℕ) → P x → All P xs → All P (insert x xs)
unfolding insert
All-insert P x [] px h = (px, tt)
All-insert P x (y ∷ ys) px (py, h) = elim (Bool-cases (ltb y x)) [
  | inl a ↦ rw a (py, All-insert P x ys px h)
  | inr b ↦ elim (Bool-cases (ltb x y)) [
    | inl c ↦ rw (b, c) (px, (py, h))
    | inr d ↦ rw (b, d) (py, h)
  ]
]

pub All-map : (P Q : ℕ → Type 0) (xs : List ℕ) → ((x : ℕ) → P x → Q x) → All P xs → All Q xs
All-map P Q [] f h = tt
All-map P Q (x ∷ xs) f (px, h) = (f x px, All-map P Q xs f h)

pub insert-Ascending : (x : ℕ) (xs : List ℕ) → Ascending xs → Ascending (insert x xs)
unfolding insert
insert-Ascending x [] h = (tt, tt)
insert-Ascending x (y ∷ ys) (all, h) = elim (Bool-cases (ltb y x)) [
  | inl a ↦ rw a (All-insert (λ z. y < z) x ys (ground arith) all, insert-Ascending x ys h)
  | inr b ↦ elim (Bool-cases (ltb x y)) [
    | inl c ↦
        let lt : x < y = ground arith in
        rw (b, c) ((lt, All-map (λ z. y < z) (λ z. x < z) ys (λ z l. omega arith) all), (all, h))
    | inr d ↦ rw (b, d) (all, h)
  ]
]

-- A row that fits in goes where it belongs, and taking it out of the list gives the list before.
pub splice-append :
    (bp : ℕ) (run before after : List ℕ)
    → All (λ y. y < bp) before
    → All (λ y. bp < y) after
    → splice bp run (before ++ after) ≡ before ++ (run ++ after)
unfolding splice
splice-append bp run [] [] lo hi = sym (append-nil run)
splice-append bp run [] (y ∷ ys) lo (lt, hi) = ground (arith, lt)
splice-append bp run (x ∷ before) after (lt, lo) hi =
    ground (arith, lt, splice-append bp run before after lo hi)

-- What the search finds.
abbrev pub IsFound : ℕ → List ℕ → Search → Type 0
IsFound need l (found before ret after) = l ≡ reverse before ++ (row ret need ++ after)
IsFound need l (ended before ret count lp) =
    (l ≡ reverse before ++ row ret count) × (lp ≡ ret + (count - 1) * pgsize) × (count < need)

row-step : (p n : ℕ) → row p n ++ ((p + n * pgsize) ∷ []) ≡ row p (suc n)
unfolding row
row-step p zero = ap (λ q. q ∷ []) (omega arith)
row-step p (suc n) =
    ap (λ l. p ∷ l)
      (ap (λ q. row (p + pgsize) n ++ (q ∷ [])) (omega arith) ∙ row-step (p + pgsize) n)

row-suc : (p n : ℕ) → row p n ++ ((p + n * pgsize) ∷ []) ≡ row p (n + 1)
row-suc p n = row-step p n ∙ ap (row p) (omega arith)

pub row_one : (p : ℕ) → p ∷ [] ≡ row p 1
unfolding row
row_one p = refl

-- The row with the next page.
row_next :
    (ret count lp p : ℕ) (rest : List ℕ)
    → lp ≡ ret + (count - 1) * pgsize
    → 0 < count
    → lp + pgsize ≡ p
    → row ret count ++ (p ∷ rest) ≡ row ret (count + 1) ++ rest
row_next ret count lp p rest at pos next =
    let is : p ≡ ret + count * pgsize = omega arith in
    sym (append_assoc (row ret count) (p ∷ []) rest)
    ∙ ap (λ q. (row ret count ++ (q ∷ [])) ++ rest) is
    ∙ ap (λ r. r ++ rest) (row-suc ret count)

pub search-IsFound :
    (need count : ℕ) (before : List ℕ) (ret lp : ℕ) (run rest l : List ℕ)
    → reverse run ≡ row ret count
    → lp ≡ ret + (count - 1) * pgsize
    → 0 < count
    → count < need
    → l ≡ reverse before ++ (row ret count ++ rest)
    → IsFound need l (search need count before ret lp run rest)
unfolding search
search-IsFound need count before ret lp run [] l is at pos lt e =
    (e ∙ ap (λ r. reverse before ++ r) (append-nil (row ret count)), at, lt)
search-IsFound need count before ret lp run (p ∷ rest) l is at pos lt e =
    elim (Bool-cases (lp + pgsize == p)) [
      | inl y ↦
          let next : lp + pgsize ≡ p = ground arith in
          let longer =
            e ∙ ap (λ r. reverse before ++ r) (row_next ret count lp p rest at pos next) in
          elim (Bool-cases (need == count + 1)) [
            | inl z ↦
                let enough : count + 1 ≡ need = ground arith in
                rw (y, z) (longer ∙ ap (λ n. reverse before ++ (row ret n ++ rest)) enough)
            | inr m ↦
                let is' : p ≡ ret + count * pgsize = omega arith in
                rw (y, m)
                  (search-IsFound need (count + 1) before ret p (p ∷ run) rest l
                    (reverse-cons p run ∙ ap₂ (λ r q. r ++ (q ∷ [])) is is' ∙ row-suc ret count)
                    (omega arith) (omega arith) (ground arith) longer)
          ]
      | inr n ↦ rw n (
          search-IsFound need 1 (run ++ before) p p (p ∷ []) rest l (row_one p) (omega arith)
            (omega arith) (omega arith)
            (e
              ∙ sym (append_assoc (reverse before) (row ret count) (p ∷ rest))
              ∙ ap₂ (λ r q. (reverse before ++ r) ++ (q ++ rest)) (sym is) (row_one p)
              ∙ ap (λ b. b ++ (row p 1 ++ rest)) (sym (reverse-append run before))))
    ]

pub All-append : (P : ℕ → Type 0) (xs ys : List ℕ) → All P (xs ++ ys) → All P xs × All P ys
All-append P [] ys h = (tt, h)
All-append P (x ∷ xs) ys (px, h) = let (l, r) = All-append P xs ys h in ((px, l), r)

-- What is before and behind an element of an ascending list.
pub Ascending-middle :
    (xs : List ℕ) (y : ℕ) (ys : List ℕ)
    → Ascending (xs ++ (y ∷ ys))
    → All (λ x. x < y) xs × All (λ z. y < z) ys
Ascending-middle [] y ys (lt, h) = (tt, lt)
Ascending-middle (x ∷ xs) y ys (lt, h) =
    let (before, behind) = Ascending-middle xs y ys h in
    (((All-append (λ z. x < z) xs (y ∷ ys) lt).1.0, before), behind)
