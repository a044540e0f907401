-- ===== src/Keyboard/Queue.antt =====
-- The buffer as a queue that drops its oldest event when it is full.
use zrhos.Base.{
  ◌==◌, ℕ, zero, suc, ◌+◌, ◌-◌, ◌%◌, ◌^◌, ◌≤◌, ◌<◌, ◌≡◌, refl, sym, ap, ap₂, ◌∙◌, inl, inr, true,
  false, some, List, [], ◌∷◌, ◌++◌, arith, ltb, if◌then◌else◌, Bool-cases, length, drop, get_or,
  set, length-set, length-append, get_or-set_ne, get_or-set_self,
}
use zrhos.Keyboard.{KeyEvent, InputEvent, Keyboard, narrow, store, keyboard_intr}

abbrev pub blank : KeyEvent
blank = record { type = 0; code = 0; value = 0 }

abbrev pub window : List KeyEvent → ℕ → ℕ → List KeyEvent
window buf i zero = []
window buf i (suc n) = get_or buf (i % 128) blank ∷ window buf (i + 1) n

-- The events that no `read` has seen, oldest first.
abbrev pub pending : Keyboard → List KeyEvent
pending s = window s.buffer s.tail (s.head - s.tail)

pub record IsValid (s : Keyboard) : Type 0 where
  pub full_size : length s.buffer ≡ 128
  pub ordered : s.tail ≤ s.head
  pub room : s.head - s.tail ≤ 128

unfoldable pub push : KeyEvent → List KeyEvent → List KeyEvent
push x q = let longer = q ++ x ∷ [] in if ltb 128 (length longer) then drop 1 longer else longer

length-window : (buf : List KeyEvent) (i n : ℕ) → length (window buf i n) ≡ n
length-window buf i zero = refl
length-window buf i (suc n) = ap suc (length-window buf (i + 1) n)

window-set :
    (buf : List KeyEvent) (i n p : ℕ) (x : KeyEvent)
    → i + n ≤ p
    → p < i + 128
    → window (set buf (p % 128) x) i n ≡ window buf i n
window-set buf i zero p x above below = refl
window-set buf i (suc n) p x above below =
    rw (get_or-set_ne buf (p % 128) (i % 128) x blank (omega arith)) (
      ap (λ l. get_or buf (i % 128) blank ∷ l)
        (window-set buf (i + 1) n p x (omega arith) (omega arith)))

window-suc :
    (buf : List KeyEvent) (i n : ℕ)
    → window buf i (suc n) ≡ window buf i n ++ get_or buf ((i + n) % 128) blank ∷ []
window-suc buf i zero =
    let here : i ≡ i + 0 = omega arith in ap (λ j. get_or buf (j % 128) blank ∷ []) here
window-suc buf i (suc n) =
    let there : i + 1 + n ≡ i + suc n = omega arith in
    ap (λ l. get_or buf (i % 128) blank ∷ l)
      (window-suc buf (i + 1) n
        ∙ ap (λ j. window buf (i + 1) n ++ get_or buf (j % 128) blank ∷ []) there)

module _ {s : Keyboard} (v : IsValid s) (x : KeyEvent) where
  abbrev written : List KeyEvent
  written = set s.buffer (s.head % 128) x

  last-written : get_or written (s.head % 128) blank ≡ x
  last-written = get_or-set_self s.buffer (s.head % 128) x blank (omega (arith, v.full_size))

  -- The events from `i` to the new one.
  window-written :
      (i n : ℕ)
      → i + n ≡ s.head
      → n < 128
      → window written i (suc n) ≡ window s.buffer i n ++ x ∷ []
  window-written i n meet small =
      window-suc written i n
      ∙ ap₂ (λ l y. l ++ y ∷ []) (window-set s.buffer i n s.head x (omega arith) (omega arith))
          (ap (λ j. get_or written (j % 128) blank) meet ∙ last-written)

  store-IsValid : IsValid (store x s)
  store-IsValid = record {
    full_size = length-set s.buffer (s.head % 128) x ∙ v.full_size;
    ordered = ground (arith, v.ordered);
    room = ground (arith, v.ordered, v.room);
  }

  store-push : pending (store x s) ≡ push x (pending s)
  unfolding push
  store-push = elim (Bool-cases (ltb 128 (s.head + 1 - s.tail))) [
    | inl full ↦
        let held : s.head - s.tail ≡ 128 = ground (arith, v.ordered, v.room) in
        let again : s.head + 1 - (s.head + 1 - 128) ≡ 128 = ground (arith, v.ordered, v.room) in
        let from : s.head + 1 - 128 ≡ s.tail + 1 = ground (arith, v.ordered, v.room) in
        let size : length (pending s ++ x ∷ []) ≡ 129 = ground (
          arith,
          length-append (pending s) (x ∷ []),
          length-window s.buffer s.tail (s.head - s.tail),
        ) in
        rw (full, size)
          (ap₂ (window written) from again
            ∙ (window-written (s.tail + 1) 127 (omega arith) (omega arith)
                ∙ sym (ap (λ n. drop 1 (window s.buffer s.tail n ++ x ∷ [])) held)))
    | inr open_slot ↦
        let one : s.head + 1 - s.tail ≡ suc (s.head - s.tail) = ground (arith, v.ordered) in
        let size : ltb 128 (length (pending s ++ x ∷ [])) ≡ false = ground (
          arith,
          length-append (pending s) (x ∷ []),
          length-window s.buffer s.tail (s.head - s.tail),
        ) in
        rw (open_slot, size)
          (ap (window written s.tail) one
            ∙ window-written s.tail (s.head - s.tail) (omega (arith, v.ordered))
                (ground (arith, v.ordered, v.room)))
  ]

-- While its index has not reached the last `int`, an interrupt that finds the lock free returns; a
-- key event, cut to the narrower fields, goes behind the pending ones, the oldest of 128 being
-- dropped, and any other event changes nothing.
pub keyboard_intr-push :
    (e : InputEvent) (s : Keyboard)
    → IsValid s
    → s.locked ≡ false
    → s.head + 1 < 2 ^ 31
    → (t : Keyboard) × (keyboard_intr e s ≡ some t)
      × IsValid t
      × (t.locked ≡ false)
      × (pending t ≡ (if e.type == 1 then push (narrow e) (pending s) else pending s))
unfolding keyboard_intr
keyboard_intr-push e s v free small = elim (Bool-cases (e.type == 1)) [
  | inl t ↦
      let fits : ltb (s.head + 1) (2 ^ 31) ≡ true = ground arith in
      (
        store (narrow e) s,
        rw (free, t, fits),
        store-IsValid v (narrow e),
        free,
        rw t (store-push v (narrow e)),
      )
  | inr f ↦ (s, rw (free, f), v, free, rw f)
]
