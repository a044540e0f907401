-- ===== src/Console/Window.antt =====
-- The bytes between two indices of the console buffer.
use zrhos.Base.{
  sym, ℕ, zero, suc, ◌+◌, ◌%◌, ◌^◌, ◌≤◌, ◌<◌, ◌≡◌, refl, ap, ◌∙◌, List, [], ◌∷◌, ◌++◌, arith,
  get_or, set, length, get_or-set_ne, get_or-set_self, u32, sub32,
}

abbrev pub window : List ℕ → ℕ → ℕ → List ℕ
window buf i zero = []
window buf i (suc n) = get_or buf (i % 128) 0 ∷ window buf (u32 (i + 1)) n

pub length-window : (buf : List ℕ) (i n : ℕ) → length (window buf i n) ≡ n
length-window buf i zero = refl
length-window buf i (suc n) = ap suc (length-window buf (u32 (i + 1)) n)

-- Two windows that meet make one.
pub window-append :
    (buf : List ℕ) (i n m : ℕ)
    → i < 2 ^ 32
    → window buf i (n + m) ≡ window buf i n ++ window buf (u32 (i + n)) m
window-append buf i zero m h =
    let here : u32 (i + 0) ≡ i = omega arith in
    let same : 0 + m ≡ m = omega arith in
    ap (window buf i) same ∙ ap (λ j. window buf j m) (sym here)
window-append buf i (suc n) m h =
    let more : suc n + m ≡ suc (n + m) = omega arith in
    let meet : u32 (u32 (i + 1) + n) ≡ u32 (i + suc n) = omega arith in
    rw more (
      ap (λ l. get_or buf (i % 128) 0 ∷ l)
        (window-append buf (u32 (i + 1)) n m (omega arith)
          ∙ ap (λ j. window buf (u32 (i + 1)) n ++ window buf j m) meet))

-- One more byte at the end.
pub window-suc :
    (buf : List ℕ) (i n : ℕ)
    → i < 2 ^ 32
    → window buf i (suc n) ≡ window buf i n ++ get_or buf (u32 (i + n) % 128) 0 ∷ []
window-suc buf i n h =
    let one : suc n ≡ n + 1 = omega arith in ap (window buf i) one ∙ window-append buf i n 1 h

-- A write at `e` shows in no window of fewer than 128 bytes that ends at or before `e`.
pub window-set_before :
    (buf : List ℕ) (i n e v : ℕ)
    → i < 2 ^ 32
    → e < 2 ^ 32
    → n ≤ sub32 e i
    → sub32 e i < 128
    → window (set buf (e % 128) v) i n ≡ window buf i n
window-set_before buf i zero e v hi he fits small = refl
window-set_before buf i (suc n) e v hi he fits small =
    rw (get_or-set_ne buf (e % 128) (i % 128) v 0 (omega arith)) (
      ap (λ l. get_or buf (i % 128) 0 ∷ l)
        (window-set_before buf (u32 (i + 1)) n e v (omega arith) he (omega arith) (omega arith)))

-- Writing at the end of a window and making it longer by one appends the byte.
pub window-set_end :
    (buf : List ℕ) (i e v : ℕ)
    → i < 2 ^ 32
    → e < 2 ^ 32
    → sub32 e i < 128
    → length buf ≡ 128
    → window (set buf (e % 128) v) i (suc (sub32 e i)) ≡ window buf i (sub32 e i) ++ v ∷ []
window-set_end buf i e v hi he small full =
    let last : u32 (i + sub32 e i) % 128 ≡ e % 128 = omega arith in
    window-suc (set buf (e % 128) v) i (sub32 e i) hi
    ∙ (rw (last, get_or-set_self buf (e % 128) v 0 (omega arith))
        (ap (λ l. l ++ v ∷ []) (window-set_before buf i (sub32 e i) e v hi he (omega arith) small)))
