-- ===== src/Fs/Directory/Names.antt =====
-- What `namecmp` compares, and the memory that `readi` leaves for a directory entry.
use zrhos.Base.{
  ℕ, zero, suc, ◌+◌, ◌-◌, ◌≤◌, ◌<◌, ◌≡◌, refl, ap, ap₂, ◌∙◌, ◌⊎◌, inl, inr, Bool, true, false, ◌&&◌,
  ◌||◌, some, List, [], ◌∷◌, ◌++◌, ◌==◌, if◌then◌else◌, arith, length, Bool-cases, ℕ_discrete,
}
use zrhos.Base.Int.{sub_ℕ}
use zrhos.Klib.Compare.{strncmp, continues, difference}
use zrhos.Fs.Bitmap.{Blocks}
use zrhos.Fs.Content.Bytes.{file_byte, file_bytes}
use zrhos.Fs.Content.Read.{Sink}
use zrhos.Fs.Directory.{Local, copy_bytes, local_bytes, is_zero, same_name}

-- The two strings agree in `n` bytes from `k` on, or up to a common 0 before.
unfoldable pub agree : ℕ → Local → Local → ℕ → Bool
agree zero s t k = true
agree (suc n) s t k = (s k == t k) && ((s k == 0) || agree n s t (k + 1))

is_zero-sub_ℕ : (a b : ℕ) → is_zero (some (sub_ℕ a b)) ≡ (a == b)
is_zero-sub_ℕ zero zero = refl
is_zero-sub_ℕ (suc a) zero = ground arith
is_zero-sub_ℕ zero (suc b) = ground arith
is_zero-sub_ℕ (suc a) (suc b) = is_zero-sub_ℕ a b ∙ ground arith

is_zero-difference : (a b : ℕ) → is_zero (some (difference a b)) ≡ (a == b)
is_zero-difference a b = elim (Bool-cases ((a == 0) && (b == 0))) [
  | inl y ↦ let same : (a == b) ≡ true = ground arith in rw (y, same) refl
  | inr g ↦ rw g (is_zero-sub_ℕ a b)
]

strncmp-agree :
    (n : ℕ) (s t : Local) (k : ℕ)
    → is_zero (strncmp (local_bytes s k (suc n)) (local_bytes t k (suc n)) n) ≡ agree (suc n) s t k
unfolding strncmp local_bytes agree
strncmp-agree zero s t k = is_zero-difference (s k) (t k) ∙ ground arith
strncmp-agree (suc n) s t k = elim (Bool-cases (continues (s k) (t k))) [
  | inl y ↦
      let same : (s k == t k) ≡ true = ground arith in
      let some_byte : (s k == 0) ≡ false = ground arith in
      rw (y, same, some_byte) (strncmp-agree n s t (k + 1))
  | inr g ↦
      let ends : (s k == t k) ≡ (s k == t k) && ((s k == 0) || agree (suc n) s t (k + 1)) =
        ground arith in
      rw g (is_zero-difference (s k) (t k) ∙ ends)
]

agree_ext :
    (n : ℕ) (s t u : Local) (k : ℕ)
    → ((j : ℕ) → k ≤ j → j < k + n → t j ≡ u j)
    → agree n s t k ≡ agree n s u k
unfolding agree
agree_ext zero s t u k same = refl
agree_ext (suc n) s t u k same =
    ap₂ (λ x r. (s k == x) && ((s k == 0) || r)) (same k (omega arith) (omega arith))
      (agree_ext n s t u (k + 1) (λ j le lt. same j (omega arith) (omega arith)))

-- Names that agree in their first 15 bytes are the same to `dirlookup`.
pub same_name-agree :
    (s t u : Local) → ((j : ℕ) → j < 15 → t j ≡ u j) → same_name s t ≡ agree 15 s u 0
unfolding same_name
same_name-agree s t u same = strncmp-agree 14 s t 0 ∙ agree_ext 15 s t u 0 (λ j le lt. same j lt)

pub copy_bytes-outside :
    (l : List ℕ) (dst j : ℕ) (m : Local)
    → (j < dst) ⊎ (dst + length l ≤ j)
    → copy_bytes dst l m j ≡ m j
unfolding copy_bytes
copy_bytes-outside [] dst j m out = refl
copy_bytes-outside (x ∷ l) dst j m out =
    copy_bytes-outside l (dst + 1) j (λ a. if dst == a then x else m a) (ground arith)
    ∙ ground arith

pub copy_bytes-inside :
    (len : ℕ) (addrs : List ℕ) (d : Blocks) (off dst j : ℕ) (m : Local)
    → dst ≤ j
    → j < dst + len
    → copy_bytes dst (file_bytes addrs d off len) m j ≡ file_byte addrs d (off + (j - dst))
unfolding copy_bytes file_bytes
copy_bytes-inside zero addrs d off dst j m le lt = absurd (omega arith)
copy_bytes-inside (suc len) addrs d off dst j m le lt = elim (ℕ_discrete dst j) [
  | yes here ↦
      let at : off ≡ off + (j - dst) = omega arith in
      copy_bytes-outside (file_bytes addrs d (off + 1) len) (dst + 1) j
        (λ a. if dst == a then file_byte addrs d off else m a) (inl (omega arith))
      ∙ ground (arith, ap (file_byte addrs d) at)
  | no later ↦
      let at : off + 1 + (j - (dst + 1)) ≡ off + (j - dst) = omega arith in
      copy_bytes-inside len addrs d (off + 1) (dst + 1) j
        (λ a. if dst == a then file_byte addrs d off else m a) (omega arith) (omega arith)
      ∙ ap (file_byte addrs d) at
]

pub copy_bytes-append :
    (k l : List ℕ) (dst : ℕ) (m : Local)
    → copy_bytes (dst + length k) l (copy_bytes dst k m) ≡ copy_bytes dst (k ++ l) m
unfolding copy_bytes
copy_bytes-append [] l dst m = let at : dst + 0 ≡ dst = omega arith in ap (λ a. copy_bytes a l m) at
copy_bytes-append (x ∷ k) l dst m =
    let at : dst + suc (length k) ≡ dst + 1 + length k = omega arith in
    let w = λ (a : ℕ). if dst == a then x else m a in
    ap (λ a. copy_bytes a l (copy_bytes (dst + 1) k w)) at ∙ copy_bytes-append k l (dst + 1) w

pub copy_bytes_nil : (dst : ℕ) (m : Local) → copy_bytes dst [] m ≡ m
unfolding copy_bytes
copy_bytes_nil dst m = refl

-- The kernel's memory as a sink of `readi`.
abbrev pub kernel_sink : Sink Local
kernel_sink = record {
  put = copy_bytes;
  put_nil = copy_bytes_nil;
  put_append = λ dst k l m. copy_bytes-append k l dst m;
}
