-- ===== src/Klib/Tests.antt =====
-- Runs of the kernel library, and the theorems at concrete strings and memories.
use zrhos.Base.{ℕ, ◌≡◌, refl, some, List, [], ◌∷◌, ◌++◌, arith, inr}
use zrhos.Base.Int.{pos, negsuc}
use zrhos.Klib.Strings.{strncpy, strncpy_end, strncpy_loop, NonZero}
use zrhos.Klib.Compare.{strncmp}
use zrhos.Klib.Numbers.{itoa, digits_loop}
use zrhos.Klib.Format.{
  Piece, literal, decimal, string, pointer, int_arg, long_arg, vsprintf, hex_loop, format_of,
  args_of, IsTextOf, vsprintf-IsTextOf,
}
use zrhos.Klib.Memory.{memmove, copied, memmove-copied}

-- "ab" and "abc"
abbrev ab : List ℕ
ab = 97 ∷ 98 ∷ []

abbrev abc : List ℕ
abc = 97 ∷ 98 ∷ 99 ∷ []

abbrev room : List ℕ
room = 1 ∷ 2 ∷ 3 ∷ 4 ∷ 5 ∷ []

-- no byte of the 14 of a directory entry is left for a name of 14
cut : strncpy room (abc ++ (0 ∷ [])) 3 ≡ some (97 ∷ 98 ∷ 0 ∷ 4 ∷ 5 ∷ [])
unfolding strncpy strncpy_end strncpy_loop
cut = refl

one_byte_more : strncmp (ab ++ (0 ∷ [])) (abc ++ (0 ∷ [])) 2 ≡ some (negsuc 98)
unfolding strncmp
one_byte_more = refl

negative : itoa (negsuc 41) ≡ 45 ∷ 52 ∷ 50 ∷ []
unfolding itoa digits_loop
negative = refl

ab-NonZero : NonZero ab
ab-NonZero = (omega arith, (omega arith, tt))

abc-NonZero : NonZero abc
abc-NonZero = (omega arith, ab2)
  where
    ab2 : NonZero (98 ∷ 99 ∷ [])
    ab2 = (omega arith, (omega arith, tt))

abbrev bytes : ℕ → ℕ
bytes a = a

-- overlapping ranges, upwards
memmove-copied_example : memmove 5000 12 10 5 bytes 14 ≡ copied 12 10 5 bytes 14
memmove-copied_example =
    memmove-copied 5000 12 10 5 bytes 14 (inr (omega arith)) (inr (omega arith))
      (inr (inr (omega arith))) refl

-- "%d:%s%p" and its arguments
abbrev pieces : List Piece
pieces = decimal (negsuc 41) ∷ literal 58 refl ∷ string abc ∷ pointer 255 ∷ []

prints :
    vsprintf (37 ∷ 100 ∷ 58 ∷ 37 ∷ 112 ∷ []) (int_arg (pos 7) ∷ long_arg 255 ∷ [])
    ≡ some (55 ∷ 58 ∷ 48 ∷ 120 ∷ 102 ∷ 102 ∷ [])
unfolding vsprintf itoa digits_loop hex_loop
prints = refl

vsprintf-IsTextOf_example :
    (t : List ℕ) × (vsprintf (format_of pieces) (args_of pieces) ≡ some t) × IsTextOf pieces t
vsprintf-IsTextOf_example = vsprintf-IsTextOf pieces
