-- ===== src/Fs/Bytes.antt =====
-- The 16-bit and 32-bit fields of the disk structures of kernel/fs.h, in the bytes of a block.
use zrhos.Base.{
  ℕ, zero, suc, ◌+◌, ◌*◌, ◌/◌, ◌%◌, ◌^◌, ◌≤◌, ◌<◌, ◌≡◌, ◌≢◌, ◌⊎◌, refl, ap₂, ◌∙◌, List, [], ◌∷◌,
  arith, length, All,
}
use zrhos.Fs.Bitmap.{Blocks, write_byte}

unfoldable pub read16 : Blocks → ℕ → ℕ → ℕ
read16 d n o = d n o + 256 * d n (o + 1)

unfoldable pub read32 : Blocks → ℕ → ℕ → ℕ
read32 d n o = read16 d n o + 65536 * read16 d n (o + 2)

unfoldable pub write16 : Blocks → ℕ → ℕ → ℕ → Blocks
write16 d n o x = write_byte (write_byte d n o (x % 256)) n (o + 1) (x / 256 % 256)

unfoldable pub write32 : Blocks → ℕ → ℕ → ℕ → Blocks
write32 d n o x = write16 (write16 d n o x) n (o + 2) (x / 65536)

unfoldable pub read_words : Blocks → ℕ → ℕ → ℕ → List ℕ
read_words d n o zero = []
read_words d n o (suc count) = read32 d n o ∷ read_words d n (o + 4) count

unfoldable pub write_words : Blocks → ℕ → ℕ → List ℕ → Blocks
write_words d n o [] = d
write_words d n o (x ∷ l) = write_words (write32 d n o x) n (o + 4) l

-- Byte `j` of block `m` is not one of the `len` bytes at `o` of block `n`.
abbrev pub Outside : ℕ → ℕ → ℕ → ℕ → ℕ → Type 0
Outside n o len m j = (n ≢ m) ⊎ ((j < o) ⊎ (o + len ≤ j))

pub write16-Outside : (d : Blocks) (n o x m j : ℕ) → Outside n o 2 m j → write16 d n o x m j ≡ d m j
unfolding write16
write16-Outside d n o x m j out = ground arith

pub read16-write16 : (d : Blocks) (n o x : ℕ) → read16 (write16 d n o x) n o ≡ x % 65536
unfolding read16 write16
read16-write16 d n o x = ground arith

pub read16-outside :
    (d e : Blocks) (n o : ℕ)
    → ((j : ℕ) → o ≤ j → j < o + 2 → d n j ≡ e n j)
    → read16 d n o ≡ read16 e n o
unfolding read16
read16-outside d e n o same =
    omega (arith, same o (omega arith) (omega arith), same (o + 1) (omega arith) (omega arith))

pub write32-Outside : (d : Blocks) (n o x m j : ℕ) → Outside n o 4 m j → write32 d n o x m j ≡ d m j
unfolding write32
write32-Outside d n o x m j out =
    write16-Outside (write16 d n o x) n (o + 2) (x / 65536) m j (ground arith)
    ∙ write16-Outside d n o x m j (ground arith)

pub read32-outside :
    (d e : Blocks) (n o : ℕ)
    → ((j : ℕ) → o ≤ j → j < o + 4 → d n j ≡ e n j)
    → read32 d n o ≡ read32 e n o
unfolding read32
read32-outside d e n o same =
    let low = read16-outside d e n o (λ j le lt. same j le (omega arith)) in
    let high = read16-outside d e n (o + 2) (λ j le lt. same j (omega arith) (omega arith)) in
    omega (arith, low, high)

pub read32-write32 : (d : Blocks) (n o x : ℕ) → x < 2 ^ 32 → read32 (write32 d n o x) n o ≡ x
unfolding read32 write32
read32-write32 d n o x lt =
    let e = write16 d n o x in
    let low =
      read16-outside (write16 e n (o + 2) (x / 65536)) e n o
        (λ j le lt. write16-Outside e n (o + 2) (x / 65536) n j (ground arith)) in
    omega (arith, low, read16-write16 d n o x, read16-write16 e n (o + 2) (x / 65536))

pub write_words-Outside :
    (d : Blocks) (n o : ℕ) (l : List ℕ) (m j : ℕ)
    → Outside n o (4 * length l) m j
    → write_words d n o l m j ≡ d m j
unfolding write_words
write_words-Outside d n o [] m j out = refl
write_words-Outside d n o (x ∷ l) m j out =
    write_words-Outside (write32 d n o x) n (o + 4) l m j (ground arith)
    ∙ write32-Outside d n o x m j (ground arith)

pub read_words-outside :
    (d e : Blocks) (n o count : ℕ)
    → ((j : ℕ) → o ≤ j → j < o + 4 * count → d n j ≡ e n j)
    → read_words d n o count ≡ read_words e n o count
unfolding read_words
read_words-outside d e n o zero same = refl
read_words-outside d e n o (suc count) same =
    ap₂ (λ x l. x ∷ l) (read32-outside d e n o (λ j le lt. same j le (omega arith)))
      (read_words-outside d e n (o + 4) count (λ j le lt. same j (omega arith) (omega arith)))

pub read_words-write_words :
    (d : Blocks) (n o : ℕ) (l : List ℕ)
    → All (λ x. x < 2 ^ 32) l
    → read_words (write_words d n o l) n o (length l) ≡ l
unfolding read_words write_words
read_words-write_words d n o [] fit = refl
read_words-write_words d n o (x ∷ l) fit =
    let e = write32 d n o x in
    let kept =
      read32-outside (write_words e n (o + 4) l) e n o
        (λ j le lt. write_words-Outside e n (o + 4) l n j (ground arith)) in
    ap₂ (λ y k. y ∷ k) (kept ∙ read32-write32 d n o x fit.0)
      (read_words-write_words e n (o + 4) l fit.1)
