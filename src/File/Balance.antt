-- ===== src/File/Balance.antt =====
-- The reference count of a file and the descriptors that point to it move together.
use zrhos.Base.{
  ◌||◌, ℕ, zero, suc, ◌+◌, ◌^◌, ◌<◌, ◌≡◌, refl, ap, inl, inr, Option, none, some, [], ◌∷◌, arith,
  ◌==◌, leb, if◌then◌else◌, Bool-cases, Option-cases, get_or, set, length, u32,
}
use zrhos.File.{
  Files, Ofile, filealloc, fileclose, filedup, fdalloc, open_fd, sys_close, dup_files, close_files,
}

-- The reference count of file `j`, 0 behind the end of the table.
pub refs : ℕ → Files → ℕ
refs j [] = 0
refs zero (f ∷ fs) = f.ref
refs (suc j) (f ∷ fs) = refs j fs

abbrev pub same : ℕ → ℕ → ℕ
same f j = if f == j then 1 else 0

abbrev points : ℕ → Option ℕ → ℕ
points j none = 0
points j (some f) = same f j

-- The number of descriptors of the table that point to file `j`.
pub fds : ℕ → Ofile → ℕ
fds j [] = 0
fds j (e ∷ t) = points j e + fds j t

-- Every descriptor points into a table of `n` files.
abbrev pub InTable : ℕ → Ofile → Type 0
InTable n [] = Unit
InTable n (none ∷ t) = InTable n t
InTable n (some f ∷ t) = (f < n) × InTable n t

-- What an operation adds to the references of a file it adds to the descriptors for it.
abbrev pub Balanced : ℕ → Files × Ofile → Files × Ofile → Type 0
Balanced j (fs, t) (fs', t') = u32 (refs j fs' + fds j t) ≡ u32 (refs j fs + fds j t')

fileclose-refs :
    (j f : ℕ) (fs : Files)
    → f < length fs
    → u32 (refs j (fileclose f fs) + same f j) ≡ u32 (refs j fs)
unfolding refs fileclose
fileclose-refs j f [] h = absurd (omega arith)
fileclose-refs zero zero (x ∷ fs) h = omega arith
fileclose-refs (suc j) zero (x ∷ fs) h = ground arith
fileclose-refs zero (suc f) (x ∷ fs) h = ground arith
fileclose-refs (suc j) (suc f) (x ∷ fs) h = ground (arith, fileclose-refs j f fs)

filedup-refs :
    (j f : ℕ) (fs : Files)
    → f < length fs
    → u32 (refs j (filedup f fs)) ≡ u32 (refs j fs + same f j)
unfolding refs filedup
filedup-refs j f [] h = absurd (omega arith)
filedup-refs zero zero (x ∷ fs) h = omega arith
filedup-refs (suc j) zero (x ∷ fs) h = ground arith
filedup-refs zero (suc f) (x ∷ fs) h = ground arith
filedup-refs (suc j) (suc f) (x ∷ fs) h = ground (arith, filedup-refs j f fs)

length-fileclose : (f : ℕ) (fs : Files) → length (fileclose f fs) ≡ length fs
unfolding fileclose
length-fileclose f [] = refl
length-fileclose zero (x ∷ fs) = refl
length-fileclose (suc f) (x ∷ fs) = ap suc (length-fileclose f fs)

length-filedup : (f : ℕ) (fs : Files) → length (filedup f fs) ≡ length fs
unfolding filedup
length-filedup f [] = refl
length-filedup zero (x ∷ fs) = refl
length-filedup (suc f) (x ∷ fs) = ap suc (length-filedup f fs)

-- `filealloc` gives out a file that had no reference, and takes the first.
pub filealloc-refs :
    (j f : ℕ) (fs fs' : Files)
    → filealloc fs ≡ some (f, fs')
    → (refs j fs' ≡ refs j fs + same f j) × (refs f fs ≡ 0) × (f < length fs')
unfolding refs filealloc
filealloc-refs j f [] fs' h = cc
filealloc-refs zero f (x ∷ fs) fs' h = elim (Option-cases (filealloc fs)) [
  | inl e ↦ ground arith
  | inr ((i, fs''), e) ↦ ground (arith, filealloc-refs 0 i fs fs'' e)
]
filealloc-refs (suc j) f (x ∷ fs) fs' h = elim (Option-cases (filealloc fs)) [
  | inl e ↦ ground arith
  | inr ((i, fs''), e) ↦ ground (arith, filealloc-refs j i fs fs'' e)
]

fdalloc-fds :
    (j f fd : ℕ) (t t' : Ofile) → fdalloc f t ≡ some (fd, t') → fds j t' ≡ fds j t + same f j
unfolding fds fdalloc
fdalloc-fds j f fd [] t' h = cc
fdalloc-fds j f fd (none ∷ t) t' h = ground arith
fdalloc-fds j f fd (some g ∷ t) t' h = elim (Option-cases (fdalloc f t)) [
  | inl e ↦ ground arith
  | inr ((i, t''), e) ↦ ground (arith, fdalloc-fds j f i t t'' e)
]

-- Opening takes one reference and one descriptor, or, when there is no file or no descriptor, none.
pub open_fd-Balanced :
    (j : ℕ) (fs : Files) (t : Ofile) → Balanced j (fs, t) ((open_fd fs t).1, (open_fd fs t).2)
unfolding open_fd
open_fd-Balanced j fs t = elim (Option-cases (filealloc fs)) [
  | inl e ↦ ground arith
  | inr ((f, fs'), e) ↦ elim (Option-cases (fdalloc f t)) [
    | inl e' ↦ ground (arith, filealloc-refs j f fs fs' e, fileclose-refs j f fs')
    | inr ((fd, t'), e') ↦ ground (arith, filealloc-refs j f fs fs' e, fdalloc-fds j f fd t t' e')
  ]
]

get_or-InTable : (n i f : ℕ) (t : Ofile) → get_or t i none ≡ some f → InTable n t → f < n
get_or-InTable n i f [] h v = cc
get_or-InTable n zero f (none ∷ t) h v = cc
get_or-InTable n zero f (some g ∷ t) h v = ground (arith, v.0)
get_or-InTable n (suc i) f (none ∷ t) h v = get_or-InTable n i f t h v
get_or-InTable n (suc i) f (some g ∷ t) h v = get_or-InTable n i f t h v.1

set-fds :
    (j i f : ℕ) (t : Ofile) → get_or t i none ≡ some f → fds j (set t i none) + same f j ≡ fds j t
unfolding fds
set-fds j i f [] h = cc
set-fds j zero f (none ∷ t) h = cc
set-fds j zero f (some g ∷ t) h = ground arith
set-fds j (suc i) f (e ∷ t) h = omega (arith, set-fds j i f t h)

-- Closing gives back one reference for the one descriptor, or does nothing.
pub sys_close-Balanced :
    (j a : ℕ) (fs : Files) (t : Ofile)
    → InTable (length fs) t
    → Balanced j (fs, t) ((sys_close a fs t).1, (sys_close a fs t).2)
unfolding sys_close
sys_close-Balanced j a fs t v = elim (Bool-cases (leb (2 ^ 31) (u32 a) || leb 100 (u32 a))) [
  | inl out ↦ rw out refl
  | inr within ↦ elim (Option-cases (get_or t (u32 a) none)) [
    | inl e ↦ rw (within, e) refl
    | inr (f, e) ↦
        rw (within, e)
          (omega (
            arith,
            fileclose-refs j f fs (get_or-InTable (length fs) (u32 a) f t e v),
            set-fds j (u32 a) f t e,
          ))
  ]
]

-- The child of a fork starts with no descriptor.
abbrev pub IsEmpty : Ofile → Type 0
IsEmpty [] = Unit
IsEmpty (none ∷ t) = IsEmpty t
IsEmpty (some f ∷ t) = ⊥

-- A fork takes one reference for each descriptor of the parent, and the child gets the same table.
pub dup_files-Balanced :
    (j : ℕ) (parent child : Ofile) (fs : Files)
    → InTable (length fs) parent
    → IsEmpty child
    → length child ≡ length parent
    → Balanced j (fs, child) ((dup_files parent child fs).0, parent)
      × ((dup_files parent child fs).1 ≡ parent)
unfolding dup_files fds
dup_files-Balanced j [] [] fs v e h = (refl, refl)
dup_files-Balanced j [] (x ∷ child) fs v e h = absurd (omega arith)
dup_files-Balanced j (x ∷ parent) [] fs v e h = absurd (omega arith)
dup_files-Balanced j (x ∷ parent) (some g ∷ child) fs v e h = absurd e
dup_files-Balanced j (none ∷ parent) (none ∷ child) fs v e h =
    let (rest, copied) = dup_files-Balanced j parent child fs v e (omega arith) in
    (omega (arith, rest), ap (λ t. none ∷ t) copied)
dup_files-Balanced j (some f ∷ parent) (none ∷ child) fs v e h =
    let (rest, copied) =
      dup_files-Balanced j parent child (filedup f fs) (rw (length-filedup f fs) v.1) e
        (omega arith) in
    (omega (arith, rest, filedup-refs j f fs v.0), ap (λ t. some f ∷ t) copied)

-- The end of a task gives back the reference of each of its descriptors, and leaves none.
pub close_files-Balanced :
    (j : ℕ) (t : Ofile) (fs : Files)
    → InTable (length fs) t
    → Balanced j (fs, t) (close_files t fs) × IsEmpty (close_files t fs).1
unfolding close_files fds
close_files-Balanced j [] fs v = (refl, tt)
close_files-Balanced j (none ∷ t) fs v =
    let (rest, empty) = close_files-Balanced j t fs v in (omega (arith, rest), empty)
close_files-Balanced j (some f ∷ t) fs v =
    let (rest, empty) =
      close_files-Balanced j t (fileclose f fs) (rw (length-fileclose f fs) v.1) in
    (omega (arith, rest, fileclose-refs j f fs v.0), empty)
