-- ===== src/Fs/Path.antt =====
-- `skipelem` of kernel/fs.c: the next element of a path. A path is its bytes before the final 0.
pub mod Laws
use zrhos.Base.{
  sym, subst, ℕ, zero, suc, ◌+◌, ◌≤◌, ◌<◌, ◌≡◌, ◌≢◌, refl, ap, ◌∙◌, ◌⊎◌, inl, inr, Bool, true,
  false, not, Option, none, some, List, [], ◌∷◌, ◌++◌, arith, ◌==◌, leb, if◌then◌else◌, Bool-cases,
  length, take, drop, All,
}

abbrev pub slash : ℕ
slash = 47

-- `DIRSIZ`
abbrev pub dirsiz : ℕ
dirsiz = 14

-- `while(*path == '/') path++;`
unfoldable pub skip_slashes : List ℕ → List ℕ
skip_slashes [] = []
skip_slashes (c ∷ s) = if c == slash then skip_slashes s else c ∷ s

-- `while(*path != '/' && *path != 0) path++;`: what was passed, and what is left.
unfoldable pub span : List ℕ → List ℕ × List ℕ
span [] = ([], [])
span (c ∷ s) = let (e, r) = span s in if not (c == slash) then (c ∷ e, r) else ([], c ∷ s)

-- The element goes into `name`, 14 bytes at most, with a 0 behind it where there is room.
unfoldable pub store_name : List ℕ → List ℕ → List ℕ
store_name e name =
    if leb dirsiz (length e) then take dirsiz e else e ++ (0 ∷ drop (suc (length e)) name)

-- Behind the leading slashes: the rest of the path, and the new `name`; `none` is the null pointer.
unfoldable pub first_element : List ℕ → List ℕ → Option (List ℕ × List ℕ)
first_element [] name = none
first_element (c ∷ s) name = let (e, r) = span (c ∷ s) in some (skip_slashes r, store_name e name)

unfoldable pub skipelem : List ℕ → List ℕ → Option (List ℕ × List ℕ)
skipelem path name = first_element (skip_slashes path) name
