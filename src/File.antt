-- ===== src/File.antt =====
-- kernel/file.c, the file descriptors of kernel/sysfile.c, and what fork and the end of a task do
-- with them in kernel/proc.c. A file is its index in `ftable.files`; a descriptor table is the array
-- `ofile` of a task. Each call holds `ftable.lock`, so it is one step.
pub mod Balance
mod Tests
use zrhos.Base.{
  ℕ, zero, suc, ◌+◌, ◌^◌, ◌≡◌, Bool, true, false, ◌&&◌, ◌||◌, Option, none, some, List, [], ◌∷◌,
  ◌==◌, leb, if◌then◌else◌, get_or, set, u32, sub32,
}

-- `file_t`; `ref` and `off` are 32-bit patterns.
pub data FileType : Type 0 where
  fd_none fd_device fd_inode : FileType

pub record File : Type 0 where
  pub type : FileType
  pub ref : ℕ
  pub readable : Bool
  pub writable : Bool
  pub major : ℕ
  pub ip : ℕ
  pub off : ℕ

abbrev pub Files : Type 0
Files = List File

abbrev pub Ofile : Type 0
Ofile = List (Option ℕ)

abbrev pub nofile : ℕ
nofile = 100

-- The first file with no reference, with one now; `none` is the null pointer.
unfoldable pub filealloc : Files → Option (ℕ × Files)
filealloc [] = none
filealloc (f ∷ fs) =
    let rest = filealloc fs in
    if f.ref == 0
    then some (0, record f { ref = 1 } ∷ fs)
    else elim rest [ none ↦ none | some (i, fs') ↦ some (suc i, f ∷ fs') ]

unfoldable pub fileclose : ℕ → Files → Files
fileclose i [] = []
fileclose zero (f ∷ fs) = record f { ref = sub32 f.ref 1 } ∷ fs
fileclose (suc i) (f ∷ fs) = f ∷ fileclose i fs

unfoldable pub filedup : ℕ → Files → Files
filedup i [] = []
filedup zero (f ∷ fs) = record f { ref = u32 (f.ref + 1) } ∷ fs
filedup (suc i) (f ∷ fs) = f ∷ filedup i fs

-- The first free descriptor, pointing to `f` now; `none` is -1.
unfoldable pub fdalloc : ℕ → Ofile → Option (ℕ × Ofile)
fdalloc f [] = none
fdalloc f (none ∷ t) = some (0, some f ∷ t)
fdalloc f (some g ∷ t) = elim (fdalloc f t) [
  | none ↦ none
  | some (fd, t') ↦ some (suc fd, some g ∷ t')
]

-- The part of `sys_open` that finds a file and a descriptor, with the way back when there is no
-- descriptor. The answer is the descriptor and the file.
unfoldable pub open_fd : Files → Ofile → Option (ℕ × ℕ) × Files × Ofile
open_fd fs t = elim (filealloc fs) [
  | none ↦ (none, fs, t)
  | some (f, fs') ↦ elim (fdalloc f t) [
    | none ↦ (none, fileclose f fs', t)
    | some (fd, t') ↦ (some (fd, f), fs', t')
  ]
]

-- `sys_close` on the 64-bit argument `a`, which is cut to an `int`; the flag is the result 0.
unfoldable pub sys_close : ℕ → Files → Ofile → Bool × Files × Ofile
sys_close a fs t =
    let fd = u32 a in
    if leb (2 ^ 31) fd || leb nofile fd then (false, fs, t) else elim (get_or t fd none) [
      | none ↦ (false, fs, t)
      | some f ↦ (true, fileclose f fs, set t fd none)
    ]

-- The loop of `sys_fork` over the descriptors of parent and child.
unfoldable pub dup_files : Ofile → Ofile → Files → Files × Ofile
dup_files [] child fs = (fs, child)
dup_files (e ∷ parent) [] fs = (fs, [])
dup_files (none ∷ parent) (c ∷ child) fs =
    let (fs', child') = dup_files parent child fs in (fs', c ∷ child')
dup_files (some f ∷ parent) (c ∷ child) fs =
    let (fs', child') = dup_files parent child (filedup f fs) in (fs', some f ∷ child')

-- The loop of `free_task`.
unfoldable pub close_files : Ofile → Files → Files × Ofile
close_files [] fs = (fs, [])
close_files (none ∷ t) fs = let (fs', t') = close_files t fs in (fs', none ∷ t')
close_files (some f ∷ t) fs = let (fs', t') = close_files t (fileclose f fs) in (fs', none ∷ t')
