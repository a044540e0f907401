-- ===== src/File/Tests.antt =====
-- Runs of the file layer, and the theorems at concrete tables.
use zrhos.Base.{◌^◌, ◌-◌, ◌≡◌, refl, true, false, none, some, [], ◌∷◌}
use zrhos.File.{File, Files, Ofile, FileType, filealloc, fileclose, fdalloc, open_fd, sys_close}
use zrhos.File.Balance.{Balanced, open_fd-Balanced}

abbrev unused : File
unused = record {
  type = FileType.fd_none;
  ref = 0;
  readable = false;
  writable = false;
  major = 0;
  ip = 0;
  off = 0;
}

-- file 0 has two descriptors somewhere, file 1 is free
abbrev files : Files
files = record unused { ref = 2 } ∷ unused ∷ []

abbrev table : Ofile
table = some 0 ∷ none ∷ some 0 ∷ []

opens : open_fd files table ≡ (
  some (1, 1),
  record unused { ref = 2 } ∷ record unused { ref = 1 } ∷ [],
  some 0 ∷ some 1 ∷ some 0 ∷ [],
)
unfolding open_fd filealloc fdalloc
opens = refl

closes :
    sys_close 2 files table
    ≡ (true, record unused { ref = 1 } ∷ unused ∷ [], some 0 ∷ none ∷ none ∷ [])
unfolding sys_close fileclose
closes = refl

bad_descriptor : sys_close (2 ^ 32 - 1) files table ≡ (false, files, table)
unfolding sys_close
bad_descriptor = refl

open_fd-Balanced_example :
    Balanced 0 (files, table) ((open_fd files table).1, (open_fd files table).2)
open_fd-Balanced_example = open_fd-Balanced 0 files table

abbrev empty_table : Ofile
empty_table = none ∷ none ∷ none ∷ []
