-- ===== src/Bio/Tests.antt =====
-- Runs of the buffer cache, and the theorems at concrete caches.
use zrhos.Base.{ℕ, ◌≤◌, ◌≡◌, refl, true, none, some, List, [], ◌∷◌, arith, ◌==◌, if◌then◌else◌}
use zrhos.Lock.Semaphore.{lm_P}
use zrhos.Bio.Defs.{
  Buf, Cache, Disk, fresh, binit, binit_loop, find_cached, recycle, bget, change, find_index,
  lock_buf, fill, bread,
}
use zrhos.Bio.Unique.{holders, start, next, got, Reach-holders}
use zrhos.Bio.Counts.{Distinct, block_at, refs_at, bget-block_at}
use zrhos.Bio.Contents.{bread-miss}

-- a cache of two buffers: 1 holds block 5 for a task, 0 is free
abbrev held : Buf
held = record (fresh 1) {
  dev = 1;
  blockno = 5;
  refcnt = 1;
  valid = true;
  contents = 7 ∷ [];
  holding_task = 3;
}

abbrev two : Cache
two = held ∷ fresh 0 ∷ []

abbrev after : Cache
after = held ∷ record (fresh 0) { dev = 1; blockno = 9; refcnt = 1 } ∷ []

bget_runs : bget 1 9 two ≡ some (0, after)
unfolding bget find_cached recycle
bget_runs = refl

full_panics : bget 1 10 after ≡ none
unfolding bget find_cached recycle
full_panics = refl

two-Distinct : Distinct two
two-Distinct = ((omega arith, tt), (tt, tt))

bget-block_at_example : block_at 1 after ≡ block_at 1 two
unfolding refs_at
bget-block_at_example = bget-block_at 1 9 1 0 two after bget_runs (omega arith)

-- `binit`, then block 5 of device 1
abbrev first_use : Cache
first_use = elim (bget 1 5 binit) [ none ↦ binit | some (i, c) ↦ c ]

first_use_runs : bget 1 5 binit ≡ some (0, first_use)
unfolding bget find_cached recycle binit binit_loop
first_use_runs = refl

Reach-holders_example : holders 1 5 first_use ≤ 1
Reach-holders_example =
    Reach-holders 1 5 first_use (next start (got 1 5 0 first_use_runs)) (omega arith)

-- a disk whose blocks are a function of their number
abbrev memory_disk : Disk
memory_disk = record {
  State = ℕ → List ℕ;
  read_block = λ d n. d n;
  write_block = λ d n x m. if n == m then x else d m;
}

abbrev blank_disk : ℕ → List ℕ
blank_disk n = []

abbrev written_disk : ℕ → List ℕ
written_disk m = if 5 == m then 7 ∷ [] else []

abbrev reread : Cache
reread =
    record (fresh 0) {
      dev = 1;
      blockno = 5;
      refcnt = 1;
      valid = true;
      contents = 7 ∷ [];
      sem = (lm_P 4 (fresh 0).sem).0;
      holding_task = 4;
    }
    ∷ []

bread-miss_example : block_at 0 reread ≡ some (1, 5, true, 7 ∷ [])
unfolding bread bget find_cached recycle find_index change lock_buf fill lm_P
bread-miss_example =
    bread-miss memory_disk 4 1 5 0 written_disk (fresh 0 ∷ []) reread refl refl (tt, tt)
