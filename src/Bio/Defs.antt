-- ===== src/Bio/Defs.antt =====
-- The state and the functions of kernel/bio.c.
use zrhos.Base.{
  u32, sub32, ℕ, zero, suc, ◌+◌, Bool, true, false, not, ◌&&◌, Option, none, some, List, [], ◌∷◌,
  ◌==◌, if◌then◌else◌,
}
use zrhos.Base.Int.{pos}
use zrhos.Lock.Semaphore.{Semaphore, lm_P, lm_V}

-- `struct buf`; `index` is its place in `bcache.buf`.
pub record Buf : Type 0 where
  pub index : ℕ
  pub valid : Bool
  pub dev : ℕ
  pub blockno : ℕ
  pub sem : Semaphore
  pub refcnt : ℕ
  pub contents : List ℕ
  pub holding_task : ℕ

abbrev pub Cache : Type 0
Cache = List Buf

abbrev pub nbuf : ℕ
nbuf = 100

-- A buffer of the zeroed array after `lm_sem_init`.
abbrev pub fresh : ℕ → Buf
fresh i = record {
  index = i;
  valid = false;
  dev = 0;
  blockno = 0;
  sem = record { value = pos 1; queue = [] };
  refcnt = 0;
  contents = [];
  holding_task = 0;
}

-- The loop of `binit` puts each buffer in front, so the last one comes first.
unfoldable pub binit_loop : ℕ → Cache
binit_loop zero = []
binit_loop (suc n) = fresh n ∷ binit_loop n

unfoldable pub binit : Cache
binit = binit_loop nbuf

abbrev pub is_for : ℕ → ℕ → Buf → Bool
is_for dev blockno b = (b.dev == dev) && (b.blockno == blockno)

-- The first loop of `bget`: the buffer that holds the block, with its count raised.
unfoldable pub find_cached : ℕ → ℕ → Cache → Option (ℕ × Cache)
find_cached dev blockno [] = none
find_cached dev blockno (b ∷ c) =
    let rest = find_cached dev blockno c in
    if is_for dev blockno b
    then some (b.index, record b { refcnt = u32 (b.refcnt + 1) } ∷ c)
    else elim rest [ none ↦ none | some (i, c') ↦ some (i, b ∷ c') ]

abbrev pub recycled : ℕ → ℕ → Buf → Buf
recycled dev blockno b = record b { dev = dev; blockno = blockno; valid = false; refcnt = 1 }

-- The second loop, from the least recently released end: the last buffer with no reference.
unfoldable pub recycle : ℕ → ℕ → Cache → Option (ℕ × Cache)
recycle dev blockno [] = none
recycle dev blockno (b ∷ c) = elim (recycle dev blockno c) [
  | some (i, c') ↦ some (i, b ∷ c')
  | none ↦ if b.refcnt == 0 then some (b.index, recycled dev blockno b ∷ c) else none
]

-- `bget` up to the release of `bcache.lock`; `none` is the panic "no buffers".
unfoldable pub bget : ℕ → ℕ → Cache → Option (ℕ × Cache)
bget dev blockno c = elim (find_cached dev blockno c) [
  | some r ↦ some r
  | none ↦ recycle dev blockno c
]

-- A change of the buffer with index `i`, where it stands.
unfoldable pub change : ℕ → (Buf → Buf) → Cache → Cache
change i f [] = []
change i f (b ∷ c) = if b.index == i then f b ∷ c else b ∷ change i f c

unfoldable pub find_index : ℕ → Cache → Option Buf
find_index i [] = none
find_index i (b ∷ c) = if b.index == i then some b else find_index i c

-- The list without buffer `i`: the unlinking in `brelse`.
unfoldable pub unlink : ℕ → Cache → Cache
unlink i [] = []
unlink i (b ∷ c) = if b.index == i then c else b ∷ unlink i c

-- `lm_P(&b->sem)` by task `pid`, and `b->holding_task = getpid()` if the task does not sleep. A task
-- that sleeps sets it when it is woken, by `hold`.
unfoldable pub lock_buf : ℕ → Buf → Buf × Bool
lock_buf pid b =
    let (s, sleeps) = lm_P pid b.sem in
    if sleeps
    then (record b { sem = s }, true)
    else (record b { sem = s; holding_task = pid }, false)

unfoldable pub hold : ℕ → Buf → Buf
hold pid b = record b { holding_task = pid }

unfoldable pub put_back : Buf → Cache → Cache
put_back b c =
    let b' : Buf = record b { refcnt = sub32 b.refcnt 1 } in
    if b'.refcnt == 0 then b' ∷ unlink b.index c else change b.index (λ _. b') c

-- `brelse` by task `pid`; `none` is its panic, or a fault of `lm_V`. The task that `lm_V` wakes is
-- given back.
unfoldable pub brelse : ℕ → ℕ → Cache → Option (Cache × Option ℕ)
brelse pid i c = elim (find_index i c) [
  | none ↦ none
  | some b ↦ if not (b.holding_task == pid) then none else elim (lm_V b.sem) [
    | none ↦ none
    | some (s, woken) ↦ some (put_back (record b { sem = s }) c, woken)
  ]
]

unfoldable pub bpin : ℕ → Cache → Cache
bpin i = change i (λ b. record b { refcnt = u32 (b.refcnt + 1) })

unfoldable pub bunpin : ℕ → Cache → Cache
bunpin i = change i (λ b. record b { refcnt = sub32 b.refcnt 1 })

-- What the cache calls `virtio_disk_rw` for: whole blocks of one disk, by number. The theorems of the cache
-- assume nothing of it.
pub record Disk : Type 1 where
  pub State : Type 0
  pub read_block : State → ℕ → List ℕ
  pub write_block : State → ℕ → List ℕ → State

module _ (disk : Disk) where
  open disk use {State, read_block, write_block}

  -- The part of `bread` after `bget`, by the task that holds the buffer.
  unfoldable pub fill : State → Buf → Buf
  fill d b = if b.valid then b else record b { contents = read_block d b.blockno; valid = true }

  -- `bwrite` by task `pid`; `none` is its panic.
  unfoldable pub bwrite : ℕ → Buf → State → Option State
  bwrite pid b d =
      if not (b.holding_task == pid) then none else some (write_block d b.blockno b.contents)

  -- `bread` by task `pid` on a cache that it has to itself from `bget` on. The answer is the index;
  -- the flag says that the task sleeps for the buffer, which it then finds filled or fills itself.
  unfoldable pub bread : ℕ → ℕ → ℕ → State → Cache → Option (ℕ × Bool × Cache)
  bread pid dev blockno d c = elim (bget dev blockno c) [
    | none ↦ none
    | some (i, c') ↦ elim (find_index i c') [
      | none ↦ none
      | some b ↦
          let (b', sleeps) = lock_buf pid b in
          some (i, sleeps, change i (λ _. if sleeps then b' else fill d b') c')
    ]
  ]
