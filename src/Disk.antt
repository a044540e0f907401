-- ===== src/Disk.antt =====
-- kernel/virtio_disk.c: the descriptors of disk requests. Every function here holds
-- `disk.vdisk_lock`, so a call up to the next `sleep` is one step.
pub mod Alloc
pub mod Chain
pub mod Interrupt
pub mod Requests
mod Tests
use zrhos.Base.{
  ◌-◌, ℕ, zero, suc, ◌+◌, ◌*◌, ◌/◌, ◌%◌, ◌^◌, Bool, true, false, not, Option, none, some, ◌==◌, leb,
  if◌then◌else◌, u32,
}
use zrhos.Base.Bits.{has_bit, with_bit}

-- `NUM` of kernel/virtio.h
abbrev pub num : ℕ
num = 64

-- `struct virtq_desc`
pub record Desc : Type 0 where
  pub addr : ℕ
  pub len : ℕ
  pub flags : ℕ
  pub next : ℕ

-- What the driver keeps for a request, at its first descriptor: `ops` and `info`.
pub record Request : Type 0 where
  pub type : ℕ
  pub sector : ℕ
  pub buf : Option ℕ
  pub status : ℕ

-- `disk`: the arrays by index, below `num`; the ring and index of `avail`, and which buffers wait
-- for the disk.
pub record Disk : Type 0 where
  pub free : ℕ → Bool
  pub desc : ℕ → Desc
  pub request : ℕ → Request
  pub ring : ℕ → ℕ
  pub avail_idx : ℕ
  pub used_idx : ℕ
  pub pending : ℕ → Bool

abbrev pub update {ℓ} : {A : Type ℓ} → (ℕ → A) → ℕ → A → ℕ → A
update f i v j = if i == j then v else f j

unfoldable pub find_free : ℕ → ℕ → (ℕ → Bool) → Option ℕ
find_free zero i free = none
find_free (suc rounds) i free =
    let rest = find_free rounds (i + 1) free in if free i then some i else rest

-- `none` is -1.
unfoldable pub alloc_desc : Disk → Option (ℕ × Disk)
alloc_desc d = elim (find_free num 0 d.free) [
  | none ↦ none
  | some i ↦ some (i, record d { free = update d.free i false })
]

abbrev pub blank : Desc
blank = record { addr = 0; len = 0; flags = 0; next = 0 }

-- `none` is a panic.
unfoldable pub free_desc : ℕ → Disk → Option Disk
free_desc i d =
    if leb num i
    then none
    else if d.free i
    then none
    else some (record d { desc = update d.desc i blank; free = update d.free i true })

abbrev pub has_next : Desc → Bool
has_next c = has_bit c.flags 0

-- The chain loop. A descriptor is freed once, so `num` rounds end it or panic.
unfoldable pub free_chain : ℕ → ℕ → Disk → Option Disk
free_chain zero i d = none
free_chain (suc rounds) i d = elim (free_desc i d) [
  | none ↦ none
  | some d' ↦ elim (has_next (d.desc i)) [
    | true ↦ free_chain rounds (d.desc i).next d'
    | false ↦ some d'
  ]
]

-- The outer `none` is a panic, the inner one is -1.
unfoldable pub alloc3_desc : Disk → Option (Option (ℕ × ℕ × ℕ) × Disk)
alloc3_desc d = elim (alloc_desc d) [
  | none ↦ some (none, d)
  | some (a, d1) ↦ elim (alloc_desc d1) [
    | none ↦ elim (free_desc a d1) [ none ↦ none | some d' ↦ some (none, d') ]
    | some (b, d2) ↦ elim (alloc_desc d2) [
      | none ↦ elim (free_desc a d2) [
        | none ↦ none
        | some d' ↦ elim (free_desc b d') [ none ↦ none | some d'' ↦ some (none, d'') ]
      ]
      | some (c, d3) ↦ some (some (a, b, c), d3)
    ]
  ]
]

abbrev pub next_flag : ℕ
next_flag = 1

abbrev pub write_flag : ℕ
write_flag = 2

-- The request of a buffer: its number, its block, the address of its data, and whether it is a write.
pub record Job : Type 0 where
  pub buf : ℕ
  pub blockno : ℕ
  pub data_addr : ℕ
  pub write : Bool

-- `op_addr i` and `status_addr i` are the addresses of `disk.ops[i]` and `disk.info[i].status`.
module _ (op_addr status_addr : ℕ → ℕ) where
  -- The three descriptors of a request.
  abbrev pub head_desc : ℕ → ℕ → Desc
  head_desc a b = record { addr = op_addr a; len = 16; flags = next_flag; next = b }

  abbrev pub data_desc : Job → ℕ → Desc
  data_desc job c = record {
    addr = job.data_addr;
    len = 1024;
    flags = with_bit (if job.write then 0 else write_flag) 0;
    next = c;
  }

  abbrev pub status_desc : ℕ → Desc
  status_desc a = record { addr = status_addr a; len = 1; flags = write_flag; next = 0 }

  -- `virtio_disk_rw` from the three descriptors to the notice of the device. `sector` has 64 bits,
  -- the product that is stored in it has 32.
  unfoldable pub format : Job → ℕ → ℕ → ℕ → Disk → Disk
  format job a b c d = record d {
    desc = update (update (update d.desc a (head_desc a b)) b (data_desc job c)) c (status_desc a);
    request = update d.request a (record {
      type = if job.write then 1 else 0;
      sector = u32 (job.blockno * 2);
      buf = some job.buf;
      status = 0xff;
    });
    pending = update d.pending job.buf true;
    ring = update d.ring (d.avail_idx % num) a;
    avail_idx = (d.avail_idx + 1) % 2 ^ 16;
  }

  -- `virtio_disk_rw` up to a `sleep`. The answer is the first descriptor, or `none` while it sleeps
  -- for three of them; the outer `none` is a panic.
  unfoldable pub submit : Job → Disk → Option (Option ℕ × Disk)
  submit job d = elim (alloc3_desc d) [
    | none ↦ none
    | some (none, d') ↦ some (none, d')
    | some (some (a, b, c), d') ↦ some (some a, format job a b c d')
  ]

-- `virtio_disk_rw` after the wait for its buffer.
unfoldable pub finish : ℕ → Disk → Option Disk
finish a d =
    free_chain num a
      (record d { request = update d.request a (record (d.request a) { buf = none }) })

-- The loop of `virtio_disk_intr` with `rounds` entries to go; the device gives `used` and the status
-- of each request. `none` is the panic, or a fault on a null pointer.
unfoldable pub disk_intr_loop : (ℕ → ℕ) → (ℕ → ℕ) → ℕ → Disk → Option Disk
disk_intr_loop used status zero d = some d
disk_intr_loop used status (suc rounds) d =
    let id = used (d.used_idx % num) in
    elim (status id == 0) [
      | false ↦ none
      | true ↦ elim (d.request id).buf [
        | none ↦ none
        | some b ↦
            disk_intr_loop used status rounds (record d {
              pending = update d.pending b false;
              used_idx = (d.used_idx + 1) % 2 ^ 16;
            })
      ]
    ]

-- `used_idx` runs up to the index `idx` of the device, both in 16 bits.
unfoldable pub virtio_disk_intr : (ℕ → ℕ) → (ℕ → ℕ) → ℕ → Disk → Option Disk
virtio_disk_intr used status idx d =
    disk_intr_loop used status ((idx + 2 ^ 16 - d.used_idx) % 2 ^ 16) d
