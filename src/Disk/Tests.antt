-- ===== src/Disk/Tests.antt =====
-- Runs of the disk driver, and the theorems at concrete disks.
use zrhos.Base.{
  ℕ, ◌+◌, ◌-◌, ◌%◌, ◌^◌, ◌<◌, ◌≡◌, refl, Option, true, false, none, some, arith, if◌then◌else◌,
}
use zrhos.Disk.{
  update, Disk, Request, Job, blank, find_free, alloc_desc, alloc3_desc, format, submit, finish,
}
use zrhos.Disk.Alloc.{taken}
use zrhos.Disk.Chain.{among}
use zrhos.Disk.Requests.{Flight, flight, Reach, starts, submits}
use zrhos.Disk.Requests.Ends.{finish-Reach}
use zrhos.Disk.Interrupt.{Finished}

abbrev idle : Request
idle = record { type = 0; sector = 0; buf = none; status = 0 }

abbrev start : Disk
start = record {
  free = λ i. true;
  desc = λ i. blank;
  request = λ i. idle;
  ring = λ i. 0;
  avail_idx = 0;
  used_idx = 0;
  pending = λ b. false;
}

abbrev job : Job
job = record { buf = 7; blockno = 100; data_addr = 4096; write = false }

abbrev ops : ℕ → ℕ
ops i = 8192 + i

abbrev statuses : ℕ → ℕ
statuses i = 9000 + i

abbrev begun : Disk
begun = format ops statuses job 0 1 2 (taken 2 (taken 1 (taken 0 start)))

begins : submit ops statuses job start ≡ some (some 0, begun)
unfolding submit alloc3_desc alloc_desc find_free
begins = refl

abbrev nobody : ℕ → Option Flight
nobody a = none

-- The request is in progress.
abbrev going : ℕ → Option Flight
going = update nobody 0 (some (flight job 0 begun))

begun-Reach : Reach ops statuses going begun
begun-Reach = submits nobody start begun job 0 (starts start) begins

finish-Reach_example :
    (d' : Disk) × (finish 0 begun ≡ some d')
    × ((j : ℕ)
        → d'.free j ≡ (
            if among 0 (flight job 0 begun).middle (flight job 0 begun).last j
            then true
            else begun.free j))
finish-Reach_example = finish-Reach ops statuses going begun 0 (flight job 0 begun) begun-Reach refl

abbrev zeros : ℕ → ℕ
zeros i = 0

abbrev sevens : ℕ → ℕ
sevens i = 7

format_idx : begun.used_idx < 2 ^ 16
unfolding format
format_idx = omega arith

begun-Finished : Finished zeros zeros sevens ((1 + 2 ^ 16 - begun.used_idx) % 2 ^ 16) begun
unfolding format
begun-Finished k lt = (refl, refl)
