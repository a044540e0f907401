-- ===== src/Disk/Interrupt.antt =====
-- `virtio_disk_intr`: the requests that the device has finished.
use zrhos.Base.{
  sym, subst, Bool-cases, Option-cases, inl, inr, ℕ, zero, suc, ◌+◌, ◌-◌, ◌%◌, ◌^◌, ◌<◌, ◌≡◌, refl,
  ap, ◌∙◌, Bool, false, ◌||◌, some, arith, ◌==◌, if◌then◌else◌,
}
use zrhos.Disk.{num, Disk, update, disk_intr_loop, virtio_disk_intr}

-- The entry of the used ring behind `k` others.
abbrev pub entry : (ℕ → ℕ) → ℕ → ℕ → ℕ
entry used from k = used ((from + k) % 2 ^ 16 % num)

-- The next `n` entries belong to requests that went well, and `bufs` names their buffers.
abbrev pub Finished : (ℕ → ℕ) → (ℕ → ℕ) → (ℕ → ℕ) → ℕ → Disk → Type 0
Finished used status bufs n d =
    (k : ℕ)
    → k < n
    → (status (entry used d.used_idx k) ≡ 0)
      × ((d.request (entry used d.used_idx k)).buf ≡ some (bufs k))

abbrev pub among : (ℕ → ℕ) → ℕ → ℕ → Bool
among bufs zero j = false
among bufs (suc n) j = (bufs 0 == j) || among (λ k. bufs (k + 1)) n j

abbrev one_done : ℕ → Disk → Disk
one_done b d = record d { pending = update d.pending b false; used_idx = (d.used_idx + 1) % 2 ^ 16 }

disk_intr_loop-suc :
    (used status : ℕ → ℕ) (n b : ℕ) (d : Disk)
    → status (used (d.used_idx % num)) ≡ 0
    → (d.request (used (d.used_idx % num))).buf ≡ some b
    → disk_intr_loop used status (suc n) d ≡ disk_intr_loop used status n (one_done b d)
unfolding disk_intr_loop
disk_intr_loop-suc used status n b d e f = ground arith

disk_intr_loop-zero : (used status : ℕ → ℕ) (d : Disk) → disk_intr_loop used status zero d ≡ some d
unfolding disk_intr_loop
disk_intr_loop-zero used status d = refl

Finished-one_done :
    (used status bufs : ℕ → ℕ) (n b : ℕ) (d : Disk)
    → Finished used status bufs (suc n) d
    → Finished used status (λ k. bufs (k + 1)) n (one_done b d)
Finished-one_done used status bufs n b d h k lt =
    let (s, f) = h (k + 1) (omega arith) in
    let at : entry used (one_done b d).used_idx k ≡ entry used d.used_idx (k + 1) =
      ap used (omega arith) in
    (ap status at ∙ s, ap (λ i. (d.request i).buf) at ∙ f)

disk_intr_loop-pending :
    (used status bufs : ℕ → ℕ) (n : ℕ) (d : Disk) (j : ℕ)
    → d.used_idx < 2 ^ 16
    → Finished used status bufs n d
    → (d' : Disk) × (disk_intr_loop used status n d ≡ some d')
      × (d'.used_idx ≡ (d.used_idx + n) % 2 ^ 16)
      × (d'.pending j ≡ (if among bufs n j then false else d.pending j))
disk_intr_loop-pending used status bufs zero d j lt h =
    (d, disk_intr_loop-zero used status d, omega arith, refl)
disk_intr_loop-pending used status bufs (suc n) d j lt h =
    let (s, f) = h 0 (omega arith) in
    let at : entry used d.used_idx 0 ≡ used (d.used_idx % num) = ap used (omega arith) in
    let b : ℕ = bufs 0 in
    let (d', is, idx, rest) =
      disk_intr_loop-pending used status (λ k. bufs (k + 1)) n (one_done b d) j (omega arith)
        (Finished-one_done used status bufs n b d h) in
    (
      d',
      disk_intr_loop-suc used status n b d (sym (ap status at) ∙ s)
            (sym (ap (λ i. (d.request i).buf) at) ∙ f)
          ∙ is,
      omega (arith, idx),
      ground arith,
    )

-- When the new entries of the used ring belong to requests that went well, the interrupt does not
-- panic, catches up with the device, and ends the wait of exactly the buffers of those requests.
pub virtio_disk_intr-pending :
    (used status bufs : ℕ → ℕ) (idx : ℕ) (d : Disk) (j : ℕ)
    → d.used_idx < 2 ^ 16
    → idx < 2 ^ 16
    → Finished used status bufs ((idx + 2 ^ 16 - d.used_idx) % 2 ^ 16) d
    → (d' : Disk) × (virtio_disk_intr used status idx d ≡ some d')
      × (d'.used_idx ≡ idx)
      × (d'.pending j
          ≡ (if among bufs ((idx + 2 ^ 16 - d.used_idx) % 2 ^ 16) j then false else d.pending j))
unfolding virtio_disk_intr
virtio_disk_intr-pending used status bufs idx d j lu li h =
    let (d', is, at, rest) =
      disk_intr_loop-pending used status bufs ((idx + 2 ^ 16 - d.used_idx) % 2 ^ 16) d j lu h in
    (d', is, omega (arith, at), rest)

-- The interrupt leaves the descriptors alone.
pub disk_intr_loop-desc :
    (used status : ℕ → ℕ) (n : ℕ) (d d' : Disk)
    → disk_intr_loop used status n d ≡ some d'
    → (d'.desc ≡ d.desc) × (d'.free ≡ d.free)
unfolding disk_intr_loop
disk_intr_loop-desc used status zero d d' h =
    let is : d ≡ d' = cc in subst (λ e. (e.desc ≡ d.desc) × (e.free ≡ d.free)) is (refl, refl)
disk_intr_loop-desc used status (suc n) d d' h =
    let id : ℕ = used (d.used_idx % num) in
    elim (Bool-cases (status id == 0)) [
      | inr g ↦ absurd (ground (arith, h))
      | inl y ↦ elim (Option-cases (d.request id).buf) [
        | inl e ↦ absurd (ground (arith, h))
        | inr (b, e) ↦ disk_intr_loop-desc used status n (one_done b d) d' (ground (arith, h))
      ]
    ]
