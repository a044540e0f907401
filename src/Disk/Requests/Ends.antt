-- ===== src/Disk/Requests/Ends.antt =====
-- The end of a request, whatever the order of the steps.
use zrhos.Base.{ℕ, ◌≡◌, sym, ap, ap₂, subst, ◌∙◌, true, Option, none, some, if◌then◌else◌, inl, inr}
use zrhos.Disk.{Disk, Job, update, finish, virtio_disk_intr}
use zrhos.Disk.Chain.{Holds, among, submit-cases, finish-free}
use zrhos.Disk.Interrupt.{disk_intr_loop-desc}
use zrhos.Disk.Requests.{
  Flight, flight, Reach, starts, sleeps, submits, interrupts, finishes, Inv, Inv-kept, Inv-submits,
  Inv-finishes,
}

module _ (o s : ℕ → ℕ) where
  same_answer :
      {a b : ℕ} {d d' : Disk}
      → ◌≡◌ {A = Option (Option ℕ × Disk)} (some (some a, d)) (some (some b, d'))
      → (a ≡ b) × (d ≡ d')
  same_answer h = (cc, cc)

  same_disk : {d d' : Disk} → ◌≡◌ {A = Option Disk} (some d) (some d') → d ≡ d'
  same_disk h = cc

  flight-is :
      (job : Job) (a b c : ℕ) (d : Disk)
      → Holds o s job a b c d
      → record { job = job; middle = b; last = c } ≡ flight job a d
  flight-is job a b c d h =
      let at_b : b ≡ (d.desc a).next = sym (ap (λ x. x.next) h.head) in
      let at_c : c ≡ (d.desc b).next = sym (ap (λ x. x.next) h.middle) in
      ap₂ (λ x y. let z : Flight = record { job = job; middle = x; last = y } in z) at_b
        (at_c ∙ ap (λ x. (d.desc x).next) at_b)

  no_answer :
      {a : ℕ} {d d' : Disk}
      → ◌≡◌ {A = Option (Option ℕ × Disk)} (some (none, d)) (some (some a, d'))
      → ⊥
  no_answer h = cc

  no_sleep :
      {a : ℕ} {d d' : Disk}
      → ◌≡◌ {A = Option (Option ℕ × Disk)} (some (some a, d)) (some (none, d'))
      → ⊥
  no_sleep h = cc

  slept :
      {d d' : Disk} → ◌≡◌ {A = Option (Option ℕ × Disk)} (some (none, d)) (some (none, d')) → d ≡ d'
  slept h = cc

  pub Reach-Inv : {f : ℕ → Option Flight} {d : Disk} → Reach o s f d → Inv o s f d
  unfolding virtio_disk_intr
  Reach-Inv (starts d) = record {
    owner = λ i. i;
    chain = λ a x e. absurd cc;
    owned = λ a x e. absurd cc;
  }
  Reach-Inv (sleeps f d d' job r h) = elim (submit-cases o s job d) [
    | inl (e, is, each) ↦
        subst (Inv o s f) (slept (sym is ∙ h))
          (Inv-kept o s f d e (λ i u. ((each i).1 u, (each i).0 ∙ u)) (Reach-Inv r))
    | inr (a, b, c, e, is, held, lt, ne, free, ring, waits, each) ↦ absurd (no_sleep (sym is ∙ h))
  ]
  Reach-Inv (submits f d d' job a r h) = elim (submit-cases o s job d) [
    | inl (e, is, each) ↦ absurd (no_answer (sym is ∙ h))
    | inr (a', b, c, e, is, held, lt, ne, free, ring, waits, each) ↦
        let (same_a, same_d) = same_answer (sym is ∙ h) in
        let v = Inv-submits o s f d (Reach-Inv r) job a' b c e held lt ne free each in
        let new = subst (λ x. Inv o s (update f a' (some x)) e) (flight-is job a' b c e held) v in
        subst (λ k. Inv o s (update f k (some (flight job k d'))) d') same_a
          (subst (λ z. Inv o s (update f a' (some (flight job a' z))) z) same_d new)
  ]
  Reach-Inv (interrupts f d d' used status idx r h) =
      let (descs, frees) = disk_intr_loop-desc used status _ d d' h in
      Inv-kept o s f d d' (λ i u. (ap (λ g. g i) descs, ap (λ g. g i) frees ∙ u)) (Reach-Inv r)
  Reach-Inv (finishes f d d' a x r e h) =
      let v = Reach-Inv r in
      let (held, lt, ne) = v.chain a x e in
      let (d1, is, each) = finish-free o s x.job a x.middle x.last d ne lt held in
      subst (Inv o s (update f a none)) (same_disk (sym is ∙ h))
        (Inv-finishes o s f d v a x d1 e each)

  -- In whatever order requests start, sleep for descriptors and end and the interrupt runs: the end of a
  -- request in progress does not panic, and gives back the three descriptors of its chain and no other.
  pub finish-Reach :
      (f : ℕ → Option Flight) (d : Disk) (a : ℕ) (x : Flight)
      → Reach o s f d
      → f a ≡ some x
      → (d' : Disk) × (finish a d ≡ some d')
        × ((j : ℕ) → d'.free j ≡ (if among a x.middle x.last j then true else d.free j))
  finish-Reach f d a x r e =
      let (held, lt, ne) = (Reach-Inv r).chain a x e in
      let (d', is, each) = finish-free o s x.job a x.middle x.last d ne lt held in
      (d', is, λ j. (each j).0)
