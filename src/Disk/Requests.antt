-- ===== src/Disk/Requests.antt =====
-- The requests in progress, whatever the order of their starts, their ends and the interrupts.
pub mod Ends
use zrhos.Base.{
  ℕ, ◌≡◌, ◌≢◌, sym, ap, ap₂, subst, ◌∙◌, true, false, Option, none, some, if◌then◌else◌, arith,
  Bool-cases, ℕ_discrete, inl, inr,
}
use zrhos.Disk.{Disk, Job, update, submit, finish, virtio_disk_intr}
use zrhos.Disk.Chain.{Holds, Distinct3, InRange, among, submit-cases, finish-free}
use zrhos.Disk.Interrupt.{disk_intr_loop-desc}

-- A request in progress: what is asked, and the descriptors behind its first one.
pub record Flight : Type 0 where
  pub job : Job
  pub middle : ℕ
  pub last : ℕ

abbrev pub flight : Job → ℕ → Disk → Flight
flight job a d = record {
  job = job;
  middle = (d.desc a).next;
  last = (d.desc (d.desc a).next).next;
}

module _ (o s : ℕ → ℕ) where
  -- The disk and the requests in progress, by their first descriptors. A task ends a request that it has started;
  -- the device may answer an interrupt with anything.
  pub data Reach : (ℕ → Option Flight) → Disk → Type 0 where
    starts : (d : Disk) → Reach (λ a. none) d
    sleeps :
        (f : ℕ → Option Flight)
        → (d d' : Disk) → (job : Job) → Reach f d
        → submit o s job d ≡ some (none, d')
        → Reach f d'
    submits :
        (f : ℕ → Option Flight)
        → (d d' : Disk) → (job : Job) → (a : ℕ) → Reach f d
        → submit o s job d ≡ some (some a, d')
        → Reach (update f a (some (flight job a d'))) d'
    interrupts :
        (f : ℕ → Option Flight)
        → (d d' : Disk) → (used status : ℕ → ℕ) → (idx : ℕ) → Reach f d
        → virtio_disk_intr used status idx d ≡ some d'
        → Reach f d'
    finishes :
        (f : ℕ → Option Flight)
        → (d d' : Disk) → (a : ℕ) → (x : Flight) → Reach f d
        → f a ≡ some x
        → finish a d ≡ some d'
        → Reach (update f a none) d'

  -- The descriptors of each request hold its chain, and `owner` names for each of them one request.
  pub record Inv (f : ℕ → Option Flight) (d : Disk) : Type 0 where
    pub owner : ℕ → ℕ
    pub chain :
        (a : ℕ) (x : Flight)
        → f a ≡ some x
        → Holds o s x.job a x.middle x.last d
          × InRange a x.middle x.last
          × Distinct3 a x.middle x.last
    pub owned :
        (a : ℕ) (x : Flight)
        → f a ≡ some x
        → (owner a ≡ a) × (owner x.middle ≡ a) × (owner x.last ≡ a)

  Holds-kept :
      (job : Job) (a b c : ℕ) (d d' : Disk)
      → ((i : ℕ) → among a b c i ≡ true → (d'.desc i ≡ d.desc i) × (d'.free i ≡ false))
      → Holds o s job a b c d
      → Holds o s job a b c d'
  Holds-kept job a b c d d' same h =
      let at_a = same a (ground arith) in
      let at_b = same b (ground arith) in
      let at_c = same c (ground arith) in
      record {
        head = at_a.0 ∙ h.head;
        middle = at_b.0 ∙ h.middle;
        last = at_c.0 ∙ h.last;
        used_a = at_a.1;
        used_b = at_b.1;
        used_c = at_c.1;
      }

  used_all :
      (job : Job) (a b c i : ℕ) (d : Disk)
      → Holds o s job a b c d
      → among a b c i ≡ true
      → d.free i ≡ false
  used_all job a b c i d h m = ground (arith, h.used_a, h.used_b, h.used_c)

  -- A step that leaves the descriptors alone that are not free.
  pub Inv-kept :
      (f : ℕ → Option Flight) (d d' : Disk)
      → ((i : ℕ) → d.free i ≡ false → (d'.desc i ≡ d.desc i) × (d'.free i ≡ false))
      → Inv f d
      → Inv f d'
  Inv-kept f d d' same v = record {
    owner = v.owner;
    chain = λ a x e.
        let (h, lt, ne) = v.chain a x e in
        (
          Holds-kept x.job a x.middle x.last d d'
              (λ i m. same i (used_all x.job a x.middle x.last i d h m)) h,
          lt,
          ne,
        );
    owned = v.owned;
  }

  module _ (f : ℕ → Option Flight) (d : Disk) (v : Inv f d) where
    -- A descriptor of the request `a` that is in progress.
    owner-among :
        (a i : ℕ) (x : Flight) → f a ≡ some x → among a x.middle x.last i ≡ true → v.owner i ≡ a
    owner-among a i x e m = ground (arith, v.owned a x e)

    pub Inv-submits :
        (job : Job) (a b c : ℕ) (d' : Disk)
        → Holds o s job a b c d'
        → InRange a b c
        → Distinct3 a b c
        → (d.free a ≡ true) × (d.free b ≡ true) × (d.free c ≡ true)
        → ((j : ℕ)
            → (d'.free j ≡ (if among a b c j then false else d.free j))
              × (among a b c j ≡ false → d'.desc j ≡ d.desc j))
        → Inv (update f a (some (record { job = job; middle = b; last = c }))) d'
    Inv-submits job a b c d' h lt ne free each =
        let y : Flight = record { job = job; middle = b; last = c } in
        let other = λ (i : ℕ) (u : d.free i ≡ false). outside i u in
        record {
          owner = λ i. if among a b c i then a else v.owner i;
          chain = λ a' x e. elim (ℕ_discrete a a') [
            | yes here ↦
                subst
                  (λ k.
                    Holds o s x.job k x.middle x.last d'
                    × InRange k x.middle x.last
                    × Distinct3 k x.middle x.last)
                  here
                  (subst
                    (λ z.
                      Holds o s z.job a z.middle z.last d'
                      × InRange a z.middle z.last
                      × Distinct3 a z.middle z.last)
                    (new a' x here e) (h, lt, ne))
            | no there ↦
                let e' = old a' x there e in
                let (h', lt', ne') = v.chain a' x e' in
                (
                  Holds-kept x.job a' x.middle x.last d d'
                      (λ i m.
                        let u = used_all x.job a' x.middle x.last i d h' m in
                        let out = outside i u in ((each i).1 out, (each i).0 ∙ rw out u))
                      h',
                  lt',
                  ne',
                )
          ];
          owned = λ a' x e. elim (ℕ_discrete a a') [
            | yes here ↦
                let is = new a' x here e in
                subst (λ z. (mine a' ≡ a') × (mine z.middle ≡ a') × (mine z.last ≡ a')) is
                  (ground (arith, here), ground (arith, here), ground (arith, here))
            | no there ↦
                let e' = old a' x there e in
                let (h', lt', ne') = v.chain a' x e' in
                let at_a = outside a' h'.used_a in
                let at_b = outside x.middle h'.used_b in
                let at_c = outside x.last h'.used_c in
                let (own_a, own_b, own_c) = v.owned a' x e' in
                (rw at_a own_a, rw at_b own_b, rw at_c own_c)
          ];
        }
      where
        mine : ℕ → ℕ
        mine i = if among a b c i then a else v.owner i

        outside : (i : ℕ) → d.free i ≡ false → among a b c i ≡ false
        outside i u = ground (arith, free, u)

        new :
            (a' : ℕ) (x : Flight)
            → a ≡ a'
            → update f a (some (record { job = job; middle = b; last = c })) a' ≡ some x
            → ◌≡◌ {A = Flight} (record { job = job; middle = b; last = c }) x
        new a' x here e = ground (arith, here, e)

        old :
            (a' : ℕ) (x : Flight)
            → a ≢ a'
            → update f a (some (record { job = job; middle = b; last = c })) a' ≡ some x
            → f a' ≡ some x
        old a' x there e = ground (arith, there, e)

    pub Inv-finishes :
        (a : ℕ) (x : Flight) (d' : Disk)
        → f a ≡ some x
        → ((j : ℕ)
            → (d'.free j ≡ (if among a x.middle x.last j then true else d.free j))
              × (among a x.middle x.last j ≡ false → d'.desc j ≡ d.desc j))
        → Inv (update f a none) d'
    Inv-finishes a x d' e each = record {
      owner = v.owner;
      chain = λ a' y e'.
          let (apart, there) = still a' y e' in
          let (h, lt, ne) = v.chain a' y there in
          (
            Holds-kept y.job a' y.middle y.last d d'
                (λ i m.
                  let out = outside a' i y apart there m in
                  let u = used_all y.job a' y.middle y.last i d h m in
                  ((each i).1 out, (each i).0 ∙ rw out u))
                h,
            lt,
            ne,
          );
      owned = λ a' y e'. v.owned a' y (still a' y e').1;
    }
      where
        still : (a' : ℕ) (y : Flight) → update f a none a' ≡ some y → (a ≢ a') × (f a' ≡ some y)
        still a' y e' = (ground (arith, e'), ground (arith, e'))

        outside :
            (a' i : ℕ) (y : Flight)
            → a ≢ a'
            → f a' ≡ some y
            → among a' y.middle y.last i ≡ true
            → among a x.middle x.last i ≡ false
        outside a' i y apart there m = elim (Bool-cases (among a x.middle x.last i)) [
          | inr g ↦ g
          | inl t ↦ absurd (apart (sym (owner-among a i x e t) ∙ owner-among a' i y there m))
        ]
