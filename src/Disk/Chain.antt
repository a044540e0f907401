-- ===== src/Disk/Chain.antt =====
-- The chain of a request, from `submit` to `finish`.
use zrhos.Base.{
  ◌%◌, ℕ, suc, ◌<◌, ◌≡◌, ◌≢◌, ◌⊎◌, ap, ◌∙◌, Bool, true, false, ◌||◌, none, some, arith, ◌==◌,
  if◌then◌else◌, Bool-cases, inl, inr,
}
use zrhos.Base.Bits.{has_bit, with_bit}
use zrhos.Disk.{
  num, Disk, Job, update, alloc3_desc, free_chain, has_next, head_desc, data_desc, status_desc,
  format, submit, finish, write_flag,
}
use zrhos.Disk.Alloc.{taken, given, free_desc-given, alloc3_desc-cases}

chain_more :
    (rounds i n : ℕ) (d : Disk)
    → i < num
    → d.free i ≡ false
    → has_next (d.desc i) ≡ true
    → (d.desc i).next ≡ n
    → free_chain (suc rounds) i d ≡ free_chain rounds n (given i d)
unfolding free_chain
chain_more rounds i n d lt used more is = ground (arith, free_desc-given i d lt used)

chain_end :
    (rounds i : ℕ) (d : Disk)
    → i < num
    → d.free i ≡ false
    → has_next (d.desc i) ≡ false
    → free_chain (suc rounds) i d ≡ some (given i d)
unfolding free_chain
chain_end rounds i d lt used last = ground (arith, free_desc-given i d lt used)

-- The three descriptors of a request hold what `format` wrote, and are not free.
pub record Holds (op_addr status_addr : ℕ → ℕ) (job : Job) (a b c : ℕ) (d : Disk) : Type 0 where
  pub head : d.desc a ≡ head_desc op_addr status_addr a b
  pub middle : d.desc b ≡ data_desc op_addr status_addr job c
  pub last : d.desc c ≡ status_desc op_addr status_addr a
  pub used_a : d.free a ≡ false
  pub used_b : d.free b ≡ false
  pub used_c : d.free c ≡ false

abbrev pub Distinct3 : ℕ → ℕ → ℕ → Type 0
Distinct3 a b c = (a ≢ b) × (a ≢ c) × (b ≢ c)

-- `j` is one of the three.
abbrev pub among : ℕ → ℕ → ℕ → ℕ → Bool
among a b c j = (a == j) || (b == j) || (c == j)

abbrev pub InRange : ℕ → ℕ → ℕ → Type 0
InRange a b c = (a < num) × (b < num) × (c < num)

data_desc-next : (o s : ℕ → ℕ) (job : Job) (c : ℕ) → has_next (data_desc o s job c) ≡ true
data_desc-next o s job c = elim (Bool-cases job.write) [
  | inl t ↦ ap (λ w. has_bit (with_bit (if w then 0 else write_flag) 0) 0) t
  | inr f ↦ ap (λ w. has_bit (with_bit (if w then 0 else write_flag) 0) 0) f
]

-- Three rounds give the descriptors back.
free_chain-given :
    (o s : ℕ → ℕ) (job : Job) (rounds a b c : ℕ) (d : Disk)
    → Distinct3 a b c
    → InRange a b c
    → Holds o s job a b c d
    → free_chain (suc (suc (suc rounds))) a d ≡ some (given c (given b (given a d)))
free_chain-given o s job rounds a b c d (ab, ac, bc) (la, lb, lc) h =
    let at_b : (given a d).desc b ≡ data_desc o s job c = ground (arith, h.middle) in
    let at_c : (given b (given a d)).desc c ≡ status_desc o s a = ground (arith, h.last) in
    chain_more (suc (suc rounds)) a b d la h.used_a (ap has_next h.head) (ap (λ x. x.next) h.head)
    ∙ chain_more (suc rounds) b c (given a d) lb (ground (arith, h.used_b))
        (ap has_next at_b ∙ data_desc-next o s job c) (ap (λ x. x.next) at_b)
    ∙ chain_end rounds c (given b (given a d)) lc (ground (arith, h.used_c)) (ap has_next at_c)

-- `format` sets up the chain.
format-Holds :
    (o s : ℕ → ℕ) (job : Job) (a b c : ℕ) (d : Disk)
    → Distinct3 a b c
    → Holds o s job a b c (format o s job a b c (taken c (taken b (taken a d))))
unfolding format
format-Holds o s job a b c d (ab, ac, bc) = record {
  head = ground arith;
  middle = ground arith;
  last = ground arith;
  used_a = ground arith;
  used_b = ground arith;
  used_c = ground arith;
}

submit-none :
    (o s : ℕ → ℕ) (job : Job) (d d' : Disk)
    → alloc3_desc d ≡ some (none, d')
    → submit o s job d ≡ some (none, d')
unfolding submit
submit-none o s job d d' e = ground arith

submit-some :
    (o s : ℕ → ℕ) (job : Job) (a b c : ℕ) (d d' : Disk)
    → alloc3_desc d ≡ some (some (a, b, c), d')
    → submit o s job d ≡ some (some a, format o s job a b c d')
unfolding submit
submit-some o s job a b c d d' e = ground arith

pub submit-cases :
    (o s : ℕ → ℕ) (job : Job) (d : Disk)
    → ((d' : Disk) × (submit o s job d ≡ some (none, d'))
        × ((j : ℕ) → (d'.free j ≡ d.free j) × (d.free j ≡ false → d'.desc j ≡ d.desc j)))
      ⊎ ((a b c : ℕ) × (d' : Disk) × (submit o s job d ≡ some (some a, d'))
          × Holds o s job a b c d'
          × InRange a b c
          × Distinct3 a b c
          × ((d.free a ≡ true) × (d.free b ≡ true) × (d.free c ≡ true))
          × (d'.ring (d.avail_idx % num) ≡ a)
          × (d'.pending job.buf ≡ true)
          × ((j : ℕ)
              → (d'.free j ≡ (if among a b c j then false else d.free j))
                × (among a b c j ≡ false → d'.desc j ≡ d.desc j)))
unfolding format
submit-cases o s job d = elim (alloc3_desc-cases d) [
  | inl (d', e, same) ↦ inl (d', submit-none o s job d d' e, same)
  | inr (a, b, c, e, lt, ne, free) ↦
      let d' : Disk = taken c (taken b (taken a d)) in
      inr (
        a,
        b,
        c,
        format o s job a b c d',
        submit-some o s job a b c d d' e,
        format-Holds o s job a b c d ne,
        lt,
        ne,
        free,
        ground arith,
        ground arith,
        λ j. (ground arith, λ out. ground arith),
      )
]

-- The end of a request whose chain is as `submit` set it up does not panic, gives back its three descriptors
-- and no other, and clears no other.
pub finish-free :
    (o s : ℕ → ℕ) (job : Job) (a b c : ℕ) (d : Disk)
    → Distinct3 a b c
    → InRange a b c
    → Holds o s job a b c d
    → (d' : Disk) × (finish a d ≡ some d')
      × ((j : ℕ)
          → (d'.free j ≡ (if among a b c j then true else d.free j))
            × (among a b c j ≡ false → d'.desc j ≡ d.desc j))
unfolding finish
finish-free o s job a b c d ne lt h =
    let d0 : Disk = record d {
      request = update d.request a (record (d.request a) { buf = none });
    } in
    let h0 : Holds o s job a b c d0 = record {
      head = h.head;
      middle = h.middle;
      last = h.last;
      used_a = h.used_a;
      used_b = h.used_b;
      used_c = h.used_c;
    } in
    (
      given c (given b (given a d0)),
      free_chain-given o s job 61 a b c d0 ne lt h0,
      λ j. (ground arith, λ out. ground arith),
    )
