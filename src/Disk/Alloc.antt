-- ===== src/Disk/Alloc.antt =====
-- Which descriptors `alloc3_desc` takes and gives back.
use zrhos.Base.{
  ℕ, zero, suc, ◌+◌, ◌<◌, ◌≡◌, ◌≢◌, ◌⊎◌, refl, Bool, true, false, none, some, arith, leb,
  Option-cases, inl, inr,
}
use zrhos.Disk.{num, Disk, update, find_free, alloc_desc, blank, free_desc, alloc3_desc}

find_free-some :
    (rounds i k : ℕ) (free : ℕ → Bool)
    → find_free rounds i free ≡ some k
    → (k < i + rounds) × (free k ≡ true)
unfolding find_free
find_free-some zero i k free h = cc
find_free-some (suc rounds) i k free h = ground (arith, find_free-some rounds (i + 1) k free)

abbrev pub taken : ℕ → Disk → Disk
taken i d = record d { free = update d.free i false }

abbrev pub given : ℕ → Disk → Disk
given i d = record d { desc = update d.desc i blank; free = update d.free i true }

pub alloc_desc-cases :
    (d : Disk)
    → (alloc_desc d ≡ none)
      ⊎ ((k : ℕ) × (alloc_desc d ≡ some (k, taken k d)) × (k < num) × (d.free k ≡ true))
unfolding alloc_desc
alloc_desc-cases d = elim (Option-cases (find_free num 0 d.free)) [
  | inl e ↦ inl (ground arith)
  | inr (k, e) ↦ let (lt, free) = find_free-some num 0 k d.free e in inr (k, ground arith, lt, free)
]

pub free_desc-given :
    (i : ℕ) (d : Disk) → i < num → d.free i ≡ false → free_desc i d ≡ some (given i d)
unfolding free_desc
free_desc-given i d lt used = let small : leb num i ≡ false = ground arith in rw (small, used) refl

try3 :
    (d : Disk) (a b c : ℕ)
    → alloc_desc d ≡ some (a, taken a d)
    → alloc_desc (taken a d) ≡ some (b, taken b (taken a d))
    → alloc_desc (taken b (taken a d)) ≡ some (c, taken c (taken b (taken a d)))
    → alloc3_desc d ≡ some (some (a, b, c), taken c (taken b (taken a d)))
unfolding alloc3_desc
try3 d a b c e f g = ground arith

-- `alloc3_desc` without a descriptor, with one and with two.
fail0 : (d : Disk) → alloc_desc d ≡ none → alloc3_desc d ≡ some (none, d)
unfolding alloc3_desc
fail0 d e = ground arith

fail1 :
    (d : Disk) (a : ℕ)
    → alloc_desc d ≡ some (a, taken a d)
    → alloc_desc (taken a d) ≡ none
    → free_desc a (taken a d) ≡ some (given a (taken a d))
    → alloc3_desc d ≡ some (none, given a (taken a d))
unfolding alloc3_desc
fail1 d a e f g = ground arith

fail2 :
    (d : Disk) (a b : ℕ)
    → alloc_desc d ≡ some (a, taken a d)
    → alloc_desc (taken a d) ≡ some (b, taken b (taken a d))
    → alloc_desc (taken b (taken a d)) ≡ none
    → free_desc a (taken b (taken a d)) ≡ some (given a (taken b (taken a d)))
    → free_desc b (given a (taken b (taken a d))) ≡ some (given b (given a (taken b (taken a d))))
    → alloc3_desc d ≡ some (none, given b (given a (taken b (taken a d))))
unfolding alloc3_desc
fail2 d a b e f g h k = ground arith

-- `alloc3_desc` never panics. Without success every descriptor is free that was free
-- before, and the others are as before. With
-- success it takes three different descriptors that were free, and no other.
pub alloc3_desc-cases :
    (d : Disk)
    → ((d' : Disk) × (alloc3_desc d ≡ some (none, d'))
        × ((j : ℕ) → (d'.free j ≡ d.free j) × (d.free j ≡ false → d'.desc j ≡ d.desc j)))
      ⊎ ((a b c : ℕ) × (alloc3_desc d ≡ some (some (a, b, c), taken c (taken b (taken a d))))
          × ((a < num) × (b < num) × (c < num))
          × ((a ≢ b) × (a ≢ c) × (b ≢ c))
          × ((d.free a ≡ true) × (d.free b ≡ true) × (d.free c ≡ true)))
alloc3_desc-cases d = elim (alloc_desc-cases d) [
  | inl e ↦ inl (d, fail0 d e, λ j. (refl, λ u. refl))
  | inr (a, ea, la, fa) ↦ elim (alloc_desc-cases (taken a d)) [
    | inl e ↦ inl (
      given a (taken a d),
      fail1 d a ea e (free_desc-given a (taken a d) la (ground arith)),
      λ j. (ground arith, λ u. ground arith),
    )
    | inr (b, eb, lb, fb) ↦ elim (alloc_desc-cases (taken b (taken a d))) [
      | inl e ↦
          let ab : a ≢ b = ground arith in
          inl (
            given b (given a (taken b (taken a d))),
            fail2 d a b ea eb e (free_desc-given a (taken b (taken a d)) la (ground arith))
                (free_desc-given b (given a (taken b (taken a d))) lb (ground arith)),
            λ j. (ground arith, λ u. ground arith),
          )
      | inr (c, ec, lc, fc) ↦ inr (
        a,
        b,
        c,
        try3 d a b c ea eb ec,
        (la, lb, lc),
        (ground arith, ground arith, ground arith),
        (fa, ground arith, ground arith),
      )
    ]
  ]
]
