-- ===== src/Vm/Address.antt =====
-- What `walkaddr` answers, by the entry of the address.
use zrhos.Base.{
  ℕ, zero, suc, ◌+◌, ◌%◌, ◌<◌, ◌≡◌, refl, false, ◌&&◌, Option, none, some, if◌then◌else◌, arith,
  Bool-cases, Option-cases, inl, inr,
}
use zrhos.Vm.{
  Tables, Ram, px, pte2pa, is_valid, is_user, descend, walk, walk_loop, walkaddr, max_va,
}
use zrhos.Vm.Tree.{entry, pte_of}
use zrhos.Vm.Walk.{leaf}

descend-false :
    (t i : ℕ) (s : Ram)
    → descend false t i s
      ≡ ((if is_valid (s.tables t i) then some (pte2pa (s.tables t i)) else none), s)
unfolding descend
descend-false t i s = ground arith

abbrev pub slot_of : ℕ → Option ℕ → Option (ℕ × ℕ)
slot_of va none = none
slot_of va (some t) = some (t, px 0 va)

pub walk_loop-leaf :
    (level t va : ℕ) (s : Ram)
    → walk_loop false va level t s ≡ (slot_of va (leaf level t va s.tables), s)
unfolding walk_loop leaf
walk_loop-leaf zero t va s = refl
walk_loop-leaf (suc level) t va s = elim (Bool-cases (is_valid (s.tables t (px (suc level) va)))) [
  | inl v ↦ ground (
    arith,
    descend-false t (px (suc level) va) s,
    walk_loop-leaf level (pte2pa (s.tables t (px (suc level) va))) va s,
  )
  | inr f ↦ ground (arith, descend-false t (px (suc level) va) s)
]

abbrev pub entry_at : ℕ → Tables → Option ℕ → ℕ
entry_at va m none = 0
entry_at va m (some t) = m t (px 0 va)

pub entry-leaf :
    (level t va : ℕ) (m : Tables) → entry level t va m ≡ entry_at va m (leaf level t va m)
unfolding entry leaf
entry-leaf zero t va m = refl
entry-leaf (suc level) t va m =
    ground (arith, entry-leaf level (pte2pa (m t (px (suc level) va))) va m)

-- The address that an entry gives for `va`, 0 if none.
abbrev pub target : ℕ → ℕ → ℕ
target pte va = if is_valid pte && is_user pte then pte2pa pte + va % 4096 else 0

-- `walkaddr` gives the address of a valid user page with the offset, and otherwise 0.
pub walkaddr-pte_of :
    (root va : ℕ) (s : Ram) → va < max_va → walkaddr root va s ≡ target (pte_of root va s.tables) va
unfolding walkaddr walk
walkaddr-pte_of root va s lt = elim (Option-cases (leaf 2 root va s.tables)) [
  | inl e ↦ ground (arith, walk_loop-leaf 2 root va s, entry-leaf 2 root va s.tables, e)
  | inr (t, e) ↦ ground (arith, walk_loop-leaf 2 root va s, entry-leaf 2 root va s.tables, e)
]
