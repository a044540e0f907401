-- ===== src/Vm/User.antt =====
-- What `uvm_map` maps, `walkaddr` finds.
use zrhos.Base.{
  ℕ, ◌+◌, ◌-◌, ◌/◌, ◌%◌, ◌^◌, ◌≤◌, ◌<◌, ◌≡◌, refl, ap, ◌∙◌, subst, Bool, true, ◌==◌, arith,
  Bool-cases, inl, inr,
}
use zrhos.Vm.{
  Ram, mapped, uvm_map, walkaddr, with_user, make_pte, pte2pa, is_valid, is_user, max_va,
  pg_round_down,
}
use zrhos.Vm.Tree.{pte_of}
use zrhos.Vm.Pages.{IsSpace, covers}
use zrhos.Vm.Range.{Maps, vm_map-Maps}
use zrhos.Vm.Address.{target, walkaddr-pte_of}

with_user-bits : (perm : ℕ) → perm < 1024 → (with_user perm < 1024) × (with_user perm / 16 % 2 ≡ 1)
with_user-bits perm lt = elim (Bool-cases (perm / 16 % 2 == 1)) [
  | inl y ↦ rw y (lt, ground arith)
  | inr n ↦ rw n (ground arith, ground arith)
]

-- The entry of a user page gives its address back.
target-make_pte :
    (q perm a : ℕ)
    → q % 4096 ≡ 0
    → q < 2 ^ 56
    → perm < 1024
    → perm / 16 % 2 ≡ 1
    → target (make_pte q perm) a ≡ q + a % 4096
target-make_pte q perm a al lt small user =
    let valid : is_valid (make_pte q perm) ≡ true = ground arith in
    let bit : make_pte q perm / 16 % 2 ≡ 1 = omega arith in
    let for_user : is_user (make_pte q perm) ≡ true = ground (arith, bit) in
    let at : pte2pa (make_pte q perm) ≡ q = omega arith in
    rw (valid, for_user) (ap (λ r. r + a % 4096) at)

-- After `uvm_map` of an aligned range has answered 0, `walkaddr` takes each address of the range to
-- the physical address at the same place of the physical range.
pub walkaddr-uvm_map :
    (root va pa sz perm : ℕ) (remap : Bool) (s s' : Ram)
    → IsSpace root s
    → va % 4096 ≡ 0
    → pa % 4096 ≡ 0
    → 0 < sz
    → va + sz ≤ max_va
    → pa + sz ≤ 2 ^ 56
    → perm < 1024
    → uvm_map root va pa sz perm remap s ≡ mapped s'
    → (a : ℕ) → va ≤ a
    → a < va + sz
    → walkaddr root a s' ≡ pa + (a - va)
unfolding uvm_map
walkaddr-uvm_map root va pa sz perm remap s s' space al pal some_size top ptop small e a lo hi =
    let last : ℕ = pg_round_down (va + sz - 1) in
    let (bits, user) = with_user-bits perm small in
    let maps = subst (Maps remap root va last pa (with_user perm) s) e (
      vm_map-Maps root va pa sz (with_user perm) remap s space al some_size (omega (arith, top))
        (omega (arith, ptop)) bits) in
    let here : covers va last a ≡ true = ground arith in
    let q : ℕ = pa + (pg_round_down a - va) in
    let entry_is : pte_of root a s'.tables ≡ make_pte q (with_user perm) =
      maps.1 a (omega (arith, top, hi)) ∙ rw here refl in
    walkaddr-pte_of root a s' (omega (arith, top, hi))
    ∙ ap (λ v. target v a) entry_is
    ∙ target-make_pte q (with_user perm) a (omega (arith, al, pal, lo)) (omega (arith, ptop, hi))
        bits user
    ∙ (omega (arith, al, lo))
