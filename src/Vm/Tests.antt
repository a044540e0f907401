-- ===== src/Vm/Tests.antt =====
-- An empty address space with two free pages, and runs on it.
use zrhos.Base.{
  ℕ, ◌+◌, ◌-◌, ◌&&◌, ◌≡◌, refl, true, false, Option, none, some, List, [], ◌∷◌, ◌==◌, if◌then◌else◌,
  arith,
}
use zrhos.Vm.User.{walkaddr-uvm_map}
use zrhos.Vm.{
  uvm_map, map_loop, Mapped, mapped, no_space, panics, runs_on, Ram, walk, walk_loop, descend,
  vm_map, vm_unmap, walkaddr, pg_round_down,
}
use zrhos.Vm.Pages.{IsSpace}
use zrhos.Vm.Range.{Maps, vm_map-Maps}
use zrhos.Vm.Unmap.{Unmaps, vm_unmap-Unmaps}
use zrhos.Vm.Copy.{copyinstr, copyinstr_loop, scan, fetchstr}
use zrhos.Vm.Copy.Bytes.{copyinstr-fetchstr}

abbrev empty : Ram
empty = record { tables = λ t i. 0; free = 8192 ∷ 12288 ∷ [] }

abbrev root_only : ℕ → Option (List ℕ)
root_only t = if t == 4096 then some [] else none

abbrev empty_space : IsSpace 4096 empty
empty_space = record {
  owner = root_only;
  tree = record { child = λ t i path at len v. absurd (ground arith) };
  fresh = (
    (refl, refl, omega arith),
    (λ e. absurd (omega (arith, e)), tt),
    ((refl, refl, omega arith), tt, tt),
  );
  at_root = refl;
}

vm_map-Maps_example :
    Maps false 4096 0x1000
      (pg_round_down (0x1000 + 0x2000 - 1))
      0x80000000
      22
      empty
      (vm_map 4096 0x1000 0x80000000 0x2000 22 false empty)
vm_map-Maps_example =
    vm_map-Maps 4096 0x1000 0x80000000 0x2000 22 false empty empty_space refl (omega arith)
      (omega arith) (omega arith) (omega arith)

-- The page 0x1000 is mapped to 0x80000000, for the user.
abbrev one_page : Ram
one_page = record {
  tables = λ t i.
      if (t == 4096) && (i == 0)
      then 2049
      else if (t == 8192) && (i == 0)
      then 3073
      else if (t == 12288) && (i == 1)
      then 0x20000017
      else 0;
  free = [];
}

abbrev three : ℕ → Option (List ℕ)
three t =
    if t == 4096
    then some []
    else if t == 8192
    then some (0 ∷ [])
    else if t == 12288
    then some (0 ∷ 0 ∷ [])
    else none

one_page-IsSpace : IsSpace 4096 one_page
one_page-IsSpace = record {
  owner = three;
  tree = record { child = λ t i path at len v. ground arith };
  fresh = tt;
  at_root = refl;
}

vm_unmap-Unmaps_example :
    Unmaps 4096 0x1000 1 true one_page.tables (vm_unmap 4096 0x1000 1 true one_page)
vm_unmap-Unmaps_example =
    vm_unmap-Unmaps 4096 0x1000 1 true one_page one_page-IsSpace refl (omega arith)

walkaddr_run : walkaddr 4096 0x1234 one_page ≡ 0x80000234
unfolding walkaddr walk walk_loop descend
walkaddr_run = refl

-- Two pages, and the string that lies across their border.
abbrev two_pages : ℕ → ℕ
two_pages va = if va == 0 then 4096 else if va == 4096 then 65536 else 0

abbrev bytes : ℕ → ℕ
bytes a = if a == 8190 then 65 else if a == 8191 then 66 else if a == 65536 then 67 else 0

copyinstr-fetchstr_example : copyinstr two_pages bytes 4094 8 ≡ fetchstr two_pages bytes 4094 8
copyinstr-fetchstr_example = copyinstr-fetchstr two_pages bytes 4094 8 (omega arith) (omega arith)

copyinstr_run : copyinstr two_pages bytes 4094 8 ≡ some (65 ∷ 66 ∷ 67 ∷ [])
unfolding copyinstr copyinstr_loop scan
copyinstr_run = refl

abbrev state_of : Mapped → Ram
state_of (mapped s) = s
state_of no_space = empty
state_of panics = empty
state_of runs_on = empty

abbrev two_mapped : Ram
two_mapped = state_of (uvm_map 4096 0x1000 0x80000000 0x2000 6 false empty)

walkaddr-uvm_map_example : walkaddr 4096 0x2345 two_mapped ≡ 0x80000000 + (0x2345 - 0x1000)
unfolding uvm_map vm_map map_loop walk walk_loop descend
walkaddr-uvm_map_example =
    walkaddr-uvm_map 4096 0x1000 0x80000000 0x2000 6 false empty two_mapped empty_space refl refl
      (omega arith) (omega arith) (omega arith) (omega arith) refl 0x2345 (omega arith)
      (omega arith)
