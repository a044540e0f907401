-- ===== src/Vm/Copy.antt =====
-- `copyin`, `copyinstr` and `fetchstr` of kernel/vm.c. The memory of the pages is by address, and
-- what the calls write to `dst` is their result.
use zrhos.Base.{
  ℕ, zero, suc, ◌+◌, ◌-◌, ◌*◌, ◌/◌, ◌%◌, ◌^◌, Bool, true, false, Option, none, some, List, [], ◌∷◌,
  ◌++◌, ◌==◌, ltb, if◌then◌else◌, u64,
}
use zrhos.Vm.{Ram, walkaddr, pgsize, pg_round_down}
pub mod Bytes

abbrev pub Mem : Type 0
Mem = ℕ → ℕ

-- The bytes of `memmove`.
unfoldable pub read : Mem → ℕ → ℕ → List ℕ
read mem pa zero = []
read mem pa (suc n) = mem pa ∷ read mem (pa + 1) n

abbrev pub append : List ℕ → Option (List ℕ) → Option (List ℕ)
append l none = none
append l (some r) = some (l ++ r)

-- How the inner loop of `copyinstr` ends: at the 0, or behind its bytes.
pub data Scanned : Type 0 where
  ends : List ℕ → Scanned
  continues : List ℕ → Scanned

abbrev pub push : ℕ → Scanned → Scanned
push c (ends l) = ends (c ∷ l)
push c (continues l) = continues (c ∷ l)

-- With what the later rounds read.
abbrev pub finish : Scanned → Option (List ℕ) → Option (List ℕ)
finish (ends l) r = some l
finish (continues l) r = append l r

unfoldable pub scan : Mem → ℕ → ℕ → Scanned
scan mem pa zero = continues []
scan mem pa (suc n) =
    let rest = scan mem (pa + 1) n in if mem pa == 0 then ends [] else push (mem pa) rest

-- What lies from `va` to the end of its page, at most `len`.
abbrev pub piece : ℕ → ℕ → ℕ
piece va len = let n = pgsize - (va - pg_round_down va) in if ltb len n then len else n

-- The rounds of `while(len < max)` for the pattern of an `int`.
abbrev pub int_room : ℕ → ℕ
int_room max = if ltb max (2 ^ 31) then max else 0

-- `page` is `walkaddr` of the tables. `none` is -1.
module _ (page : ℕ → ℕ) (mem : Mem) where
  -- The loop of `copyin`. A round takes a byte at least, so `len` rounds end it.
  unfoldable pub copyin_loop : ℕ → ℕ → ℕ → Option (List ℕ)
  copyin_loop zero va len = some []
  copyin_loop (suc rounds) va len =
      let va0 = pg_round_down va in
      let n = piece va len in
      let rest = copyin_loop rounds (u64 (va0 + pgsize)) (len - n) in
      let some_page = append (read mem (page va0 + (va - va0)) n) rest in
      if len == 0 then some [] else if page va0 == 0 then none else some_page

  unfoldable pub copyin : ℕ → ℕ → Option (List ℕ)
  copyin va len = copyin_loop len va len

  -- For a `max_len` up to 2 ^ 31 - 1, so that `len` does not overflow.
  -- The loop of `copyinstr` with `left` bytes of room.
  unfoldable pub copyinstr_loop : ℕ → ℕ → ℕ → Option (List ℕ)
  copyinstr_loop zero va left = none
  copyinstr_loop (suc rounds) va left =
      let va0 = pg_round_down va in
      let n = piece va left in
      let rest = copyinstr_loop rounds (u64 (va + n)) (left - n) in
      let some_page = finish (scan mem (page va0 + (va - va0)) n) rest in
      if left == 0 then none else if page va0 == 0 then none else some_page

  unfoldable pub copyinstr : ℕ → ℕ → Option (List ℕ)
  copyinstr va max_len = copyinstr_loop max_len va max_len

  -- With room for `left` bytes.
  unfoldable pub fetchstr_loop : ℕ → ℕ → Option (List ℕ)
  fetchstr_loop va zero = none
  fetchstr_loop va (suc left) = elim (copyin va 1) [
    | none ↦ none
    | some [] ↦ none
    | some (c ∷ l) ↦ elim (c == 0) [
      | true ↦ some []
      | false ↦ append (c ∷ []) (fetchstr_loop (u64 (va + 1)) left)
    ]
  ]

  -- `max` is an `int` of the value `max` in 32 bits, so without room from 2 ^ 31 on.
  unfoldable pub fetchstr : ℕ → ℕ → Option (List ℕ)
  fetchstr va max = fetchstr_loop va (int_room (max % 2 ^ 32))
