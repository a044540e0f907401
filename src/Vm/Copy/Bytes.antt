-- ===== src/Vm/Copy/Bytes.antt =====
-- The copies go page by page; they read what a copy byte by byte reads.
use zrhos.Base.{
  Option-cases, ℕ, zero, suc, ◌+◌, ◌-◌, ◌%◌, ◌^◌, ◌≤◌, ◌<◌, ◌≡◌, refl, sym, ap, ap₂, ◌∙◌, true,
  false, Option, none, some, List, [], ◌∷◌, ◌++◌, ◌==◌, ltb, if◌then◌else◌, arith, Bool-cases, inl,
  inr, u64, append_assoc,
}
use zrhos.Vm.{pgsize, pg_round_down}
use zrhos.Vm.Copy.{
  Mem, read, append, piece, copyin_loop, copyin, Scanned, ends, continues, push, scan, finish,
  copyinstr_loop, copyinstr, fetchstr, fetchstr_loop, int_room,
}

module _ (page : ℕ → ℕ) (mem : Mem) where
  -- The byte at `va`, `none` where its page is not mapped.
  unfoldable pub byte_at : ℕ → Option ℕ
  byte_at va =
      let p = page (pg_round_down va) in
      if p == 0 then none else some (mem (p + (va - pg_round_down va)))

  -- The `len` bytes from `va` on.
  unfoldable pub bytes_at : ℕ → ℕ → Option (List ℕ)
  bytes_at va zero = some []
  bytes_at va (suc len) = elim (byte_at va) [
    | none ↦ none
    | some c ↦ append (c ∷ []) (bytes_at (va + 1) len)
  ]

  -- The string from `va` on, without its 0, if that comes within `left` bytes.
  unfoldable pub string_at : ℕ → ℕ → Option (List ℕ)
  string_at va zero = none
  string_at va (suc left) = elim (byte_at va) [
    | none ↦ none
    | some c ↦ elim (c == 0) [ true ↦ some [] | false ↦ append (c ∷ []) (string_at (va + 1) left) ]
  ]

  append-nil : (r : Option (List ℕ)) → append [] r ≡ r
  append-nil none = refl
  append-nil (some r) = refl

  append-finish :
      (c : ℕ) (x : Scanned) (r : Option (List ℕ))
      → append (c ∷ []) (finish x r) ≡ finish (push c x) r
  append-finish c (ends l) r = refl
  append-finish c (continues l) none = refl
  append-finish c (continues l) (some r) = refl

  append-append : (k l : List ℕ) (r : Option (List ℕ)) → append k (append l r) ≡ append (k ++ l) r
  append-append k l none = refl
  append-append k l (some r) = ap some (sym (append_assoc k l r))

  byte_at-some :
      (va0 off : ℕ)
      → va0 % 4096 ≡ 0
      → off < 4096
      → (page va0 == 0) ≡ false
      → byte_at (va0 + off) ≡ some (mem (page va0 + off))
  unfolding byte_at
  byte_at-some va0 off al lt f =
      let base : pg_round_down (va0 + off) ≡ va0 = omega arith in
      let at : va0 + off - pg_round_down (va0 + off) ≡ off = omega arith in
      ground (arith, ap page base, ap mem (ap₂ (λ p o. page p + o) base at))

  byte_at-none :
      (va0 off : ℕ)
      → va0 % 4096 ≡ 0
      → off < 4096
      → (page va0 == 0) ≡ true
      → byte_at (va0 + off) ≡ none
  unfolding byte_at
  byte_at-none va0 off al lt f =
      let base : pg_round_down (va0 + off) ≡ va0 = omega arith in ground (arith, ap page base)

  bytes_at-suc :
      (va len c : ℕ)
      → byte_at va ≡ some c
      → bytes_at va (suc len) ≡ append (c ∷ []) (bytes_at (va + 1) len)
  unfolding bytes_at
  bytes_at-suc va len c e = ground (arith, e)

  string_at-suc :
      (va left c : ℕ)
      → byte_at va ≡ some c
      → string_at va (suc left)
        ≡ (if c == 0 then some [] else append (c ∷ []) (string_at (va + 1) left))
  unfolding string_at
  string_at-suc va left c e = ground (arith, e)

  bytes_at-none : (va len : ℕ) → byte_at va ≡ none → bytes_at va (suc len) ≡ none
  unfolding bytes_at
  bytes_at-none va len e = ground (arith, e)

  bytes_at_zero : (v w : ℕ) → bytes_at v 0 ≡ bytes_at w 0
  unfolding bytes_at
  bytes_at_zero v w = refl

  bytes_at_nil : (v : ℕ) → some [] ≡ bytes_at v 0
  unfolding bytes_at
  bytes_at_nil v = refl

  string_at_nil : (v : ℕ) → none ≡ string_at v 0
  unfolding string_at
  string_at_nil v = refl

  string_at-none : (va left : ℕ) → byte_at va ≡ none → string_at va (suc left) ≡ none
  unfolding string_at
  string_at-none va left e = ground (arith, e)

  string_at_zero : (v w : ℕ) → string_at v 0 ≡ string_at w 0
  unfolding string_at
  string_at_zero v w = refl

  -- Within a page.
  bytes_at-read :
      (n k va0 off : ℕ)
      → va0 % 4096 ≡ 0
      → off + n ≤ 4096
      → (page va0 == 0) ≡ false
      → bytes_at (va0 + off) (n + k)
        ≡ append (read mem (page va0 + off) n) (bytes_at (va0 + (off + n)) k)
  unfolding read
  bytes_at-read zero k va0 off al le f =
      ap₂ bytes_at (omega arith) (omega arith) ∙ sym (append-nil (bytes_at (va0 + (off + 0)) k))
  bytes_at-read (suc n) k va0 off al le f =
      let c : ℕ = mem (page va0 + off) in
      ap (bytes_at (va0 + off)) (omega arith)
      ∙ bytes_at-suc (va0 + off) (n + k) c (byte_at-some va0 off al (omega arith) f)
      ∙ ap (λ v. append (c ∷ []) (bytes_at v (n + k))) (omega arith)
      ∙ ap (append (c ∷ [])) (bytes_at-read n k va0 (off + 1) al (omega arith) f)
      ∙ append-append (c ∷ []) (read mem (page va0 + (off + 1)) n) _
      ∙ ap₂ (λ p v. append (c ∷ read mem p n) (bytes_at v k)) (omega arith) (omega arith)

  string_at-scan :
      (n k va0 off : ℕ)
      → va0 % 4096 ≡ 0
      → off + n ≤ 4096
      → (page va0 == 0) ≡ false
      → string_at (va0 + off) (n + k)
        ≡ finish (scan mem (page va0 + off) n) (string_at (va0 + (off + n)) k)
  unfolding scan
  string_at-scan zero k va0 off al le f =
      ap₂ string_at (omega arith) (omega arith) ∙ sym (append-nil (string_at (va0 + (off + 0)) k))
  string_at-scan (suc n) k va0 off al le f =
      let c : ℕ = mem (page va0 + off) in
      ap (string_at (va0 + off)) (omega arith)
      ∙ string_at-suc (va0 + off) (n + k) c (byte_at-some va0 off al (omega arith) f)
      ∙ elim (Bool-cases (c == 0)) [
        | inl y ↦ rw y refl
        | inr g ↦ rw g (
            ap (λ v. append (c ∷ []) (string_at v (n + k))) (omega arith)
            ∙ ap (append (c ∷ [])) (string_at-scan n k va0 (off + 1) al (omega arith) f)
            ∙ append-finish c (scan mem (page va0 + (off + 1)) n) _
            ∙ ap₂ (λ p v. finish (push c (scan mem p n)) (string_at v k)) (omega arith)
                (omega arith))
      ]

  -- The next round starts at the next page, if it has anything to read.
  next_page {ℓ} :
      {A : Type ℓ} (f : ℕ → ℕ → A) (va len : ℕ)
      → ((v w : ℕ) → f v 0 ≡ f w 0)
      → va + len ≤ 2 ^ 63
      → f (u64 (pg_round_down va + pgsize)) (len - piece va len)
        ≡ f (pg_round_down va + (va - pg_round_down va + piece va len)) (len - piece va len)
  next_page f va len base top = elim (Bool-cases (ltb len (4096 - (va - pg_round_down va)))) [
    | inl y ↦ let all_read : len - piece va len ≡ 0 = ground arith in rw all_read (base _ _)
    | inr g ↦ ap (λ v. f v (len - piece va len)) (ground arith)
  ]

  copyin_loop-bytes_at :
      (rounds va len : ℕ)
      → len ≤ rounds
      → va + len ≤ 2 ^ 63
      → copyin_loop page mem rounds va len ≡ bytes_at va len
  unfolding copyin_loop
  copyin_loop-bytes_at zero va len le top =
      let none_left : 0 ≡ len = omega arith in bytes_at_nil va ∙ ap (bytes_at va) none_left
  copyin_loop-bytes_at (suc rounds) va len le top =
      let va0 : ℕ = pg_round_down va in
      let off : ℕ = va - va0 in
      let n : ℕ = piece va len in
      let at : va0 + off ≡ va = omega arith in
      elim (Bool-cases (len == 0)) [
        | inl y ↦
            let none_left : 0 ≡ len = ground arith in
            rw y (bytes_at_nil va ∙ ap (bytes_at va) none_left)
        | inr g ↦
            let some_len : suc (len - 1) ≡ len = ground arith in
            elim (Bool-cases (page va0 == 0)) [
              | inl z ↦
                  rw (g, z)
                    (sym (
                      ap (bytes_at va) (sym some_len)
                      ∙ bytes_at-none va (len - 1) (
                          ap byte_at (sym at)
                          ∙ byte_at-none va0 off (omega arith) (omega arith) z)))
              | inr m ↦
                  let rest =
                    copyin_loop-bytes_at rounds (u64 (va0 + pgsize)) (len - n) (ground arith)
                      (ground arith) in
                  rw (g, m)
                    (ap (append (read mem (page va0 + off) n))
                        (rest ∙ next_page bytes_at va len (λ v w. bytes_at_zero v w) top)
                      ∙ sym (bytes_at-read n (len - n) va0 off (omega arith) (ground arith) m)
                      ∙ ap₂ bytes_at at (ground arith))
            ]
      ]

  -- `copyin` reads what a copy byte by byte reads, and fails exactly when that does: when a page of the range is
  -- not mapped.
  pub copyin-bytes_at : (va len : ℕ) → va + len ≤ 2 ^ 63 → copyin page mem va len ≡ bytes_at va len
  unfolding copyin
  copyin-bytes_at va len top = copyin_loop-bytes_at len va len (omega arith) top

  copyinstr_loop-string_at :
      (rounds va left : ℕ)
      → left ≤ rounds
      → va + left ≤ 2 ^ 63
      → copyinstr_loop page mem rounds va left ≡ string_at va left
  unfolding copyinstr_loop
  copyinstr_loop-string_at zero va left le top =
      let none_left : 0 ≡ left = omega arith in string_at_nil va ∙ ap (string_at va) none_left
  copyinstr_loop-string_at (suc rounds) va left le top =
      let va0 : ℕ = pg_round_down va in
      let off : ℕ = va - va0 in
      let n : ℕ = piece va left in
      let at : va0 + off ≡ va = omega arith in
      elim (Bool-cases (left == 0)) [
        | inl y ↦
            let none_left : 0 ≡ left = ground arith in
            rw y (string_at_nil va ∙ ap (string_at va) none_left)
        | inr g ↦
            let some_left : suc (left - 1) ≡ left = ground arith in
            elim (Bool-cases (page va0 == 0)) [
              | inl z ↦
                  rw (g, z)
                    (sym (
                      ap (string_at va) (sym some_left)
                      ∙ string_at-none va (left - 1) (
                          ap byte_at (sym at)
                          ∙ byte_at-none va0 off (omega arith) (omega arith) z)))
              | inr m ↦
                  let rest =
                    copyinstr_loop-string_at rounds (u64 (va + n)) (left - n) (ground arith)
                      (ground arith) in
                  let next : u64 (va + n) ≡ va0 + (off + n) = ground arith in
                  rw (g, m)
                    (ap (finish (scan mem (page va0 + off) n))
                        (rest ∙ ap (λ v. string_at v (left - n)) next)
                      ∙ sym (string_at-scan n (left - n) va0 off (omega arith) (ground arith) m)
                      ∙ ap₂ string_at at (ground arith))
            ]
      ]

  fetchstr_loop-string_at :
      (left va : ℕ) → va + left ≤ 2 ^ 63 → fetchstr_loop page mem va left ≡ string_at va left
  unfolding fetchstr_loop string_at
  fetchstr_loop-string_at zero va top = refl
  fetchstr_loop-string_at (suc left) va top =
      let one = copyin-bytes_at va 1 (omega arith) in
      let next : u64 (va + 1) ≡ va + 1 = omega arith in
      elim (Option-cases (byte_at va)) [
        | inl e ↦ ground (arith, one ∙ bytes_at-none va 0 e, e)
        | inr (c, e) ↦
            let got : copyin page mem va 1 ≡ some (c ∷ []) =
              one ∙ bytes_at-suc va 0 c e ∙ ap (append (c ∷ [])) (sym (bytes_at_nil (va + 1))) in
            let rest =
              ap (λ v. fetchstr_loop page mem v left) next
              ∙ fetchstr_loop-string_at left (va + 1) (omega arith) in
            ground (arith, got, e, rest)
      ]

  -- `copyinstr`, which goes page by page, and `fetchstr`, which goes byte by byte, read the same
  -- string for a room that is an `int`, and fail together: when it reaches a page that is not mapped, or has no 0 in the room.
  pub copyinstr-fetchstr :
      (va max_len : ℕ)
      → max_len < 2 ^ 31
      → va + max_len ≤ 2 ^ 63
      → copyinstr page mem va max_len ≡ fetchstr page mem va max_len
  unfolding copyinstr fetchstr
  copyinstr-fetchstr va max_len lt top =
      let room : max_len ≡ int_room (max_len % 2 ^ 32) = ground arith in
      copyinstr_loop-string_at max_len va max_len (omega arith) top
      ∙ sym (fetchstr_loop-string_at max_len va top)
      ∙ ap (fetchstr_loop page mem va) room
