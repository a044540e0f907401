-- ===== src/Fs/Content/Write.antt =====
-- `writei` writes the bytes of the file that have a block, and no other bytes.
use zrhos.Base.{
  ℕ, zero, suc, ◌+◌, ◌-◌, ◌*◌, ◌/◌, ◌%◌, ◌^◌, ◌≤◌, ◌<◌, ◌≡◌, ◌≢◌, refl, sym, ap, ap₂, subst,
  fun_ext, ◌∙◌, inl, inr, Bool, true, false, List, ◌==◌, ltb, if◌then◌else◌, arith, Bool-cases,
  ℕ_discrete, u32, u64, dec_le,
}
use zrhos.Fs.Bitmap.{Superblock, Blocks}
use zrhos.Fs.Inode.{Outcome, returns, Node, ◌>>=◌}
use zrhos.Fs.Content.{lookup, store_bytes, settle, chunk, writei_loop}
use zrhos.Fs.Content.Bytes.{capacity, IsFile, bmap-lookup}
use zrhos.Fs.Content.Read.{available, present_block}
use zrhos.Fs.Content.Written.{
  IsPlain, source_bytes, Written, store_bytes-outside, Written-nothing, Written-round, Written-lost,
  Written-trans, IsFile-Written, IsPlain-Written,
}

-- A source of `n` bytes at `src` that can be copied, in pieces.
abbrev pub Supplies : (ℕ → ℕ → List ℕ × Bool) → ℕ → (ℕ → ℕ) → ℕ → Type 0
Supplies copyin src val n =
    (k len : ℕ) → k + len ≤ n → copyin (src + k) len ≡ (source_bytes val k len, true)

-- No block that the cache does not keep has an older change that is not on the disk.
abbrev pub Clean : (ℕ → Bool) → Blocks → Blocks → Type 0
Clean kept on_disk d = (n j : ℕ) → kept n ≡ false → on_disk n j ≡ d n j

-- What a round leaves of a block.
abbrev left : (ℕ → Bool) → ℕ → Blocks → Blocks → Blocks
left kept n d f = if kept n then f else d

settle-left :
    (kept : ℕ → Bool) (on_disk : Blocks) (n : ℕ) (d f : Blocks)
    → Clean kept on_disk d
    → settle kept on_disk n d f ≡ left kept n d f
settle-left kept on_disk n d f clean = elim (Bool-cases (kept n)) [
  | inl y ↦ rw y refl
  | inr g ↦ rw g (
      fun_ext (λ m. fun_ext (λ j. elim (ℕ_discrete n m) [
        | yes here ↦ ground (arith, subst (λ x. on_disk x j ≡ d x j) here (clean n j g), here)
        | no there ↦ ground (arith, there)
      ])))
]

Clean-left :
    (kept : ℕ → Bool) (on_disk : Blocks) (n o : ℕ) (l : List ℕ) (d : Blocks)
    → Clean kept on_disk d
    → ((m j : ℕ) → n ≢ m → store_bytes d n o l m j ≡ d m j)
    → Clean kept on_disk (left kept n d (store_bytes d n o l))
Clean-left kept on_disk n o l d clean apart m j g = elim (Bool-cases (kept n)) [
  | inr h ↦ rw h (clean m j g)
  | inl y ↦
      let other : n ≢ m = λ same. kept_both y (ap kept same) in
      rw y (clean m j g ∙ sym (apart m j other))
]
  where
    kept_both : kept n ≡ true → kept n ≡ kept m → ⊥
    kept_both y e = ground (arith, y, e, g)

module _ (sb : Superblock) (datastart : ℕ) (kept : ℕ → Bool) (on_disk : Blocks)
    (copyin : ℕ → ℕ → List ℕ × Bool) (val : ℕ → ℕ) (src n : ℕ) (copies : Supplies copyin src val n)
    (fits : src + n < 2 ^ 64) where
  abbrev pub stopped : ℕ → ℕ → Node → Blocks → Outcome (ℕ × ℕ × Node × Blocks)
  stopped tot off ip d = returns (tot, off, ip, d)

  abbrev pub Wrote : ℕ → ℕ → ℕ → ℕ → Node → Blocks → Outcome (ℕ × ℕ × Node × Blocks) → Type 0
  Wrote c tot off k ip d o =
      (e : Blocks) × (o ≡ stopped (tot + c) (off + c) ip e) × Written kept val ip d e k off c

  stop_now :
      (c tot off : ℕ) (ip : Node) (d : Blocks)
      → c ≡ 0
      → Wrote c tot off tot ip d (returns (tot, off, ip, d))
  stop_now c tot off ip d zero_bytes =
      let t : tot ≡ tot + c = omega arith in
      let o : off ≡ off + c = omega arith in
      (d, ap₂ (λ x y. stopped x y ip d) t o, Written-nothing kept val ip d tot off c zero_bytes)

  stop_later :
      (len c tot off : ℕ) (ip : Node) (e : Blocks)
      → stopped (tot + len + c) (off + len + c) ip e
        ≡ stopped (tot + (len + c)) (off + (len + c)) ip e
  stop_later len c tot off ip e =
      let t : tot + len + c ≡ tot + (len + c) = omega arith in
      let o : off + len + c ≡ off + (len + c) = omega arith in ap₂ (λ x y. stopped x y ip e) t o

  pub writei_loop-Written :
      (rounds tot off : ℕ) (ip : Node) (d : Blocks)
      → IsFile ip d
      → IsPlain ip d
      → Clean kept on_disk d
      → tot ≤ n
      → n - tot ≤ rounds
      → off ≤ capacity ip.copy.size
      → off + (n - tot) ≤ 268 * 1024
      → Wrote
          (available (n - tot) off ip.copy.size)
          tot
          off
          tot
          ip
          d
          (writei_loop sb datastart kept on_disk copyin rounds n tot (src + tot) off ip d)
  unfolding writei_loop
  writei_loop-Written zero tot off ip d h plain clean le enough near small =
      stop_now (available (n - tot) off ip.copy.size) tot off ip d (omega arith)
  writei_loop-Written (suc rounds) tot off ip d h plain clean le enough near small =
      elim (Bool-cases (ltb tot n)) [
        | inr g ↦
            rw (g, writei_loop)
              (stop_now (available (n - tot) off ip.copy.size) tot off ip d (ground arith))
        | inl y ↦
            let at = bmap-lookup sb datastart ip (off / 1024) d (ground arith) (omega arith) in
            elim (Bool-cases (lookup ip.copy.addrs d (off / 1024) == 0)) [
              | inl z ↦
                  rw (y, at, ◌>>=◌, z, writei_loop)
                    (stop_now (available (n - tot) off ip.copy.size) tot off ip d (at_end z))
              | inr some_block ↦
                  let len = chunk (n - tot) off in
                  let here = present_block ip d (off / 1024) h (ground arith) some_block in
                  let copied = copies tot len (ground arith) in
                  let next_src : u64 (src + tot + len) ≡ src + (tot + len) = ground arith in
                  let next_off : u32 (off + len) ≡ off + len = ground arith in
                  let addr = lookup ip.copy.addrs d (off / 1024) in
                  let stored = store_bytes d addr (off % 1024) (source_bytes val tot len) in
                  let f = left kept addr d stored in
                  let settled = settle-left kept on_disk addr d stored clean in
                  let within : off % 1024 + len ≤ 1024 = ground arith in
                  let round : Written kept val ip d f tot off len = elim (Bool-cases (kept addr)) [
                    | inl y ↦ rw y (Written-round kept val ip d tot off len y plain within here)
                    | inr g ↦ rw g (Written-lost kept val ip d tot off len g within)
                  ] in
                  let clean' =
                    Clean-left kept on_disk addr (off % 1024) (source_bytes val tot len) d clean
                      (λ m j other.
                        store_bytes-outside val len d addr (off % 1024) tot m j (inl other)) in
                  let c = available (n - (tot + len)) (off + len) ip.copy.size in
                  let (e, loop, rest) =
                    writei_loop-Written rounds (tot + len) (off + len) ip f
                      (IsFile-Written kept val ip d f tot off len h round)
                      (IsPlain-Written kept val ip d f tot off len plain round) clean'
                      (ground arith) (ground arith) (ground (arith, here)) (ground arith) in
                  let total : len + c ≡ available (n - tot) off ip.copy.size =
                    ground (arith, here) in
                  rw
                    (
                      y, at, ◌>>=◌, some_block, copied, next_src, next_off, copied, settled,
                      writei_loop,
                    )
                    (subst
                      (λ x. Wrote x tot off tot ip d (
                        writei_loop sb datastart kept on_disk copyin rounds n (tot + len)
                          (src + (tot + len)) (off + len) ip f))
                      total
                      (
                        e,
                        loop ∙ stop_later len c tot off ip e,
                        Written-trans kept val ip d f e tot off len c (ground (arith, here)) round
                            rest,
                      ))
            ]
      ]
    where
      at_end :
          (lookup ip.copy.addrs d (off / 1024) == 0) ≡ true
          → available (n - tot) off ip.copy.size ≡ 0
      at_end z = elim (dec_le ip.copy.size (off / 1024 * 1024)) [
        | yes past ↦ omega arith
        | no inside ↦ absurd (h.full (off / 1024) (omega arith) (ground arith))
      ]
