-- ===== src/Fs/Content/Read.antt =====
-- `readi` reads the bytes of the file.
use zrhos.Base.{
  ℕ, zero, suc, ◌+◌, ◌-◌, ◌*◌, ◌/◌, ◌^◌, ◌≤◌, ◌<◌, ◌≡◌, refl, sym, ap, ap₂, ◌∙◌, inl, inr, Bool,
  true, false, List, some, none, [], ◌++◌, ◌==◌, ltb, if◌then◌else◌, arith, min, length, Bool-cases,
  u32, u64, dec_le,
}
use zrhos.Fs.Bitmap.{Superblock, Blocks}
use zrhos.Fs.Inode.{Outcome, returns, Node, ◌>>=◌}
use zrhos.Fs.Content.{lookup, chunk, readi_loop, readi, out_of_range}
use zrhos.Fs.Content.Bytes.{
  file_bytes, capacity, IsFile, bmap-lookup, block_bytes-file_bytes, file_bytes-append,
  length-file_bytes,
}

-- A memory that bytes are copied into.
pub record Sink (M : Type 0) : Type 0 where
  pub put : ℕ → List ℕ → M → M
  pub put_nil : (dst : ℕ) (m : M) → put dst [] m ≡ m
  pub put_append :
      (dst : ℕ) (k l : List ℕ) (m : M) → put (dst + length k) l (put dst k m) ≡ put dst (k ++ l) m

pub present_block :
    (ip : Node) (d : Blocks) (k : ℕ)
    → IsFile ip d
    → k < 268
    → (lookup ip.copy.addrs d k == 0) ≡ false
    → k * 1024 < ip.copy.size
present_block ip d k h small some_block = elim (dec_le ip.copy.size (k * 1024)) [
  | yes past ↦ absurd (ground (arith, h.ends k small past))
  | no inside ↦ omega arith
]

-- How much of `n` bytes at `off` the blocks of the file hold.
abbrev pub available : ℕ → ℕ → ℕ → ℕ
available n off size = min n (capacity size - off)

module _ (sb : Superblock) (datastart : ℕ) {M : Type 0} (copyout : ℕ → List ℕ → M → M × Bool)
    (s : Sink M)
    (copies : (dst : ℕ) (l : List ℕ) (m : M) → copyout dst l m ≡ (s.put dst l m, true)) where
  -- The outcome with `c` bytes more.
  abbrev read_on : ℕ → ℕ → ℕ → ℕ → M → Node → Blocks → Outcome (ℕ × M × Node × Blocks)
  read_on c tot dst off m ip d =
      returns (tot + c, s.put dst (file_bytes ip.copy.addrs d off c) m, ip, d)

  read_nothing :
      (c tot dst off : ℕ) (m : M) (ip : Node) (d : Blocks)
      → c ≡ 0
      → returns (tot, m, ip, d) ≡ read_on c tot dst off m ip d
  unfolding file_bytes
  read_nothing c tot dst off m ip d none_left =
      let sum : tot ≡ tot + 0 = omega arith in
      ap₂ (λ k x. returns (k, x, ip, d)) sum (sym (s.put_nil dst m))
      ∙ ap (λ k. read_on k tot dst off m ip d) (sym none_left)

  read_more :
      (len c tot dst off : ℕ) (m : M) (ip : Node) (d : Blocks)
      → read_on c
          (tot + len)
          (dst + len)
          (off + len)
          (s.put dst (file_bytes ip.copy.addrs d off len) m)
          ip
          d
        ≡ read_on (len + c) tot dst off m ip d
  read_more len c tot dst off m ip d =
      let addrs = ip.copy.addrs in
      let sum : tot + len + c ≡ tot + (len + c) = omega arith in
      ap₂ (λ k x. returns (k, x, ip, d)) sum
        (ap
            (λ k.
              s.put (dst + k) (file_bytes addrs d (off + len) c)
                (s.put dst (file_bytes addrs d off len) m))
            (sym (length-file_bytes addrs d off len))
          ∙ s.put_append dst (file_bytes addrs d off len) (file_bytes addrs d (off + len) c) m
          ∙ ap (λ l. s.put dst l m) (file_bytes-append addrs d off len c))

  readi_loop-file_bytes :
      (rounds n tot dst off : ℕ) (m : M) (ip : Node) (d : Blocks)
      → IsFile ip d
      → tot ≤ n
      → n - tot ≤ rounds
      → off ≤ capacity ip.copy.size
      → off + (n - tot) ≤ 268 * 1024
      → dst + (n - tot) < 2 ^ 64
      → readi_loop sb datastart copyout rounds n tot dst off m ip d
        ≡ read_on (available (n - tot) off ip.copy.size) tot dst off m ip d
  unfolding readi_loop
  readi_loop-file_bytes zero n tot dst off m ip d h le enough near small fits =
      read_nothing (available (n - tot) off ip.copy.size) tot dst off m ip d (omega arith)
  readi_loop-file_bytes (suc rounds) n tot dst off m ip d h le enough near small fits =
      elim (Bool-cases (ltb tot n)) [
        | inr g ↦
            rw (g, readi_loop)
              (read_nothing (available (n - tot) off ip.copy.size) tot dst off m ip d
                (ground arith))
        | inl y ↦
            let at = bmap-lookup sb datastart ip (off / 1024) d (ground arith) (omega arith) in
            elim (Bool-cases (lookup ip.copy.addrs d (off / 1024) == 0)) [
              | inl z ↦
                  rw (y, at, ◌>>=◌, z, readi_loop)
                    (read_nothing (available (n - tot) off ip.copy.size) tot dst off m ip d
                      (at_end z))
              | inr some_block ↦
                  let len = chunk (n - tot) off in
                  let here = present_block ip d (off / 1024) h (ground arith) some_block in
                  let bytes = block_bytes-file_bytes ip.copy.addrs d off len (ground arith) in
                  let copied =
                    ap (λ l. copyout dst l m) bytes
                    ∙ copies dst (file_bytes ip.copy.addrs d off len) m in
                  let next_dst : u64 (dst + len) ≡ dst + len = ground arith in
                  let next_off : u32 (off + len) ≡ off + len = ground arith in
                  let rest =
                    readi_loop-file_bytes rounds n (tot + len) (dst + len) (off + len)
                      (s.put dst (file_bytes ip.copy.addrs d off len) m) ip d h (ground arith)
                      (ground arith) (ground (arith, here)) (ground arith) (ground arith) in
                  let total : available (n - tot) off ip.copy.size
                      ≡ len + available (n - (tot + len)) (off + len) ip.copy.size =
                    ground (arith, here) in
                  rw (y, at, ◌>>=◌, some_block, copied, next_dst, next_off, copied, readi_loop)
                    (rest
                      ∙ read_more len (available (n - (tot + len)) (off + len) ip.copy.size) tot dst
                          off m ip d
                      ∙ ap (λ c. read_on c tot dst off m ip d) (sym total))
            ]
      ]
    where
      at_end :
          (lookup ip.copy.addrs d (off / 1024) == 0) ≡ true
          → available (n - tot) off ip.copy.size ≡ 0
      at_end z = elim (dec_le ip.copy.size (off / 1024 * 1024)) [
        | yes past ↦ omega arith
        | no inside ↦ absurd (h.full (off / 1024) (omega arith) (ground arith))
      ]

  -- `readi` of `n` bytes from `off` up to the size on, of a file that ends with its last block, where the
  -- copies succeed: it copies the bytes of the file from there, as many of the `n` as its blocks hold, also
  -- behind the size, returns their number, and changes neither the inode nor the disk. -1 is only for a
  -- range past the largest file.
  pub readi-file_bytes :
      (dst off n : ℕ) (m : M) (ip : Node) (d : Blocks)
      → IsFile ip d
      → off ≤ ip.copy.size
      → n < 2 ^ 31
      → dst + n < 2 ^ 64
      → let c = available n off ip.copy.size in
        readi sb datastart copyout ip dst off n m d ≡ (
          if ltb (268 * 1024) (off + n)
          then returns (none, m, ip, d)
          else returns (some c, s.put dst (file_bytes ip.copy.addrs d off c) m, ip, d))
  unfolding readi
  readi-file_bytes dst off n m ip d h near small fits =
      elim (Bool-cases (ltb (268 * 1024) (off + n))) [
        | inl y ↦
            let guard : out_of_range off n ip.copy.size ≡ true = ground (arith, h.size_fits) in
            rw (y, guard, readi) refl
        | inr g ↦
            let guard : out_of_range off n ip.copy.size ≡ false = ground (arith, h.size_fits) in
            let loop =
              readi_loop-file_bytes n n 0 dst off m ip d h (omega arith) (omega arith) (omega arith)
                (ground arith) (omega arith) in
            let all_left : n - 0 ≡ n = omega arith in
            let sum : 0 + available n off ip.copy.size ≡ available n off ip.copy.size =
              omega arith in
            rw (g, guard, loop, ◌>>=◌, all_left, sum, readi) refl
      ]
