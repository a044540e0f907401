-- ===== src/Fs/Directory/Lookup.antt =====
-- `dirlookup` finds the first entry of the directory with the name.
use zrhos.Base.{
  ℕ, zero, suc, ◌+◌, ◌-◌, ◌*◌, ◌≤◌, ◌<◌, ◌≡◌, refl, sym, ap, ap₂, ◌∙◌, ◌⊎◌, inl, inr, Bool, true,
  false, not, ◌&&◌, Option, some, none, List, ◌==◌, ltb, if◌then◌else◌, arith, Bool-cases,
  ℕ_discrete, u32, fun_ext,
}
use zrhos.Fs.Bitmap.{Superblock, Blocks}
use zrhos.Fs.Inode.{Outcome, returns, Node, ◌>>=◌}
use zrhos.Fs.Content.{readi}
use zrhos.Fs.Content.Bytes.{file_byte, file_bytes, IsFile, length-file_bytes}
use zrhos.Fs.Content.Read.{available, readi-file_bytes}
use zrhos.Fs.Directory.{
  Local, to_kernel, copy_bytes, same_name, dirlookup_loop, dirlookup, set_node, entered, look_end,
}
use zrhos.Fs.Directory.Names.{
  agree, same_name-agree, copy_bytes-inside, copy_bytes-outside, kernel_sink,
}

-- The inode number of entry `i` of the directory with these addresses.
unfoldable pub entry_inum : List ℕ → Blocks → ℕ → ℕ
entry_inum addrs d i = file_byte addrs d (16 * i) + 256 * file_byte addrs d (16 * i + 1)

-- The name of entry `i`: 14 bytes, and the memory behind the entry.
unfoldable pub entry_name : Local → List ℕ → Blocks → ℕ → Local
entry_name m addrs d i a = if ltb a 14 then file_byte addrs d (16 * i + 2 + a) else m (a + 2)

-- Entry `i` is in use and has the name.
unfoldable pub has_name : Local → Local → List ℕ → Blocks → ℕ → Bool
has_name name m addrs d i =
    not (entry_inum addrs d i == 0) && agree 15 name (entry_name m addrs d i) 0

-- The memory from `de` on, with entry `i` in it.
abbrev entry_memory : Local → Node → Blocks → ℕ → Local
entry_memory m dp d i = copy_bytes 0 (file_bytes dp.copy.addrs d (16 * i) 16) m

entry_memory-inside :
    (m : Local) (dp : Node) (d : Blocks) (i j : ℕ)
    → j < 16
    → entry_memory m dp d i j ≡ file_byte dp.copy.addrs d (16 * i + j)
entry_memory-inside m dp d i j lt =
    let at : j - 0 ≡ j = omega arith in
    copy_bytes-inside 16 dp.copy.addrs d (16 * i) 0 j m (omega arith) (omega arith)
    ∙ ap (λ k. file_byte dp.copy.addrs d (16 * i + k)) at

entry_memory-outside :
    (m : Local) (dp : Node) (d : Blocks) (i j : ℕ) → 16 ≤ j → entry_memory m dp d i j ≡ m j
entry_memory-outside m dp d i j le =
    copy_bytes-outside (file_bytes dp.copy.addrs d (16 * i) 16) 0 j m
      (inr (omega (arith, length-file_bytes dp.copy.addrs d (16 * i) 16)))

entry_memory-inum :
    (m : Local) (dp : Node) (d : Blocks) (i : ℕ)
    → entry_memory m dp d i 0 + 256 * entry_memory m dp d i 1 ≡ entry_inum dp.copy.addrs d i
unfolding entry_inum
entry_memory-inum m dp d i =
    let first : 16 * i + 0 ≡ 16 * i = omega arith in
    ap₂ (λ x y. x + 256 * y)
      (entry_memory-inside m dp d i 0 (omega arith) ∙ ap (file_byte dp.copy.addrs d) first)
      (entry_memory-inside m dp d i 1 (omega arith))

entry_memory-name :
    (name m : Local) (dp : Node) (d : Blocks) (i : ℕ)
    → same_name name (λ a. entry_memory m dp d i (a + 2))
      ≡ agree 15 name (entry_name m dp.copy.addrs d i) 0
unfolding entry_name
entry_memory-name name m dp d i =
    same_name-agree name (λ a. entry_memory m dp d i (a + 2)) (entry_name m dp.copy.addrs d i)
      (λ j lt. elim (Bool-cases (ltb j 14)) [
        | inl y ↦
            let at : 16 * i + (j + 2) ≡ 16 * i + 2 + j = omega arith in
            rw y (
              entry_memory-inside m dp d i (j + 2) (ground arith)
              ∙ ap (file_byte dp.copy.addrs d) at)
        | inr g ↦ rw g (entry_memory-outside m dp d i (j + 2) (ground arith))
      ])

module _ (sb : Superblock) (datastart : ℕ) (name : Local) where
  read_entry :
      (m : Local) (dp : Node) (d : Blocks) (i : ℕ)
      → IsFile dp d
      → 16 * i < dp.copy.size
      → readi sb datastart to_kernel dp 0 (16 * i) 16 m d
        ≡ returns (some 16, entry_memory m dp d i, dp, d)
  read_entry m dp d i h lt =
      let read =
        readi-file_bytes sb datastart to_kernel kernel_sink (λ dst l m. refl) 0 (16 * i) 16 m dp d h
          (omega arith) (omega arith) (omega arith) in
      let inside : ltb (268 * 1024) (16 * i + 16) ≡ false = ground (arith, h.size_fits) in
      let count : available 16 (16 * i) dp.copy.size ≡ 16 = omega (arith, h.size_fits) in
      read ∙ rw (inside, count) refl

  abbrev Hit : Local → ℕ → Node → Blocks → Outcome (Option (ℕ × ℕ) × Node × Blocks) → Type 0
  Hit m i dp d o =
      (j : ℕ) × (i ≤ j)
      × (16 * j < dp.copy.size)
      × (has_name name m dp.copy.addrs d j ≡ true)
      × ((l : ℕ) → i ≤ l → l < j → has_name name m dp.copy.addrs d l ≡ false)
      × (o ≡ returns (some (16 * j, entry_inum dp.copy.addrs d j), dp, d))

  abbrev Miss : Local → ℕ → Node → Blocks → Outcome (Option (ℕ × ℕ) × Node × Blocks) → Type 0
  Miss m i dp d o =
      ((j : ℕ) → i ≤ j → 16 * j < dp.copy.size → has_name name m dp.copy.addrs d j ≡ false)
      × (o ≡ returns (none, dp, d))

  has_name_ext :
      (m : Local) (dp : Node) (d : Blocks) (i j : ℕ)
      → has_name name (entry_memory m dp d i) dp.copy.addrs d j ≡ has_name name m dp.copy.addrs d j
  unfolding has_name entry_name
  has_name_ext m dp d i j =
      ap (λ f. not (entry_inum dp.copy.addrs d j == 0) && agree 15 name f 0)
        (fun_ext (λ a. elim (Bool-cases (ltb a 14)) [
          | inl y ↦ rw y refl
          | inr g ↦ rw g (entry_memory-outside m dp d i (a + 2) (ground arith))
        ]))

  entry_memory-has_name :
      (m : Local) (dp : Node) (d : Blocks) (i : ℕ)
      → let de = entry_memory m dp d i in
        not (de 0 + 256 * de 1 == 0) && same_name name (λ a. de (a + 2))
        ≡ has_name name m dp.copy.addrs d i
  unfolding has_name
  entry_memory-has_name m dp d i =
      ap₂ (λ x b. not (x == 0) && b) (entry_memory-inum m dp d i) (entry_memory-name name m dp d i)

  look_on :
      (m : Local) (dp : Node) (d : Blocks) (i : ℕ) (o : Outcome (Option (ℕ × ℕ) × Node × Blocks))
      → has_name name m dp.copy.addrs d i ≡ false
      → Hit (entry_memory m dp d i) (i + 1) dp d o ⊎ Miss (entry_memory m dp d i) (i + 1) dp d o
      → Hit m i dp d o ⊎ Miss m i dp d o
  look_on m dp d i o other (inl (j, le, lt, is, before, result)) = inl (
    j,
    omega arith,
    lt,
    sym (has_name_ext m dp d i j) ∙ is,
    (λ l from below. elim (ℕ_discrete i l) [
      | yes here ↦ ap (λ x. has_name name m dp.copy.addrs d x) (sym here) ∙ other
      | no later ↦ sym (has_name_ext m dp d i l) ∙ before l (omega arith) below
    ]),
    result,
  )
  look_on m dp d i o other (inr (before, result)) = inr (
    (λ l from below. elim (ℕ_discrete i l) [
      | yes here ↦ ap (λ x. has_name name m dp.copy.addrs d x) (sym here) ∙ other
      | no later ↦ sym (has_name_ext m dp d i l) ∙ before l (omega arith) below
    ]),
    result,
  )

  dirlookup_loop-first :
      (rounds i : ℕ) (m : Local) (dp : Node) (d : Blocks)
      → IsFile dp d
      → dp.copy.size ≤ 16 * i + rounds
      → let o = dirlookup_loop sb datastart name rounds (16 * i) m dp d in
        Hit m i dp d o ⊎ Miss m i dp d o
  unfolding dirlookup_loop
  dirlookup_loop-first zero i m dp d h enough = inr ((λ j le lt. absurd (omega arith)), refl)
  dirlookup_loop-first (suc rounds) i m dp d h enough =
      elim (Bool-cases (ltb (16 * i) dp.copy.size)) [
        | inr g ↦ inr ((λ j le lt. absurd (ground arith)), rw (g, dirlookup_loop) refl)
        | inl y ↦
            let read = read_entry m dp d i h (ground arith) in
            let test = entry_memory-has_name m dp d i in
            let inum = entry_memory-inum m dp d i in
            elim (Bool-cases (has_name name m dp.copy.addrs d i)) [
              | inl found ↦ inl (
                i,
                omega arith,
                ground arith,
                found,
                (λ l from below. absurd (omega arith)),
                rw (y, read, ◌>>=◌, test, found, inum, dirlookup_loop) refl,
              )
              | inr other ↦
                  let next : u32 (16 * i + 16) ≡ 16 * (i + 1) = ground (arith, h.size_fits) in
                  look_on m dp d i _ other (
                    rw (y, read, ◌>>=◌, test, other, next, dirlookup_loop)
                      (dirlookup_loop-first rounds (i + 1) (entry_memory m dp d i) dp d h
                        (omega arith)))
            ]
      ]

unchanged : (t : ℕ → Node) (k : ℕ) → set_node t k (t k) ≡ t
unchanged t k = fun_ext (λ j. elim (Bool-cases (k == j)) [
  | inl y ↦ let same : k ≡ j = ground arith in rw y (ap t same)
  | inr g ↦ rw g refl
])

-- `dirlookup` in a directory that ends with its last block, entry by entry: it finds the first entry in use
-- whose name agrees with the one looked for, up to a common 0 or in 15 bytes, and returns its offset and
-- what `iget` gives for its inode; if there is none, it returns the null pointer and changes nothing. It
-- does not panic for a short read.
pub dirlookup-first :
    (sb : Superblock) (datastart : ℕ) (name m : Local) (k : ℕ) (d : Blocks) (t : ℕ → Node)
    → IsFile (t k) d
    → (t k).copy.type ≡ 1
    → let addrs = (t k).copy.addrs in
      let size = (t k).copy.size in
      let o = dirlookup sb datastart name m k d t in
      ((j : ℕ) × (16 * j < size)
        × (has_name name m addrs d j ≡ true)
        × ((l : ℕ) → l < j → has_name name m addrs d l ≡ false)
        × (o ≡ entered (t k).slot.dev (16 * j) (entry_inum addrs d j) d t))
      ⊎ (((j : ℕ) → 16 * j < size → has_name name m addrs d j ≡ false) × (o ≡ returns (none, d, t)))
unfolding dirlookup
dirlookup-first sb datastart name m k d t h is_dir =
    let dir : ((t k).copy.type == 1) ≡ true = ground arith in
    let same = unchanged t k in
    let from : 0 ≡ 16 * 0 = omega arith in
    let size = (t k).copy.size in
    let loop = ap (λ o. dirlookup_loop sb datastart name size o m (t k) d >>= look_end k t) from in
    elim (dirlookup_loop-first sb datastart name size 0 m (t k) d h (omega arith)) [
      | inl (j, le, lt, found, before, result) ↦ inl (
        j,
        lt,
        found,
        (λ l below. before l (omega arith) below),
        rw dir (
            loop
            ∙ ap (λ o. o >>= look_end k t) result
            ∙ ap (entered (t k).slot.dev (16 * j) (entry_inum (t k).copy.addrs d j) d) same),
      )
      | inr (before, result) ↦ inr (
        (λ j lt. before j (omega arith) lt),
        rw dir (loop ∙ ap (λ o. o >>= look_end k t) result ∙ ap (λ u. returns (none, d, u)) same),
      )
    ]
