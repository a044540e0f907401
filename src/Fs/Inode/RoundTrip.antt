-- ===== src/Fs/Inode/RoundTrip.antt =====
-- What `iupdate` writes for one inode is what `ilock` reads for it, and no other inode changes.
use zrhos.Base.{
  ℕ, ◌+◌, ◌-◌, ◌*◌, ◌/◌, ◌%◌, ◌^◌, ◌≤◌, ◌<◌, ◌≡◌, ◌≢◌, inl, inr, refl, sym, ap, ◌∙◌, true, false,
  ◌==◌, if◌then◌else◌, arith, length, All, Bool-cases, ltb,
}
use zrhos.Fs.Bitmap.{Superblock, Blocks}
use zrhos.Fs.Bytes.{
  read16, write16, write32, read_words, write_words, Outside, write16-Outside, read16-outside,
  write32-Outside, read32-outside, read16-write16, read32-write32, write_words-Outside,
  read_words-outside, read_words-write_words,
}
use zrhos.Fs.Inode.{
  Dinode, Node, read_dinode, write_dinode, inode_block, iupdate, ilock, load, acquire, returns,
  panics, Outcome,
}

-- The fields are patterns of 16 and 32 bits, and there are 13 block numbers.
pub record IsDinode (c : Dinode) : Type 0 where
  pub type_fits : c.type < 2 ^ 16
  pub major_fits : c.major < 2 ^ 16
  pub minor_fits : c.minor < 2 ^ 16
  pub nlink_fits : c.nlink < 2 ^ 16
  pub size_fits : c.size < 2 ^ 32
  pub count : length c.addrs ≡ 13
  pub addrs_fit : All (λ x. x < 2 ^ 32) c.addrs

module _ (d : Blocks) (n o : ℕ) (c : Dinode) where
  abbrev after_type : Blocks
  after_type = write16 d n o c.type

  abbrev after_major : Blocks
  after_major = write16 after_type n (o + 2) c.major

  abbrev after_minor : Blocks
  after_minor = write16 after_major n (o + 4) c.minor

  abbrev after_nlink : Blocks
  after_nlink = write16 after_minor n (o + 6) c.nlink

  abbrev after_size : Blocks
  after_size = write32 after_nlink n (o + 8) c.size

  abbrev all_written : Blocks
  all_written = write_words after_size n (o + 12) c.addrs

  keep_size : (j : ℕ) → j < o + 12 → all_written n j ≡ after_size n j
  keep_size j lt = write_words-Outside after_size n (o + 12) c.addrs n j (inr (inl lt))

  keep_nlink : (j : ℕ) → j < o + 8 → all_written n j ≡ after_nlink n j
  keep_nlink j lt =
      keep_size j (omega arith) ∙ write32-Outside after_nlink n (o + 8) c.size n j (inr (inl lt))

  keep_minor : (j : ℕ) → j < o + 6 → all_written n j ≡ after_minor n j
  keep_minor j lt =
      keep_nlink j (omega arith) ∙ write16-Outside after_minor n (o + 6) c.nlink n j (inr (inl lt))

  keep_major : (j : ℕ) → j < o + 4 → all_written n j ≡ after_major n j
  keep_major j lt =
      keep_minor j (omega arith) ∙ write16-Outside after_major n (o + 4) c.minor n j (inr (inl lt))

  keep_type : (j : ℕ) → j < o + 2 → all_written n j ≡ after_type n j
  keep_type j lt =
      keep_major j (omega arith) ∙ write16-Outside after_type n (o + 2) c.major n j (inr (inl lt))

  read16_after :
      (e : Blocks) (k x : ℕ)
      → x < 2 ^ 16
      → ((j : ℕ) → j < k + 2 → all_written n j ≡ write16 e n k x n j)
      → read16 all_written n k ≡ x
  read16_after e k x lt keep =
      let same = read16-outside all_written (write16 e n k x) n k (λ j le below. keep j below) in
      omega (arith, same, read16-write16 e n k x)

  read_dinode-write_dinode : IsDinode c → read_dinode (write_dinode d n o c) n o ≡ c
  unfolding read_dinode write_dinode
  read_dinode-write_dinode h =
      let f1 = read16_after d o c.type h.type_fits keep_type in
      let f2 =
        read16_after after_type (o + 2) c.major h.major_fits (λ j lt. keep_major j (omega arith)) in
      let f3 =
        read16_after after_major (o + 4) c.minor h.minor_fits
          (λ j lt. keep_minor j (omega arith)) in
      let f4 =
        read16_after after_minor (o + 6) c.nlink h.nlink_fits
          (λ j lt. keep_nlink j (omega arith)) in
      let f5 =
        read32-outside all_written after_size n (o + 8) (λ j le lt. keep_size j (omega arith))
        ∙ read32-write32 after_nlink n (o + 8) c.size h.size_fits in
      let f6 =
        ap (read_words all_written n (o + 12)) (sym h.count)
        ∙ read_words-write_words after_size n (o + 12) c.addrs h.addrs_fit in
      rw (f1, f2, f3, f4, f5, f6) refl

  -- Outside the 64 bytes nothing is written.
  pub write_dinode-Outside :
      (m j : ℕ) → length c.addrs ≡ 13 → Outside n o 64 m j → write_dinode d n o c m j ≡ d m j
  unfolding write_dinode
  write_dinode-Outside m j len out =
      write_words-Outside after_size n (o + 12) c.addrs m j (ground arith)
      ∙ write32-Outside after_nlink n (o + 8) c.size m j (ground arith)
      ∙ write16-Outside after_minor n (o + 6) c.nlink m j (ground arith)
      ∙ write16-Outside after_major n (o + 4) c.minor m j (ground arith)
      ∙ write16-Outside after_type n (o + 2) c.major m j (ground arith)
      ∙ write16-Outside d n o c.type m j (ground arith)

pub read_dinode_ext :
    (d e : Blocks) (n o : ℕ)
    → ((j : ℕ) → o ≤ j → j < o + 64 → d n j ≡ e n j)
    → read_dinode d n o ≡ read_dinode e n o
unfolding read_dinode
read_dinode_ext d e n o same =
    let f1 = read16-outside d e n o (λ j le lt. same j le (omega arith)) in
    let f2 = read16-outside d e n (o + 2) (λ j le lt. same j (omega arith) (omega arith)) in
    let f3 = read16-outside d e n (o + 4) (λ j le lt. same j (omega arith) (omega arith)) in
    let f4 = read16-outside d e n (o + 6) (λ j le lt. same j (omega arith) (omega arith)) in
    let f5 = read32-outside d e n (o + 8) (λ j le lt. same j (omega arith) (omega arith)) in
    let f6 = read_words-outside d e n (o + 12) 13 (λ j le lt. same j (omega arith) (omega arith)) in
    rw (f1, f2, f3, f4, f5, f6) refl

-- The inode `i` on the disk.
unfoldable pub disk_inode : Superblock → Blocks → ℕ → Dinode
disk_inode sb d i = read_dinode d (inode_block i sb) (i % 16 * 64)

pub disk_inode-iupdate :
    (sb : Superblock) (d : Blocks) (ip : Node) (i : ℕ)
    → IsDinode ip.copy
    → sb.ninodes / 16 + sb.inodestart < 2 ^ 32
    → ip.slot.inum < sb.ninodes
    → i < sb.ninodes
    → disk_inode sb (iupdate sb ip d) i ≡ (if ip.slot.inum == i then ip.copy else disk_inode sb d i)
unfolding disk_inode iupdate
disk_inode-iupdate sb d ip i h fits own lt =
    let n = inode_block ip.slot.inum sb in
    let o = ip.slot.inum % 16 * 64 in
    let e = write_dinode d n o ip.copy in
    elim (Bool-cases (ip.slot.inum == i)) [
      | inl y ↦
          let same : ip.slot.inum ≡ i = ground arith in
          rw y (
            ap (λ k. read_dinode e (inode_block k sb) (k % 16 * 64)) (sym same)
            ∙ read_dinode-write_dinode d n o ip.copy h)
      | inr g ↦
          let apart : ip.slot.inum ≢ i = ground arith in
          rw g (
            read_dinode_ext e d (inode_block i sb) (i % 16 * 64) (λ j le below.
              write_dinode-Outside d n o ip.copy (inode_block i sb) j h.count
                (outside j apart le below)))
    ]
  where
    outside :
        (j : ℕ)
        → ip.slot.inum ≢ i
        → i % 16 * 64 ≤ j
        → j < i % 16 * 64 + 64
        → Outside (inode_block ip.slot.inum sb) (ip.slot.inum % 16 * 64) 64 (inode_block i sb) j
    outside j apart le below = ground arith

abbrev pub loaded : Node → Dinode → Node
loaded ip c = record ip { slot = record (ip.slot) { valid = true }; lock = 0; copy = c }

abbrev pub loading : Node → Dinode → Outcome Node
loading jp c = if c.type == 0 then panics else returns (loaded jp c)

pub ilock-loading :
    (sb : Superblock) (d : Blocks) (jp : Node)
    → 0 < jp.slot.ref
    → jp.slot.ref < 2 ^ 31
    → jp.slot.valid ≡ false
    → jp.lock ≡ 1
    → ilock sb d jp ≡ loading jp (disk_inode sb d jp.slot.inum)
unfolding ilock load acquire disk_inode
ilock-loading sb d jp some_ref small invalid lock_free =
    let has_ref : (jp.slot.ref == 0) ≡ false = ground arith in
    let positive : ltb (2 ^ 31 - 1) jp.slot.ref ≡ false = ground arith in
    let unlocked : (jp.lock == 0) ≡ false = ground arith in
    rw (has_ref, positive, unlocked, invalid, lock_free) refl

-- After `iupdate` of `ip`, `ilock` of an inode `jp` that is not in memory yet and not locked: for the
-- same inode number it loads exactly the fields that were written, or panics if their type is 0, and
-- for every other inode it does what it would have done before.
pub ilock-iupdate :
    (sb : Superblock) (d : Blocks) (ip jp : Node)
    → IsDinode ip.copy
    → sb.ninodes / 16 + sb.inodestart < 2 ^ 32
    → ip.slot.inum < sb.ninodes
    → jp.slot.inum < sb.ninodes
    → 0 < jp.slot.ref
    → jp.slot.ref < 2 ^ 31
    → jp.slot.valid ≡ false
    → jp.lock ≡ 1
    → ilock sb (iupdate sb ip d) jp ≡ (
        if ip.slot.inum == jp.slot.inum
        then (if ip.copy.type == 0 then panics else returns (loaded jp ip.copy))
        else ilock sb d jp)
ilock-iupdate sb d ip jp h fits own lt some_ref small invalid lock_free =
    ilock-loading sb (iupdate sb ip d) jp some_ref small invalid lock_free
    ∙ ap (loading jp) (disk_inode-iupdate sb d ip jp.slot.inum h fits own lt)
    ∙ elim (Bool-cases (ip.slot.inum == jp.slot.inum)) [
      | inl y ↦ rw y refl
      | inr g ↦ rw g (sym (ilock-loading sb d jp some_ref small invalid lock_free))
    ]
