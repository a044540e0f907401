-- ===== src/Fs/Content/RoundTrip.antt =====
-- What `writei` leaves on the disk, with the inode that it updates, and what `readi` then reads.
use zrhos.Base.{
  ℕ, zero, suc, ◌+◌, ◌-◌, ◌*◌, ◌/◌, ◌%◌, ◌^◌, ◌≤◌, ◌<◌, ◌≡◌, ◌≢◌, refl, sym, ap, ap₂, subst, ◌∙◌,
  ◌⊎◌, inl, inr, Bool, true, false, List, some, ◌∷◌, ltb, if◌then◌else◌, arith, get_or, length,
  Bool-cases, max,
}
use zrhos.Fs.Bitmap.{Superblock, Blocks}
use zrhos.Fs.Inode.{Outcome, returns, Node, ◌>>=◌, inode_block, iupdate}
use zrhos.Fs.Inode.RoundTrip.{write_dinode-Outside}
use zrhos.Fs.Content.{lookup, writei_loop, writei, readi, out_of_range, grown_to}
use zrhos.Fs.Content.Bytes.{file_byte, file_bytes, capacity, IsFile}
use zrhos.Fs.Content.Read.{available, Sink, readi-file_bytes}
use zrhos.Fs.Content.Written.{IsPlain, source_bytes, Written, lookup_ext}
use zrhos.Fs.Content.Write.{Supplies, Clean, writei_loop-Written}

-- The block of the inode holds no data of the file.
pub record IsApart (sb : Superblock) (ip : Node) (d : Blocks) : Type 0 where
  pub count : length ip.copy.addrs ≡ 13
  pub indirect : inode_block ip.slot.inum sb ≢ get_or ip.copy.addrs 12 0
  pub contents :
      (k : ℕ) → k * 1024 < ip.copy.size → lookup ip.copy.addrs d k ≢ inode_block ip.slot.inum sb

abbrev pub resized : Node → ℕ → Node
resized ip size = record ip { copy = record (ip.copy) { size = size } }

iupdate-outside :
    (sb : Superblock) (ip : Node) (d : Blocks) (n j : ℕ)
    → length ip.copy.addrs ≡ 13
    → inode_block ip.slot.inum sb ≢ n
    → iupdate sb ip d n j ≡ d n j
unfolding iupdate
iupdate-outside sb ip d n j len apart =
    write_dinode-Outside d (inode_block ip.slot.inum sb) (ip.slot.inum % 16 * 64) ip.copy n j len
      (inl apart)

file_byte_ext :
    (addrs : List ℕ) (d e : Blocks) (i : ℕ)
    → ((j : ℕ) → e (get_or addrs 12 0) j ≡ d (get_or addrs 12 0) j)
    → ((j : ℕ) → e (lookup addrs d (i / 1024)) j ≡ d (lookup addrs d (i / 1024)) j)
    → file_byte addrs e i ≡ file_byte addrs d i
unfolding file_byte
file_byte_ext addrs d e i indirect block =
    ap (λ n. e n (i % 1024)) (lookup_ext addrs d e (i / 1024) indirect) ∙ block (i % 1024)

-- The size after `c` bytes at `off`.
abbrev pub new_size : Node → ℕ → ℕ → ℕ
new_size ip off c = max ip.copy.size (off + c)

grown_to-resized : (ip : Node) (off : ℕ) → grown_to ip off ≡ resized ip (max ip.copy.size off)
grown_to-resized ip off = elim (Bool-cases (ltb ip.copy.size off)) [
  | inl y ↦ let size : off ≡ max ip.copy.size off = ground arith in rw y (ap (resized ip) size)
  | inr g ↦
      let size : ip.copy.size ≡ max ip.copy.size off = ground arith in rw g (ap (resized ip) size)
]

module _ (sb : Superblock) (datastart : ℕ) (kept : ℕ → Bool) (on_disk : Blocks)
    (copyin : ℕ → ℕ → List ℕ × Bool) (val : ℕ → ℕ) (src n : ℕ) (copies : Supplies copyin src val n)
    (fits : src + n < 2 ^ 64) (ip : Node) (d : Blocks) (off : ℕ) (file : IsFile ip d)
    (plain : IsPlain ip d) (clean : Clean kept on_disk d) (apart : IsApart sb ip d)
    (near : off ≤ ip.copy.size) (small : off + n ≤ 268 * 1024) where
  abbrev written : ℕ
  written = available n off ip.copy.size

  -- The cache keeps the block of byte `i`.
  abbrev stays : ℕ → Bool
  stays i = kept (lookup ip.copy.addrs d (i / 1024))

  abbrev after : Node
  after = resized ip (new_size ip off written)

  abbrev ended : ℕ → ℕ → Blocks → Outcome (ℕ × ℕ × Node × Blocks)
  ended tot off e = returns (tot, off, ip, e)

  writei-Written :
      (e : Blocks) × (writei sb datastart kept on_disk copyin ip src off n d
        ≡ returns (some written, after, iupdate sb after e))
      × Written kept val ip d e 0 off written
  unfolding writei
  writei-Written =
      let guard : out_of_range off n ip.copy.size ≡ false = ground (arith, file.size_fits) in
      let (e, loop, w) =
        writei_loop-Written sb datastart kept on_disk copyin val src n copies fits n 0 off ip d file
          plain clean (omega arith) (omega arith) (omega arith) (omega arith) in
      let all_left : n - 0 ≡ n = omega arith in
      let from : src + 0 ≡ src = omega arith in
      let sum : 0 + written ≡ written = omega arith in
      let w' =
        subst (λ k. Written kept val ip d e 0 off (available k off ip.copy.size)) all_left w in
      let loop' : writei_loop sb datastart kept on_disk copyin n n 0 src off ip d
          ≡ ended written (off + written) e =
        ap (λ s. writei_loop sb datastart kept on_disk copyin n n 0 s off ip d) (sym from)
        ∙ loop
        ∙ ap (λ k. ended (0 + available k off ip.copy.size) (off + available k off ip.copy.size) e)
            all_left
        ∙ ap (λ t. ended t (off + written) e) sum in
      (
        e,
        rw (guard, loop', ◌>>=◌, writei)
            (ap (λ jp. returns (some written, jp, iupdate sb jp e))
              (grown_to-resized ip (off + written))),
        w',
      )

  -- The disk behind `iupdate`.
  module _ (e : Blocks) (w : Written kept val ip d e 0 off written) where
    abbrev final : Blocks
    final = iupdate sb after e

    kept_blocks : (n j : ℕ) → inode_block ip.slot.inum sb ≢ n → final n j ≡ e n j
    kept_blocks n j other = iupdate-outside sb after e n j apart.count other

    same_lookup : (k : ℕ) → lookup ip.copy.addrs final k ≡ lookup ip.copy.addrs d k
    same_lookup k =
        lookup_ext ip.copy.addrs e final k
          (λ j. kept_blocks (get_or ip.copy.addrs 12 0) j apart.indirect)
        ∙ w.same_blocks k

    final-file_byte :
        (i : ℕ)
        → i < capacity ip.copy.size
        → file_byte ip.copy.addrs final i ≡ file_byte ip.copy.addrs e i
    final-file_byte i lt =
        file_byte_ext ip.copy.addrs e final i
          (λ j. kept_blocks (get_or ip.copy.addrs 12 0) j apart.indirect)
          (λ j. kept_blocks (lookup ip.copy.addrs e (i / 1024)) j (λ same.
            apart.contents (i / 1024) (omega arith) (sym (w.same_blocks (i / 1024)) ∙ sym same)))

    final-new :
        (i : ℕ)
        → off ≤ i
        → i < off + written
        → file_byte ip.copy.addrs final i
          ≡ (if stays i then val (i - off) else file_byte ip.copy.addrs d i)
    final-new i le lt =
        let at : 0 + (i - off) ≡ i - off = omega arith in
        final-file_byte i (omega arith)
        ∙ w.new_bytes i le lt
        ∙ ap (λ x. if stays i then x else file_byte ip.copy.addrs d i) (ap val at)

    final-IsFile : IsFile after final
    final-IsFile = record {
      size_fits = omega (arith, file.size_fits);
      full = λ k inside z. file.full k (omega arith) (sym (same_lookup k) ∙ z);
      ends = λ k lt past. same_lookup k ∙ file.ends k lt (omega arith);
    }

    final-file_bytes :
        (len k : ℕ)
        → ((i : ℕ) → off ≤ i → i < off + written → stays i ≡ true)
        → k + len ≤ written
        → file_bytes ip.copy.addrs final (off + k) len ≡ source_bytes val k len
    unfolding file_bytes source_bytes
    final-file_bytes zero k all le = refl
    final-file_bytes (suc len) k all le =
        let at : off + k - off ≡ k = omega arith in
        let next : off + k + 1 ≡ off + (k + 1) = omega arith in
        let here =
          ap (λ b. if b then val (off + k - off) else file_byte ip.copy.addrs d (off + k))
            (all (off + k) (omega arith) (omega arith)) in
        ap₂ (λ x l. x ∷ l) (final-new (off + k) (omega arith) (omega arith) ∙ here ∙ ap val at)
          (ap (λ o. file_bytes ip.copy.addrs final o len) next
            ∙ final-file_bytes len (k + 1) all (omega arith))

  -- `writei` of `n` bytes at `off`, at most the size of a file whose blocks are different blocks, end with
  -- its last byte and lie apart from its indirect block and from the block of its inode, from a source that
  -- can be copied and within the largest file: it writes as many of the bytes as the blocks of the file hold
  -- and returns their number, which may be 0. So it never gives the file a block. The bytes written are
  -- those of the source in the blocks whose buffers the cache keeps, and are lost in the others, where no older change
  -- was waiting; every other byte of the file is as before, the size grows to the end of the bytes
  -- written, and no block of the disk but those of the file and that of its inode changes.
  pub writei-file_byte :
      (e : Blocks) × (writei sb datastart kept on_disk copyin ip src off n d
        ≡ returns (some written, after, e))
      × ((i : ℕ)
          → off ≤ i
          → i < off + written
          → file_byte ip.copy.addrs e i
            ≡ (if stays i then val (i - off) else file_byte ip.copy.addrs d i))
      × ((i : ℕ)
          → i < capacity ip.copy.size
          → (i < off) ⊎ (off + written ≤ i)
          → file_byte ip.copy.addrs e i ≡ file_byte ip.copy.addrs d i)
      × ((m j : ℕ)
          → inode_block ip.slot.inum sb ≢ m
          → ((k : ℕ) → k * 1024 < ip.copy.size → lookup ip.copy.addrs d k ≢ m)
          → e m j ≡ d m j)
  writei-file_byte =
      let (e, result, w) = writei-Written in
      (
        iupdate sb after e,
        result,
        final-new e w,
        (λ i lt out. final-file_byte e w i lt ∙ w.old_bytes i lt out),
        (λ m j other no_block. kept_blocks e w m j other ∙ w.others m j no_block),
      )

  -- After `writei` to a file whose blocks are different blocks, end with its last byte and lie apart from
  -- its indirect block and from the block of its inode, where both copies succeed and the cache keeps the buffers of the bytes that were
  -- written, `readi` of these bytes reads them back: it returns as many and copies those of the source.
  pub readi-writei :
      {M : Type 0} (copyout : ℕ → List ℕ → M → M × Bool) (s : Sink M) (dst : ℕ) (m : M)
      → ((dst : ℕ) (l : List ℕ) (m : M) → copyout dst l m ≡ (s.put dst l m, true))
      → dst + n < 2 ^ 64
      → ((i : ℕ) → off ≤ i → i < off + written → stays i ≡ true)
      → (e : Blocks) × (writei sb datastart kept on_disk copyin ip src off n d
          ≡ returns (some written, after, e))
        × (readi sb datastart copyout after dst off written m e
            ≡ returns (some written, s.put dst (source_bytes val 0 written) m, after, e))
  readi-writei copyout s dst m puts room all =
      let (e, result, w) = writei-Written in
      let read =
        readi-file_bytes sb datastart copyout s puts dst off written m after (iupdate sb after e)
          (final-IsFile e w) (omega arith) (omega (arith, file.size_fits)) (omega arith) in
      let inside : ltb (268 * 1024) (off + written) ≡ false = ground arith in
      let count : available written off (new_size ip off written) ≡ written = omega arith in
      let start : off ≡ off + 0 = omega arith in
      let bytes =
        ap (λ o. file_bytes ip.copy.addrs (iupdate sb after e) o written) start
        ∙ final-file_bytes e w written 0 all (omega arith) in
      (iupdate sb after e, result, read ∙ rw (inside, count, bytes) refl)
