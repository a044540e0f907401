-- ===== src/Fs/Content/Written.antt =====
-- What a write does to the bytes of a file, by rounds.
use zrhos.Base.{
  ℕ, zero, suc, ◌+◌, ◌-◌, ◌*◌, ◌/◌, ◌%◌, ◌≤◌, ◌<◌, ◌≡◌, ◌≢◌, refl, sym, ap, ap₂, ◌∙◌, ◌⊎◌, inl, inr,
  Bool, true, false, List, [], ◌∷◌, ltb, if◌then◌else◌, arith, get_or, ℕ_discrete, dec_lt,
}
use zrhos.Fs.Bitmap.{Blocks, write_byte}
use zrhos.Fs.Bytes.{read32-outside}
use zrhos.Fs.Inode.{Node}
use zrhos.Fs.Content.{lookup, store_bytes}
use zrhos.Fs.Content.Bytes.{file_byte, capacity, IsFile}

-- The blocks of the file are different blocks, and its indirect block is none of them.
pub record IsPlain (ip : Node) (d : Blocks) : Type 0 where
  pub distinct :
      (j k : ℕ)
      → j * 1024 < ip.copy.size
      → k * 1024 < ip.copy.size
      → lookup ip.copy.addrs d j ≡ lookup ip.copy.addrs d k
      → j ≡ k
  pub indirect_apart :
      (k : ℕ) → k * 1024 < ip.copy.size → lookup ip.copy.addrs d k ≢ get_or ip.copy.addrs 12 0

-- Bytes `k`, `k + 1`, ... of a source.
unfoldable pub source_bytes : (ℕ → ℕ) → ℕ → ℕ → List ℕ
source_bytes val k zero = []
source_bytes val k (suc len) = val k ∷ source_bytes val (k + 1) len

pub store_bytes-outside :
    (val : ℕ → ℕ) (len : ℕ) (d : Blocks) (n o k m j : ℕ)
    → (n ≢ m) ⊎ ((j < o) ⊎ (o + len ≤ j))
    → store_bytes d n o (source_bytes val k len) m j ≡ d m j
unfolding store_bytes source_bytes
store_bytes-outside val zero d n o k m j out = refl
store_bytes-outside val (suc len) d n o k m j out =
    store_bytes-outside val len (write_byte d n o (val k)) n (o + 1) (k + 1) m j (ground arith)
    ∙ ground arith

store_bytes-inside :
    (val : ℕ → ℕ) (len : ℕ) (d : Blocks) (n o k j : ℕ)
    → o ≤ j
    → j < o + len
    → store_bytes d n o (source_bytes val k len) n j ≡ val (k + (j - o))
unfolding store_bytes source_bytes
store_bytes-inside val zero d n o k j le lt = absurd (omega arith)
store_bytes-inside val (suc len) d n o k j le lt = elim (ℕ_discrete o j) [
  | yes here ↦
      let at : k ≡ k + (j - o) = omega arith in
      store_bytes-outside val len (write_byte d n o (val k)) n (o + 1) (k + 1) n j (ground arith)
      ∙ ground (arith, ap val at)
  | no later ↦
      let at : k + 1 + (j - (o + 1)) ≡ k + (j - o) = omega arith in
      store_bytes-inside val len (write_byte d n o (val k)) n (o + 1) (k + 1) j (omega arith)
        (omega arith)
      ∙ ap val at
]

-- What a write of `c` bytes at `off` does, where `val` is the source from its byte `k` on. The bytes in a
-- block that the cache does not keep are lost.
pub record Written (kept : ℕ → Bool) (val : ℕ → ℕ) (ip : Node) (d e : Blocks) (k off c : ℕ)
    : Type 0 where
  pub new_bytes :
      (i : ℕ)
      → off ≤ i
      → i < off + c
      → file_byte ip.copy.addrs e i ≡ (
          if kept (lookup ip.copy.addrs d (i / 1024))
          then val (k + (i - off))
          else file_byte ip.copy.addrs d i)
  pub old_bytes :
      (i : ℕ)
      → i < capacity ip.copy.size
      → (i < off) ⊎ (off + c ≤ i)
      → file_byte ip.copy.addrs e i ≡ file_byte ip.copy.addrs d i
  pub others :
      (n j : ℕ) → ((b : ℕ) → b * 1024 < ip.copy.size → lookup ip.copy.addrs d b ≢ n) → e n j ≡ d n j
  pub same_blocks : (b : ℕ) → lookup ip.copy.addrs e b ≡ lookup ip.copy.addrs d b

pub lookup_ext :
    (addrs : List ℕ) (d e : Blocks) (b : ℕ)
    → ((j : ℕ) → e (get_or addrs 12 0) j ≡ d (get_or addrs 12 0) j)
    → lookup addrs e b ≡ lookup addrs d b
lookup_ext addrs d e b same =
    ap (λ w. if ltb b 12 then get_or addrs b 0 else w)
      (read32-outside e d (get_or addrs 12 0) (4 * (b - 12)) (λ j le lt. same j))

module _ (kept : ℕ → Bool) (val : ℕ → ℕ) (ip : Node) where
  pub Written-nothing : (d : Blocks) (k off c : ℕ) → c ≡ 0 → Written kept val ip d d k off c
  Written-nothing d k off c none_written = record {
    new_bytes = λ i le lt. absurd (omega arith);
    old_bytes = λ i lt out. refl;
    others = λ n j apart. refl;
    same_blocks = λ b. refl;
  }

  pub Written-round :
      (d : Blocks) (k off len : ℕ)
      → kept (lookup ip.copy.addrs d (off / 1024)) ≡ true
      → IsPlain ip d
      → off % 1024 + len ≤ 1024
      → off / 1024 * 1024 < ip.copy.size
      → Written kept val ip d
          (store_bytes d
            (lookup ip.copy.addrs d (off / 1024))
            (off % 1024)
            (source_bytes val k len))
          k
          off
          len
  unfolding file_byte
  Written-round d k off len stays plain within present =
      let n = lookup ip.copy.addrs d (off / 1024) in
      let e = store_bytes d n (off % 1024) (source_bytes val k len) in
      let out = λ (m j : ℕ) (apart : (n ≢ m) ⊎ ((j < off % 1024) ⊎ (off % 1024 + len ≤ j))).
        store_bytes-outside val len d n (off % 1024) k m j apart in
      let same = λ (b : ℕ). lookup_ext ip.copy.addrs d e b (λ j.
        out (get_or ip.copy.addrs 12 0) j (inl (plain.indirect_apart (off / 1024) present))) in
      record {
        new_bytes = λ i le lt.
            let block : i / 1024 ≡ off / 1024 = omega arith in
            let at : k + (i % 1024 - off % 1024) ≡ k + (i - off) = omega arith in
            ap (λ x. e x (i % 1024)) (same (i / 1024) ∙ ap (λ b. lookup ip.copy.addrs d b) block)
            ∙ store_bytes-inside val len d n (off % 1024) k (i % 1024) (omega arith) (omega arith)
            ∙ ap val at
            ∙ ap
                (λ b.
                  if b
                  then val (k + (i - off))
                  else d (lookup ip.copy.addrs d (i / 1024)) (i % 1024))
                (sym (ap (λ b. kept (lookup ip.copy.addrs d b)) block ∙ stays));
        old_bytes = λ i lt apart.
            ap (λ x. e x (i % 1024)) (same (i / 1024))
            ∙ out (lookup ip.copy.addrs d (i / 1024)) (i % 1024)
                (elim (ℕ_discrete (off / 1024) (i / 1024)) [
                  | yes here ↦ inr (ground arith)
                  | no elsewhere ↦ inl (λ e.
                      elsewhere (plain.distinct (off / 1024) (i / 1024) present (omega arith) e))
                ]);
        others = λ m j apart. out m j (inl (apart (off / 1024) present));
        same_blocks = same;
      }

  -- A round whose block the cache does not keep.
  pub Written-lost :
      (d : Blocks) (k off len : ℕ)
      → kept (lookup ip.copy.addrs d (off / 1024)) ≡ false
      → off % 1024 + len ≤ 1024
      → Written kept val ip d d k off len
  Written-lost d k off len goes within = record {
    new_bytes = λ i le lt.
        let block : i / 1024 ≡ off / 1024 = omega arith in
        ap (λ b. if b then val (k + (i - off)) else file_byte ip.copy.addrs d i)
          (sym (ap (λ b. kept (lookup ip.copy.addrs d b)) block ∙ goes));
    old_bytes = λ i lt out. refl;
    others = λ n j apart. refl;
    same_blocks = λ b. refl;
  }

  pub Written-trans :
      (d f e : Blocks) (k off len c : ℕ)
      → off + len + c ≤ capacity ip.copy.size
      → Written kept val ip d f k off len
      → Written kept val ip f e (k + len) (off + len) c
      → Written kept val ip d e k off (len + c)
  Written-trans d f e k off len c within v w = record {
    new_bytes = λ i le lt. elim (dec_lt i (off + len)) [
      | yes first ↦ w.old_bytes i (omega arith) (inl first) ∙ v.new_bytes i le first
      | no second ↦
          let at : k + len + (i - (off + len)) ≡ k + (i - off) = omega arith in
          let before = v.old_bytes i (omega arith) (inr (omega arith)) in
          w.new_bytes i (omega arith) (omega arith)
          ∙ ap
              (λ n.
                if kept n then val (k + len + (i - (off + len))) else file_byte ip.copy.addrs f i)
              (v.same_blocks (i / 1024))
          ∙ ap₂ (λ x y. if kept (lookup ip.copy.addrs d (i / 1024)) then x else y) (ap val at)
              before
    ];
    old_bytes = λ i lt out. w.old_bytes i lt (ground arith) ∙ v.old_bytes i lt (ground arith);
    others = λ n j apart.
        w.others n j (λ b inside e. apart b inside (sym (v.same_blocks b) ∙ e))
        ∙ v.others n j apart;
    same_blocks = λ b. w.same_blocks b ∙ v.same_blocks b;
  }

  pub IsFile-Written :
      (d e : Blocks) (k off c : ℕ) → IsFile ip d → Written kept val ip d e k off c → IsFile ip e
  IsFile-Written d e k off c h w = record {
    size_fits = h.size_fits;
    full = λ b inside z. h.full b inside (sym (w.same_blocks b) ∙ z);
    ends = λ b small past. w.same_blocks b ∙ h.ends b small past;
  }

  pub IsPlain-Written :
      (d e : Blocks) (k off c : ℕ) → IsPlain ip d → Written kept val ip d e k off c → IsPlain ip e
  IsPlain-Written d e k off c h w = record {
    distinct =
        λ i j ii jj same. h.distinct i j ii jj (sym (w.same_blocks i) ∙ same ∙ w.same_blocks j);
    indirect_apart = λ b inside z. h.indirect_apart b inside (sym (w.same_blocks b) ∙ z);
  }
