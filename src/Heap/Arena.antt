-- ===== src/Heap/Arena.antt =====
-- Which blocks of the heap are in use: no two of them share a byte.
use zrhos.Base.{
  ℕ, ◌+◌, ◌-◌, ◌*◌, ◌%◌, ◌^◌, ◌≤◌, ◌<◌, ◌≡◌, ◌≢◌, sym, ap, ap₂, ◌∙◌, ◌∷◌, All, arith, inl, inr, ◌⊎◌,
  ℕ_discrete, dec_lt,
}
use zrhos.Heap.{Heap, pgsize, page_pos, index, log2}
use zrhos.Heap.Order.{Ascending}
use zrhos.Heap.Undo.{pos-Reads}

-- `b` is a block of 2 ^ pos bytes, by the place of it in its page.
pub record IsBlock (s : Heap) (pos b : ℕ) : Type 0 where
  pub place : ℕ
  pub at : b ≡ s.base + index s b * pgsize + place * 2 ^ pos
  pub inside : place * 2 ^ pos + 2 ^ pos ≤ pgsize
  pub within : index s b < s.len
  pub known : s.info (index s b) ≡ 1 + 2 ^ pos

pub record IsFreePage (s : Heap) (p : ℕ) : Type 0 where
  pub at : p ≡ s.base + index s p * pgsize
  pub within : index s p < s.len
  pub known : s.info (index s p) ≡ 0
  pub above : (pos : ℕ) → 3 ≤ pos → pos < page_pos → s.heads pos < p

pub record IsArena (s : Heap) : Type 0 where
  pub top_at : s.top ≡ s.base + s.len * pgsize
  pub pages_ascend : Ascending s.pages
  pub pages_free : All (IsFreePage s) s.pages
  pub head_block : (pos : ℕ) → 3 ≤ pos → pos < page_pos → IsBlock s pos (s.heads pos)
  pub blocks_ascend : (pos : ℕ) → 3 ≤ pos → pos < page_pos → Ascending (s.heads pos ∷ s.blocks pos)
  pub blocks_fit : (pos : ℕ) → 3 ≤ pos → pos < page_pos → All (IsBlock s pos) (s.blocks pos)

-- A block, or a page, that `mm_malloc` has given and `mm_free` has not taken back.
pub record IsLive (s : Heap) (u : ℕ × ℕ) : Type 0 where
  pub least : 3 ≤ u.0
  pub most : u.0 ≤ page_pos
  pub block : IsBlock s u.0 u.1
  pub above :
      (pos : ℕ) → 3 ≤ pos → pos < page_pos → (pos ≡ u.0) ⊎ (u.0 ≡ page_pos) → s.heads pos < u.1
  pub not_free : u.0 < page_pos → All (λ b. u.1 ≢ b) (s.blocks u.0)

-- Two blocks share no byte.
abbrev pub Apart : ℕ × ℕ → ℕ × ℕ → Type 0
Apart u v = (u.1 + 2 ^ u.0 ≤ v.1) ⊎ (v.1 + 2 ^ v.0 ≤ u.1)

-- The power is in the word of the page.
pub power_of_word :
    (pos pos' : ℕ)
    → 3 ≤ pos
    → pos ≤ page_pos
    → 3 ≤ pos'
    → pos' ≤ page_pos
    → 1 + 2 ^ pos ≡ 1 + 2 ^ pos'
    → pos ≡ pos'
power_of_word pos pos' lo hi lo' hi' e =
    sym (pos-Reads pos lo hi).2 ∙ ap (λ v. log2 (v - v % 2)) e ∙ (pos-Reads pos' lo' hi').2

times_next : (i j w : ℕ) → i < j → i * w + w ≤ j * w
times_next i j w lt = grind arith

-- Blocks at different addresses are apart.
pub blocks-Apart :
    (s : Heap) (u v : ℕ × ℕ)
    → IsBlock s u.0 u.1
    → IsBlock s v.0 v.1
    → 3 ≤ u.0
    → u.0 ≤ page_pos
    → 3 ≤ v.0
    → v.0 ≤ page_pos
    → u.1 ≢ v.1
    → Apart u v
blocks-Apart s (pos, p) (pos', q) b b' lo hi lo' hi' ne =
    elim (ℕ_discrete (index s p) (index s q)) [
      | yes e ↦
          let same : pos ≡ pos' =
            power_of_word pos pos' lo hi lo' hi' (sym b.known ∙ ap s.info e ∙ b'.known) in
          let same_size : 2 ^ pos' ≡ 2 ^ pos = ap (λ k. 2 ^ k) (sym same) in
          elim (ℕ_discrete b.place b'.place) [
            | yes e' ↦ absurd (
                ne (
                  b.at
                  ∙ ap₂ (λ i w. s.base + i * pgsize + w) e (ap₂ (λ i w. i * w) e' (sym same_size))
                  ∙ sym b'.at))
            | no ne' ↦ elim (dec_lt b.place b'.place) [
              | yes lt ↦ inl (
                  omega (
                    arith,
                    b.at,
                    b'.at,
                    times_next b.place b'.place (2 ^ pos) lt,
                    ap (λ w. b'.place * w) same_size,
                    e,
                  ))
              | no ge ↦ inr (
                  omega (
                    arith,
                    b.at,
                    b'.at,
                    times_next b'.place b.place (2 ^ pos) (omega (arith, ge, ne')),
                    ap (λ w. b'.place * w) same_size,
                    same_size,
                    e,
                  ))
            ]
          ]
      | no ne' ↦ elim (dec_lt (index s p) (index s q)) [
        | yes lt ↦ inl (omega (arith, b.at, b'.at, b.inside, lt))
        | no ge ↦ inr (omega (arith, b.at, b'.at, b'.inside, ge, ne'))
      ]
    ]
