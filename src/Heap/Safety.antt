-- ===== src/Heap/Safety.antt =====
-- `mm_malloc` of up to a page.
use zrhos.Base.{
  ℕ, zero, suc, ◌+◌, ◌-◌, ◌/◌, ◌^◌, ◌≤◌, ◌<◌, ◌≡◌, sym, ap, subst, max, true, false, Option, none,
  some, List, [], ◌∷◌, ◌==◌, ltb, All, arith, Bool-cases, List-cases, inl, inr, dec_lt,
}
use zrhos.Heap.{
  Heap, pgsize, page_pos, put, log2, log2_loop, getpage, chain, acquireonepage, smallfind,
}
use zrhos.Heap.Big.{mm_malloc}
use zrhos.Heap.Arena.{IsArena, IsLive}
use zrhos.Heap.Change.{getpage-Got}
use zrhos.Heap.FirstBlock.{Gives, popped-Gives}
use zrhos.Heap.FreshPage.{page-Gives, cut-Gives}
use zrhos.Heap.RoundTrip.{pos_of, log2_loop-page, next_pos}

abbrev cut_page : ℕ → Option (ℕ × Heap) → Option (ℕ × List ℕ × Heap)
cut_page pos r = elim r [
  | none ↦ none
  | some (p, s') ↦ some (p, chain (p + 2 ^ pos) pos (pgsize / 2 ^ pos - 1), s')
]

abbrev new_list : ℕ → Option (ℕ × List ℕ × Heap) → Option (ℕ × Heap)
new_list pos r = elim r [
  | none ↦ none
  | some (p, l, s') ↦ some (p, record s' { blocks = put s'.blocks pos l })
]

abbrev take_block : ℕ → Heap → List ℕ → Option (ℕ × Heap)
take_block pos s l = elim l [
  | [] ↦ new_list pos (acquireonepage pos s)
  | p ∷ ps ↦ some (p, record s { blocks = put s.blocks pos ps })
]

smallfind-Gives :
    (us : List (ℕ × ℕ)) (pos : ℕ) (s : Heap)
    → IsArena s
    → All (IsLive s) us
    → 3 ≤ pos
    → pos < page_pos
    → Gives us pos (smallfind pos s)
unfolding smallfind acquireonepage
smallfind-Gives us pos s a live lo hi = elim (List-cases (s.blocks pos)) [
  | inl e ↦
      subst (λ l. Gives us pos (take_block pos s l)) (sym e)
        (elim (getpage-Got (1 + 2 ^ pos) s a) [
          | inl e' ↦ subst (λ r. Gives us pos (new_list pos (cut_page pos r))) (sym e') tt
          | inr (i, p, ps, n, t, e', page) ↦
              subst (λ r. Gives us pos (new_list pos (cut_page pos r))) (sym e')
                (cut-Gives pos i p n t ps s a page lo hi us live)
        ])
  | inr (p, ps, e) ↦
      subst (λ l. Gives us pos (take_block pos s l)) (sym e)
        (popped-Gives pos p ps s a e lo hi us live)
]

-- The blocks of the list that a size is taken from are long enough.
log2_loop-fits :
    (rounds pos size : ℕ)
    → size ≤ pgsize
    → pos ≤ page_pos
    → page_pos < pos + rounds
    → size ≤ 2 ^ log2_loop rounds pos size
unfolding log2_loop
log2_loop-fits zero pos size le lt enough = absurd (omega (arith, lt, enough))
log2_loop-fits (suc rounds) pos size le lt enough = elim (Bool-cases (ltb (2 ^ pos) size)) [
  | inl y ↦
      rw y (
        log2_loop-fits rounds (pos + 1) size le (next_pos pos size le lt y) (omega (arith, enough)))
  | inr n ↦ rw n (ground arith)
]

pub small_power : (l : ℕ) → l < 3 → 2 ^ l ≤ 8
small_power zero lt = omega arith
small_power (suc zero) lt = omega arith
small_power (suc (suc zero)) lt = omega arith
small_power (suc (suc (suc l))) lt = absurd (omega (arith, lt))

pos_of-fits : (size : ℕ) → size ≤ pgsize → size ≤ 2 ^ pos_of size
pos_of-fits size le =
    let fits = log2_loop-fits 32 0 size le (omega arith) (omega arith) in
    elim (dec_lt (log2 size) 3) [
      | yes lt ↦
          let is : max (log2 size) 3 ≡ 3 = omega (arith, lt) in
          let eight : 2 ^ pos_of size ≡ 8 = ap (λ k. 2 ^ k) is in
          omega (arith, fits, small_power (log2 size) lt, eight)
      | no ge ↦
          let is : max (log2 size) 3 ≡ log2 size = omega (arith, ge) in
          omega (arith, fits, ap (λ k. 2 ^ k) is)
    ]

-- While the blocks and pages `us` are in use, `mm_malloc` of up to a page, unless it panics, gives one of
-- at least the size that shares no byte with any of them. It is in use then, and so are they still.
pub mm_malloc-Gives :
    (size : ℕ) (us : List (ℕ × ℕ)) (s : Heap)
    → IsArena s
    → All (IsLive s) us
    → size ≤ 4096
    → (size ≤ 2 ^ pos_of size) × Gives us (pos_of size) (mm_malloc size s)
unfolding mm_malloc
mm_malloc-Gives size us s a live le = (
  pos_of-fits size le,
  (let fits : ltb (2 ^ 24) size ≡ false = ground arith in
      elim (Bool-cases (ltb (pos_of size) page_pos)) [
        | inl y ↦
            let lt : pos_of size < page_pos = ground arith in
            rw (fits, y) (smallfind-Gives us (pos_of size) s a live (omega arith) lt)
        | inr n ↦
            let page = log2_loop-page 32 0 size le (omega arith) in
            let is : pos_of size ≡ 12 = ground (arith, page) in
            let same : (pos_of size == page_pos) ≡ true = ground arith in
            rw (fits, n, same)
              (subst (λ k. Gives us k (getpage (1 + 2 ^ page_pos) s)) (sym is)
                (page-Gives us s a live))
      ]),
)
