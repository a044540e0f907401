-- ===== src/Heap/SafeFree.antt =====
-- `mm_free` of what `mm_malloc` has given.
use zrhos.Base.{
  ℕ, ◌+◌, ◌^◌, ◌≤◌, ◌<◌, ◌≡◌, ◌≢◌, refl, sym, ap, ◌∙◌, subst, Option, none, some, List, [], ◌∷◌,
  All, arith, inl, inr, dec_lt, ◌⊎◌, ltb, Bool-cases,
}
use zrhos.Heap.{Heap, page_pos, put, index}
use zrhos.Heap.Release.{insert, insert_page, mm_free, free_as}
use zrhos.Heap.Order.{Ascending, All-map, All-insert, insert-Ascending}
use zrhos.Heap.Undo.{pos-Reads, free_as-small, free_as-page, free_small-linked}
use zrhos.Heap.Arena.{IsBlock, IsFreePage, IsArena, IsLive, Apart, power_of_word}
use zrhos.Heap.Change.{
  change, Keeps, IsBlock-change, IsFreePage-change, IsArena-change, blocks-change, IsLive-change,
}
use zrhos.Heap.FirstBlock.{put-all}
use zrhos.Heap.FreshPage.{power-pos}
use zrhos.Heap.Safety.{small_power}

abbrev pub IsIn : ℕ → List ℕ → Type 0
IsIn p [] = ⊥
IsIn p (q ∷ l) = (p ≡ q) ⊎ IsIn p l

-- The lists of free blocks and of free pages have the block.
abbrev pub IsFree : Heap → ℕ × ℕ → Type 0
IsFree s (pos, p) = ((pos < page_pos) × IsIn p (s.blocks pos)) ⊎ ((pos ≡ page_pos) × IsIn p s.pages)

-- The block is taken back, and `us` stay in use.
abbrev pub Takes : ℕ × ℕ → List (ℕ × ℕ) → Option Heap → Type 0
Takes u us none = ⊥
Takes u us (some s') = IsArena s' × IsFree s' u × All (IsLive s') us

insert-IsIn : (p : ℕ) (l : List ℕ) → IsIn p (insert p l)
unfolding insert
insert-IsIn p [] = inl refl
insert-IsIn p (q ∷ l) = elim (Bool-cases (ltb q p)) [
  | inl y ↦ rw y (inr (insert-IsIn p l))
  | inr f ↦ elim (Bool-cases (ltb p q)) [
    | inl y ↦ rw (f, y) (inl refl)
    | inr g ↦ let is : p ≡ q = ground arith in rw (f, g) (inl is)
  ]
]

put-same : (f : ℕ → List ℕ) (k : ℕ) (l : List ℕ) → put f k l k ≡ l
put-same f k l = ground arith

All-two :
    (P Q R : ℕ × ℕ → Type 0) (us : List (ℕ × ℕ))
    → ((u : ℕ × ℕ) → P u → Q u → R u)
    → All P us
    → All Q us
    → All R us
All-two P Q R [] f hp hq = tt
All-two P Q R (u ∷ us) f (p, hp) (q, hq) = (f u p q, All-two P Q R us f hp hq)

module _ (pos p : ℕ) (us : List (ℕ × ℕ)) (s : Heap) (a : IsArena s) (h : IsLive s (pos, p))
    (live : All (IsLive s) us) (apart : All (Apart (pos, p)) us) where
  lists : ℕ → List ℕ
  lists = put s.blocks pos (insert p (s.blocks pos))

  differ : (w : ℕ × ℕ) → Apart (pos, p) w → IsLive s w → w.1 ≢ p
  differ w (inl lt) l e = omega (arith, lt, e, power-pos pos h.least h.most)
  differ w (inr lt) l e = omega (arith, lt, e, power-pos w.0 l.least l.most)

  small-Takes : pos < page_pos → Takes (pos, p) us (mm_free p s)
  unfolding mm_free lists
  small-Takes lt =
      let (not_big, used, power) = pos-Reads pos h.least h.most in
      let kept : Keeps s s.info = λ k b lt h. refl in
      let (above, ascends) = a.blocks_ascend pos h.least lt in
      let result =
        ap (λ v. free_as v p s) h.block.known
        ∙ free_as-small (1 + 2 ^ pos) p pos s not_big used power lt
        ∙ free_small-linked pos p s (h.above pos h.least lt (inl refl)) in
      let new : Heap = change s s.info s.len s.top lists s.pages in
      subst (Takes (pos, p) us) (sym result) (
        IsArena-change s s.info s.len s.top lists s.pages (omega arith) kept a a.top_at
            a.pages_ascend
            (All-map (IsFreePage s) (IsFreePage new) s.pages
              (λ q f.
                IsFreePage-change s s.info s.len s.top lists s.pages (omega arith) q f.known f)
              a.pages_free)
            (put-all
              (λ k l. 3 ≤ k → k < page_pos → Ascending (s.heads k ∷ l) × All (IsBlock new k) l)
              s.blocks pos (insert p (s.blocks pos))
              (λ lo hi. (
                (
                  All-insert (λ b. s.heads pos < b) p (s.blocks pos) (h.above pos lo hi (inl refl))
                      above,
                  insert-Ascending p (s.blocks pos) ascends,
                ),
                All-insert (IsBlock new pos) p (s.blocks pos)
                    (IsBlock-change s s.info s.len s.top lists s.pages (omega arith) pos p refl
                      h.block)
                    (blocks-change s s.info s.len s.top lists s.pages (omega arith) kept pos
                      (s.blocks pos) hi (a.blocks_fit pos lo hi)),
              ))
              (λ k lo hi. (
                a.blocks_ascend k lo hi,
                blocks-change s s.info s.len s.top lists s.pages (omega arith) kept k (s.blocks k)
                    hi (a.blocks_fit k lo hi),
              ))),
        inl (
          lt,
          subst (IsIn p) (sym (put-same s.blocks pos (insert p (s.blocks pos))))
              (insert-IsIn p (s.blocks pos)),
        ),
        All-two (Apart (pos, p)) (IsLive s) (IsLive new) us
            (λ w ap_w l.
              IsLive-change s s.info s.len s.top lists s.pages (omega arith) w refl l (λ lt'.
                put-all (λ k l. w.0 ≡ k → All (λ b. w.1 ≢ b) l) s.blocks pos
                  (insert p (s.blocks pos))
                  (λ same.
                    All-insert (λ b. w.1 ≢ b) p (s.blocks pos) (differ w ap_w l)
                      (subst (λ k. All (λ b. w.1 ≢ b) (s.blocks k)) same (l.not_free lt')))
                  (λ k same. subst (λ k. All (λ b. w.1 ≢ b) (s.blocks k)) same (l.not_free lt')) w.0
                  refl))
            apart live,
      )

insert_page-insert : (p : ℕ) (l : List ℕ) → All (λ q. p ≢ q) l → insert_page p l ≡ insert p l
unfolding insert_page insert
insert_page-insert p [] ne = refl
insert_page-insert p (q ∷ l) (ne, rest) = ground (arith, ne)

-- No block of a list stands on a whole page.
smaller_word : (k : ℕ) → k < page_pos → 1 + 2 ^ k ≢ 1 + 2 ^ page_pos
smaller_word k lt e = elim (dec_lt k 3) [
  | yes small ↦ omega (arith, e, small_power k small)
  | no ge ↦
      let is =
        power_of_word k 12 (omega (arith, ge)) (omega (arith, lt)) (omega arith) (omega arith) e in
      omega (arith, is, lt)
]

module _ (p : ℕ) (us : List (ℕ × ℕ)) (s : Heap) (a : IsArena s) (h : IsLive s (12, p))
    (live : All (IsLive s) us) (apart : All (Apart (12, p)) us) where
  freed : ℕ → ℕ
  freed = put s.info (index s p) 0

  small_words : Keeps s freed
  unfolding freed
  small_words k b lt hb =
      let ne : index s p ≢ index s b =
        λ e. smaller_word k lt (sym hb.known ∙ ap s.info (sym e) ∙ h.block.known) in
      ground (arith, ne)

  other_word :
      (w : ℕ × ℕ) → Apart (12, p) w → IsLive s w → freed (index s w.1) ≡ s.info (index s w.1)
  unfolding freed
  other_word w ap_w l =
      let ne : index s p ≢ index s w.1 = λ e. same_page e ap_w in ground (arith, ne)
    where
      same_page : index s p ≡ index s w.1 → Apart (12, p) w → ⊥
      same_page e (inl lt) = omega (
        arith,
        lt,
        e,
        h.block.at,
        h.block.inside,
        l.block.at,
        l.block.inside,
        power-pos w.0 l.least l.most,
      )
      same_page e (inr lt) = omega (
        arith,
        lt,
        e,
        h.block.at,
        h.block.inside,
        l.block.at,
        l.block.inside,
        power-pos w.0 l.least l.most,
      )

  new_heap : Heap
  new_heap = change s freed s.len s.top s.blocks (insert p s.pages)

  page-Takes : Takes (12, p) us (mm_free p s)
  unfolding mm_free freed new_heap
  page-Takes =
      let (not_big, used, power) = pos-Reads 12 (omega arith) (omega arith) in
      let p-ne : All (λ q. p ≢ q) s.pages =
        All-map (IsFreePage s) (λ q. p ≢ q) s.pages
          (λ q f e.
            omega (arith, sym f.known ∙ ap (λ r. s.info (index s r)) (sym e) ∙ h.block.known))
          a.pages_free in
      let put_back : List ℕ → Option Heap = λ l. some (change s freed s.len s.top s.blocks l) in
      let result =
        ap (λ v. free_as v p s) h.block.known
        ∙ free_as-page (1 + 2 ^ page_pos) p s not_big used power
        ∙ ap put_back (insert_page-insert p s.pages p-ne) in
      subst (Takes (12, p) us) (sym result) (
        IsArena-change s freed s.len s.top s.blocks (insert p s.pages) (omega arith) small_words a
            a.top_at (insert-Ascending p s.pages a.pages_ascend)
            (All-insert (IsFreePage new_heap) p s.pages
              (record {
                at = omega (arith, h.block.at, h.block.inside);
                within = h.block.within;
                known = ground arith;
                above = λ k lo hi. h.above k lo hi (inr refl);
              })
              (All-map (IsFreePage s) (IsFreePage new_heap) s.pages
                (λ q f.
                  let zero_word : freed (index s q) ≡ 0 = ground (arith, f.known) in
                  IsFreePage-change s freed s.len s.top s.blocks (insert p s.pages) (omega arith) q
                    zero_word f)
                a.pages_free))
            (λ k lo hi. (
              a.blocks_ascend k lo hi,
              blocks-change s freed s.len s.top s.blocks (insert p s.pages) (omega arith)
                  small_words k (s.blocks k) hi (a.blocks_fit k lo hi),
            )),
        inr (refl, insert-IsIn p s.pages),
        All-two (Apart (12, p)) (IsLive s) (IsLive new_heap) us
            (λ w ap_w l.
              IsLive-change s freed s.len s.top s.blocks (insert p s.pages) (omega arith) w
                (other_word w ap_w l) l l.not_free)
            apart live,
      )

-- `mm_free` of a block or a page that is in use never panics and takes it back: its list of free blocks or pages has it then, and what
-- else was in use, and shares no byte with it, stays in use.
pub mm_free-Takes :
    (u : ℕ × ℕ) (us : List (ℕ × ℕ)) (s : Heap)
    → IsArena s
    → IsLive s u
    → All (IsLive s) us
    → All (Apart u) us
    → Takes u us (mm_free u.1 s)
mm_free-Takes (pos, p) us s a h live apart = elim (dec_lt pos page_pos) [
  | yes lt ↦ small-Takes pos p us s a h live apart lt
  | no ge ↦
      let is : pos ≡ 12 = omega (arith, ge, h.most) in
      subst (λ k. Takes (k, p) us (mm_free p s)) (sym is)
        (page-Takes p us s a (subst (λ k. IsLive s (k, p)) is h) live
          (subst (λ k. All (Apart (k, p)) us) is apart))
]
