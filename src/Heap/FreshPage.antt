-- ===== src/Heap/FreshPage.antt =====
-- The blocks of a new page share no byte with a block in use.
use zrhos.Base.{
  ℕ, zero, suc, ◌+◌, ◌-◌, ◌*◌, ◌/◌, ◌^◌, ◌≤◌, ◌<◌, ◌≡◌, ◌≢◌, refl, sym, ap, ◌∙◌, subst, false, some,
  List, ◌∷◌, ◌==◌, All, arith, inl, inr,
}
use zrhos.Heap.{Heap, pgsize, page_pos, put, index, getpage, chain}
use zrhos.Heap.Order.{Ascending, All-map}
use zrhos.Heap.Undo.{pos_cases}
use zrhos.Heap.Arena.{IsBlock, IsFreePage, IsArena, IsLive}
use zrhos.Heap.Change.{
  change, Keeps, IsFreePage-change, IsArena-change, blocks-change, IsLive-change, Page, getpage-Got,
}
use zrhos.Heap.FirstBlock.{Gives, Gives-apart, put-all, All-pairs}

chain-above : (x n q pos : ℕ) → x < q → All (λ b. x < b) (chain q pos n)
unfolding chain
chain-above x zero q pos lt = tt
chain-above x (suc n) q pos lt = (lt, chain-above x n (q + 2 ^ pos) pos (omega (arith, lt)))

pub power-pos : (pos : ℕ) → 3 ≤ pos → pos ≤ 12 → 0 < 2 ^ pos
power-pos =
    pos_cases (λ pos. 0 < 2 ^ pos) (omega arith) (omega arith) (omega arith) (omega arith)
      (omega arith) (omega arith) (omega arith) (omega arith) (omega arith) (omega arith)

-- The blocks fill the page.
page_fills :
    (pos : ℕ) → 3 ≤ pos → pos ≤ 12 → 1 * 2 ^ pos + (pgsize / 2 ^ pos - 1) * 2 ^ pos ≤ pgsize
page_fills =
    pos_cases (λ pos. 1 * 2 ^ pos + (pgsize / 2 ^ pos - 1) * 2 ^ pos ≤ pgsize) (omega arith)
      (omega arith) (omega arith) (omega arith) (omega arith) (omega arith) (omega arith)
      (omega arith) (omega arith) (omega arith)

chain-Ascending : (n q pos : ℕ) → 0 < 2 ^ pos → Ascending (chain q pos n)
unfolding chain
chain-Ascending zero q pos w = tt
chain-Ascending (suc n) q pos w =
    (chain-above q n (q + 2 ^ pos) pos (omega (arith, w)), chain-Ascending n (q + 2 ^ pos) pos w)

suc_times : (n w : ℕ) → suc n * w ≡ n * w + w
suc_times n w = grind arith

chain-blocks :
    (s : Heap) (i p pos n k q : ℕ)
    → p ≡ s.base + i * pgsize
    → i < s.len
    → s.info i ≡ 1 + 2 ^ pos
    → 0 < 2 ^ pos
    → q ≡ p + k * 2 ^ pos
    → k * 2 ^ pos + n * 2 ^ pos ≤ pgsize
    → All (λ b. IsBlock s pos b × (index s b ≡ i)) (chain q pos n)
unfolding chain
chain-blocks s i p pos zero k q at lt known w e le = tt
chain-blocks s i p pos (suc n) k q at lt known w e le =
    let split = suc_times n (2 ^ pos) in
    let inside : k * 2 ^ pos + 2 ^ pos ≤ pgsize = omega (arith, le, split) in
    let is : index s q ≡ i = omega (arith, at, e, inside, w) in
    (
      (
        record {
          place = k;
          at = omega (arith, at, e, is);
          inside = inside;
          within = omega (arith, is, lt);
          known = ap s.info is ∙ known;
        },
        is,
      ),
      chain-blocks s i p pos n (k + 1) (q + 2 ^ pos) at lt known w
          (omega (arith, e, suc_times k (2 ^ pos), ap (λ j. j * 2 ^ pos) (one_more k)))
          (omega (arith, le, split, suc_times k (2 ^ pos), ap (λ j. j * 2 ^ pos) (one_more k))),
    )
  where
    one_more : (k : ℕ) → k + 1 ≡ suc k
    one_more k = omega arith

-- A page for blocks of 2 ^ pos bytes, with the lists `blocks`.
module _ (pos i p n t : ℕ) (ps : List ℕ) (s : Heap) (a : IsArena s) (page : Page s i p ps n t)
    (lo : 3 ≤ pos) (hi : pos ≤ page_pos) (blocks : ℕ → List ℕ) where
  abbrev pub renewed : Heap
  renewed = change s (put s.info i (1 + 2 ^ pos)) n t blocks ps

  other_word :
      (k b : ℕ) → IsBlock s k b → put s.info i (1 + 2 ^ pos) (index s b) ≡ s.info (index s b)
  other_word k b h =
      let ne = page.unowned k b h in
      let other : (i == index s b) ≡ false = ground (arith, ne) in rw other refl

  pub other_words : Keeps s (put s.info i (1 + 2 ^ pos))
  other_words k b lt h = other_word k b h

  word_here : put s.info i (1 + 2 ^ pos) i ≡ 1 + 2 ^ pos
  word_here = ground arith

  index_here : index s p ≡ i
  index_here = omega (arith, page.at)

  pub renewed-IsBlock : 2 ^ pos ≤ pgsize → IsBlock renewed pos p
  renewed-IsBlock fits = record {
    place = 0;
    at = omega (arith, page.at, index_here);
    inside = omega (arith, fits);
    within = omega (arith, index_here, page.within);
    known = ap (put s.info i (1 + 2 ^ pos)) index_here ∙ word_here;
  }

  free_kept : All (IsFreePage renewed) ps
  free_kept =
      All-map (λ q. IsFreePage s q × (index s q ≢ i)) (IsFreePage renewed) ps
        (λ q (h, ne).
          let other : put s.info i (1 + 2 ^ pos) (index s q) ≡ 0 = ground (arith, ne, h.known) in
          IsFreePage-change s (put s.info i (1 + 2 ^ pos)) n t blocks ps page.more q other h)
        page.free

  not_p : (u : ℕ × ℕ) → IsLive s u → p ≢ u.1
  not_p u h is = page.unowned u.0 u.1 h.block (ap (index s) (sym is) ∙ index_here)

  pub renewed-Gives :
      (us : List (ℕ × ℕ))
      → 2 ^ pos ≤ pgsize
      → ((k : ℕ)
          → 3 ≤ k
          → k < page_pos
          → Ascending (s.heads k ∷ blocks k) × All (IsBlock renewed k) (blocks k))
      → (pos < page_pos → All (λ b. p ≢ b) (blocks pos))
      → ((u : ℕ × ℕ) → IsLive s u → u.0 < page_pos → All (λ b. u.1 ≢ b) (blocks u.0))
      → All (IsLive s) us
      → Gives us pos (some (p, renewed))
  renewed-Gives us fits lists not_free others live =
      Gives-apart us pos p renewed
        (IsArena-change s (put s.info i (1 + 2 ^ pos)) n t blocks ps page.more other_words a
          page.top_at page.ascend free_kept lists)
        (record {
          least = lo;
          most = hi;
          block = renewed-IsBlock fits;
          above = λ k lo' hi' w. page.above k lo' hi';
          not_free = not_free;
        })
        (All-pairs (IsLive s) (λ u. IsLive renewed u × (p ≢ u.1)) us
          (λ u h. (
            IsLive-change s (put s.info i (1 + 2 ^ pos)) n t blocks ps page.more u
                (other_word u.0 u.1 h.block) h (others u h),
            not_p u h,
          ))
          live)

-- The whole page.
pub page-Gives :
    (us : List (ℕ × ℕ)) (s : Heap)
    → IsArena s
    → All (IsLive s) us
    → Gives us 12 (getpage (1 + 2 ^ page_pos) s)
page-Gives us s a live = elim (getpage-Got (1 + 2 ^ page_pos) s a) [
  | inl e ↦ subst (Gives us 12) (sym e) tt
  | inr (i, p, ps, n, t, e, page) ↦ subst (Gives us 12) (sym e) (
      renewed-Gives 12 i p n t ps s a page (omega arith) (omega arith) s.blocks us (omega arith)
        (λ k lo hi. (
          a.blocks_ascend k lo hi,
          blocks-change s (put s.info i (1 + 2 ^ page_pos)) n t s.blocks ps page.more
              (other_words 12 i p n t ps s a page (omega arith) (omega arith) s.blocks) k
              (s.blocks k) hi (a.blocks_fit k lo hi),
        ))
        (λ lt. absurd (omega (arith, lt))) (λ u h lt. h.not_free lt) live)
]

-- A page cut into blocks.
module _ (pos i p n t : ℕ) (ps : List ℕ) (s : Heap) (a : IsArena s) (page : Page s i p ps n t)
    (lo : 3 ≤ pos) (hi : pos < page_pos) where
  abbrev pub links : List ℕ
  links = chain (p + 2 ^ pos) pos (pgsize / 2 ^ pos - 1)

  abbrev pub cut : ℕ → List ℕ
  cut = put s.blocks pos links

  width : 0 < 2 ^ pos
  width = power-pos pos lo (omega (arith, hi))

  abbrev pub new_heap : Heap
  new_heap = renewed pos i p n t ps s a page lo (omega (arith, hi)) cut

  link_blocks : All (λ b. IsBlock new_heap pos b × (index s b ≡ i)) links
  link_blocks =
      chain-blocks new_heap i p pos (pgsize / 2 ^ pos - 1) 1 (p + 2 ^ pos) page.at page.within
        (word_here pos i p n t ps s a page lo (omega (arith, hi)) cut) width (omega arith)
        (page_fills pos lo (omega (arith, hi)))

  -- A list of blocks after the page, by what holds of the list of the page and of the others.
  links_fit :
      (k : ℕ)
      → 3 ≤ k
      → k < page_pos
      → Ascending (s.heads k ∷ cut k) × All (IsBlock new_heap k) (cut k)
  links_fit =
      put-all (λ k l. 3 ≤ k → k < page_pos → Ascending (s.heads k ∷ l) × All (IsBlock new_heap k) l)
        s.blocks pos links
        (λ lo' hi'. (
          (
            chain-above (s.heads pos) (pgsize / 2 ^ pos - 1) (p + 2 ^ pos) pos
                (omega (arith, page.above pos lo hi)),
            chain-Ascending (pgsize / 2 ^ pos - 1) (p + 2 ^ pos) pos width,
          ),
          All-map (λ b. IsBlock new_heap pos b × (index s b ≡ i)) (IsBlock new_heap pos) links
              (λ b (h, e). h) link_blocks,
        ))
        (λ k lo' hi'. (
          a.blocks_ascend k lo' hi',
          blocks-change s (put s.info i (1 + 2 ^ pos)) n t cut ps page.more
              (other_words pos i p n t ps s a page lo (omega (arith, hi)) cut) k (s.blocks k) hi'
              (a.blocks_fit k lo' hi'),
        ))

  pub cut-Gives : (us : List (ℕ × ℕ)) → All (IsLive s) us → Gives us pos (some (p, new_heap))
  cut-Gives us live =
      renewed-Gives pos i p n t ps s a page lo (omega (arith, hi)) cut us
        (omega (arith, page_fills pos lo (omega (arith, hi)))) links_fit
        (λ lt.
          put-all (λ k l. pos ≡ k → All (λ b. p ≢ b) l) s.blocks pos links
            (λ same.
              All-map (λ b. p < b) (λ b. p ≢ b) links (λ b lt e. omega (arith, lt, e))
                (chain-above p (pgsize / 2 ^ pos - 1) (p + 2 ^ pos) pos (omega (arith, width))))
            (λ k same.
              subst (λ k. All (λ b. p ≢ b) (s.blocks k)) same
                (All-map (IsBlock s pos) (λ b. p ≢ b) (s.blocks pos)
                  (λ b h is. page.unowned pos b h (
                    ap (index s) (sym is)
                    ∙ index_here pos i p n t ps s a page lo (omega (arith, hi)) cut))
                  (a.blocks_fit pos lo hi)))
            pos refl)
        (λ u h lt.
          put-all (λ k l. u.0 ≡ k → All (λ b. u.1 ≢ b) l) s.blocks pos links
            (λ same.
              All-map (λ b. IsBlock new_heap pos b × (index s b ≡ i)) (λ b. u.1 ≢ b) links
                (λ b (h', e) is. page.unowned u.0 u.1 h.block (ap (index s) is ∙ e)) link_blocks)
            (λ k same. subst (λ k. All (λ b. u.1 ≢ b) (s.blocks k)) same (h.not_free lt)) u.0 refl)
        live
