-- ===== src/Heap/FirstBlock.antt =====
-- The first block of a list shares no byte with a block in use.
use zrhos.Base.{
  ℕ, ◌≤◌, ◌<◌, ◌≡◌, ◌≢◌, refl, sym, ap, ◌∙◌, subst, Option, none, some, List, [], ◌∷◌, ◌==◌, All,
  arith, Bool-cases, inl, inr,
}
use zrhos.Heap.{Heap, page_pos, put, index}
use zrhos.Heap.Order.{Ascending, All-map}
use zrhos.Heap.Arena.{IsBlock, IsFreePage, IsArena, IsLive, Apart, blocks-Apart, power_of_word}
use zrhos.Heap.Change.{
  change, Keeps, IsBlock-change, IsFreePage-change, IsArena-change, blocks-change, IsLive-change,
}

-- A result of 2 ^ pos bytes while `us` are in use.
abbrev pub Gives : List (ℕ × ℕ) → ℕ → Option (ℕ × Heap) → Type 0
Gives us pos none = Unit
Gives us pos (some (p, s')) =
    IsArena s' × IsLive s' (pos, p) × All (Apart (pos, p)) us × All (IsLive s') us

pub put-all {ℓ κ} :
    {A : Type ℓ} (P : ℕ → A → Type κ) (f : ℕ → A) (i : ℕ) (v : A)
    → P i v
    → ((j : ℕ) → P j (f j))
    → (j : ℕ) → P j (put f i v j)
put-all P f i v here others j = elim (Bool-cases (i == j)) [
  | inl y ↦ rw y (subst (λ k. P k v) (ground arith) here)
  | inr n ↦ rw n (others j)
]

pub All-pairs :
    (P Q : ℕ × ℕ → Type 0) (xs : List (ℕ × ℕ)) → ((x : ℕ × ℕ) → P x → Q x) → All P xs → All Q xs
All-pairs P Q [] f h = tt
All-pairs P Q (x ∷ xs) f (px, h) = (f x px, All-pairs P Q xs f h)

-- At an address that no block in use has.
pub Gives-apart :
    (us : List (ℕ × ℕ)) (pos p : ℕ) (s' : Heap)
    → IsArena s'
    → IsLive s' (pos, p)
    → All (λ u. IsLive s' u × (p ≢ u.1)) us
    → Gives us pos (some (p, s'))
Gives-apart us pos p s' a h all = (
  a,
  h,
  All-pairs (λ u. IsLive s' u × (p ≢ u.1)) (Apart (pos, p)) us
      (λ u (l, ne). blocks-Apart s' (pos, p) u h.block l.block h.least h.most l.least l.most ne)
      all,
  All-pairs (λ u. IsLive s' u × (p ≢ u.1)) (IsLive s') us (λ u (l, ne). l) all,
)

-- The first block of a list.
module _ (pos p : ℕ) (ps : List ℕ) (s : Heap) (a : IsArena s) (e : s.blocks pos ≡ p ∷ ps)
    (lo : 3 ≤ pos) (hi : pos < page_pos) where
  abbrev pub popped : Heap
  popped = change s s.info s.len s.top (put s.blocks pos ps) s.pages

  ascends : Ascending (s.heads pos ∷ p ∷ ps)
  ascends = subst (λ l. Ascending (s.heads pos ∷ l)) e (a.blocks_ascend pos lo hi)

  fits : All (IsBlock s pos) (p ∷ ps)
  fits = subst (All (IsBlock s pos)) e (a.blocks_fit pos lo hi)

  same_words : Keeps s s.info
  same_words pos' b lt h = refl

  popped-IsArena : IsArena popped
  popped-IsArena =
      IsArena-change s s.info s.len s.top (put s.blocks pos ps) s.pages (omega arith) same_words a
        a.top_at a.pages_ascend
        (All-map (IsFreePage s) (IsFreePage popped) s.pages
          (λ q h.
            IsFreePage-change s s.info s.len s.top (put s.blocks pos ps) s.pages (omega arith) q
              h.known h)
          a.pages_free)
        (put-all
          (λ k l. 3 ≤ k → k < page_pos → Ascending (s.heads k ∷ l) × All (IsBlock popped k) l)
          s.blocks pos ps
          (λ lo hi. (
            (ascends.0.1, ascends.1.1),
            blocks-change s s.info s.len s.top (put s.blocks pos ps) s.pages (omega arith)
                same_words pos ps hi fits.1,
          ))
          (λ k lo hi. (
            a.blocks_ascend k lo hi,
            blocks-change s s.info s.len s.top (put s.blocks pos ps) s.pages (omega arith)
                same_words k (s.blocks k) hi (a.blocks_fit k lo hi),
          )))

  -- At `pos` itself.
  after_pop : (P : List ℕ → Type 0) → P ps → P (put s.blocks pos ps pos)
  after_pop P h = let here : put s.blocks pos ps pos ≡ ps = ground arith in subst P (sym here) h

  p-ne : All (λ b. p ≢ b) ps
  p-ne = All-map (λ b. p < b) (λ b. p ≢ b) ps (λ b lt e. omega (arith, lt, e)) ascends.1.0

  popped-IsLive : IsLive popped (pos, p)
  popped-IsLive = record {
    least = lo;
    most = omega (arith, hi);
    block =
        IsBlock-change s s.info s.len s.top (put s.blocks pos ps) s.pages (omega arith) pos p refl
          fits.0;
    above = λ k lo' hi' w. elim w [
      | inl same ↦ subst (λ k. s.heads k < p) (sym same) ascends.0.0
      | inr page ↦ absurd (omega (arith, hi, page))
    ];
    not_free = λ lt. after_pop (λ l. All (λ b. p ≢ b) l) p-ne;
  }

  in_use_before : (u : ℕ × ℕ) → IsLive s u → IsLive popped u × (p ≢ u.1)
  in_use_before u h = (
    IsLive-change s s.info s.len s.top (put s.blocks pos ps) s.pages (omega arith) u refl h (λ lt.
        put-all (λ k l. u.0 ≡ k → All (λ b. u.1 ≢ b) l) s.blocks pos ps
          (λ same. (not_here same lt).1)
          (λ k same. subst (λ k. All (λ b. u.1 ≢ b) (s.blocks k)) same (h.not_free lt)) u.0 refl),
    λ is.
        let same : pos ≡ u.0 =
          power_of_word pos u.0 lo (omega (arith, hi)) h.least h.most
            (sym fits.0.known ∙ ap (λ q. s.info (index s q)) is ∙ h.block.known) in
        (not_here (sym same) (omega (arith, same, hi))).0 (sym is),
  )
    where
      not_here : u.0 ≡ pos → u.0 < page_pos → All (λ b. u.1 ≢ b) (p ∷ ps)
      not_here same lt = subst (λ l. All (λ b. u.1 ≢ b) l) (ap s.blocks same ∙ e) (h.not_free lt)

  pub popped-Gives : (us : List (ℕ × ℕ)) → All (IsLive s) us → Gives us pos (some (p, popped))
  popped-Gives us live =
      Gives-apart us pos p popped popped-IsArena popped-IsLive
        (All-pairs (IsLive s) (λ u. IsLive popped u × (p ≢ u.1)) us in_use_before live)
