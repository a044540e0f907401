-- ===== src/Heap/Change.antt =====
-- What stays of an arena when the heap changes.
use zrhos.Base.{
  ℕ, ◌+◌, ◌*◌, ◌≤◌, ◌<◌, ◌≡◌, ◌≢◌, refl, sym, ap, ◌∙◌, subst, Bool, true, false, Option, none, some,
  List, [], ◌∷◌, ltb, if◌then◌else◌, All, arith, List-cases, inl, inr, ◌⊎◌,
}
use zrhos.Heap.{Heap, pgsize, page_pos, put, mem_sbrk, index, setinfobybp, allocpage, getpage}
use zrhos.Heap.Order.{Ascending, All-map}
use zrhos.Heap.Arena.{IsBlock, IsFreePage, IsArena, IsLive}

abbrev pub change : Heap → (ℕ → ℕ) → ℕ → ℕ → (ℕ → List ℕ) → List ℕ → Heap
change s info len top blocks pages = record s {
  info = info;
  len = len;
  top = top;
  blocks = blocks;
  pages = pages;
}

-- The words of the pages that hold small blocks stay.
abbrev pub Keeps : Heap → (ℕ → ℕ) → Type 0
Keeps s info =
    (pos b : ℕ) → pos < page_pos → IsBlock s pos b → info (index s b) ≡ s.info (index s b)

module _ (s : Heap) (info : ℕ → ℕ) (len top : ℕ) (blocks : ℕ → List ℕ) (pages : List ℕ)
    (more : s.len ≤ len) where
  pub IsBlock-change :
      (pos b : ℕ)
      → info (index s b) ≡ s.info (index s b)
      → IsBlock s pos b
      → IsBlock (change s info len top blocks pages) pos b
  IsBlock-change pos b same h = record {
    place = h.place;
    at = h.at;
    inside = h.inside;
    within = omega (arith, more, h.within);
    known = same ∙ h.known;
  }

  pub IsFreePage-change :
      (p : ℕ)
      → info (index s p) ≡ 0
      → IsFreePage s p
      → IsFreePage (change s info len top blocks pages) p
  IsFreePage-change p same h = record {
    at = h.at;
    within = omega (arith, more, h.within);
    known = same;
    above = h.above;
  }

  pub IsLive-change :
      (u : ℕ × ℕ)
      → info (index s u.1) ≡ s.info (index s u.1)
      → IsLive s u
      → (u.0 < page_pos → All (λ b. u.1 ≢ b) (blocks u.0))
      → IsLive (change s info len top blocks pages) u
  IsLive-change u same h not_free = record {
    least = h.least;
    most = h.most;
    block = IsBlock-change u.0 u.1 same h.block;
    above = h.above;
    not_free = not_free;
  }

  module _ (keeps : Keeps s info) where
    pub IsArena-change :
        IsArena s
        → top ≡ s.base + len * pgsize
        → Ascending pages
        → All (IsFreePage (change s info len top blocks pages)) pages
        → ((pos : ℕ)
            → 3 ≤ pos
            → pos < page_pos
            → Ascending (s.heads pos ∷ blocks pos)
              × All (IsBlock (change s info len top blocks pages) pos) (blocks pos))
        → IsArena (change s info len top blocks pages)
    IsArena-change a top_at ascend free lists = record {
      top_at = top_at;
      pages_ascend = ascend;
      pages_free = free;
      head_block = λ pos lo hi.
          IsBlock-change pos (s.heads pos) (keeps pos (s.heads pos) hi (a.head_block pos lo hi))
            (a.head_block pos lo hi);
      blocks_ascend = λ pos lo hi. (lists pos lo hi).0;
      blocks_fit = λ pos lo hi. (lists pos lo hi).1;
    }

    pub blocks-change :
        (pos : ℕ) (l : List ℕ)
        → pos < page_pos
        → All (IsBlock s pos) l
        → All (IsBlock (change s info len top blocks pages) pos) l
    blocks-change pos l hi h =
        All-map (IsBlock s pos) (IsBlock (change s info len top blocks pages) pos) l
          (λ b h. IsBlock-change pos b (keeps pos b hi h) h) h

-- A page that `getpage` gives: its index, the pages that are left, the number of pages and the top.
pub record Page (s : Heap) (i p : ℕ) (ps : List ℕ) (n t : ℕ) : Type 0 where
  pub at : p ≡ s.base + i * pgsize
  pub within : i < n
  pub more : s.len ≤ n
  pub top_at : t ≡ s.base + n * pgsize
  pub unowned : (pos b : ℕ) → IsBlock s pos b → index s b ≢ i
  pub ascend : Ascending ps
  pub free : All (λ q. IsFreePage s q × (index s q ≢ i)) ps
  pub above : (pos : ℕ) → 3 ≤ pos → pos < page_pos → s.heads pos < p

abbrev pub Got : ℕ → Heap → Option (ℕ × Heap) → Type 0
Got v s r =
    (r ≡ none)
    ⊎ ((i p : ℕ) × (ps : List ℕ) × (n t : ℕ) × (r
          ≡ some (p, change s (put s.info i v) n t s.blocks ps))
        × Page s i p ps n t)

abbrev take_page : ℕ → Heap → List ℕ → Option (ℕ × Heap)
take_page v s l = elim l [
  | [] ↦ allocpage v s
  | p ∷ ps ↦ some (p, record (setinfobybp p v s) { pages = ps })
]

abbrev register : ℕ → Option (ℕ × Heap) → Option (ℕ × Heap)
register v r = elim r [
  | none ↦ none
  | some (p, s') ↦ some (p, record s' { info = put s'.info s'.len v; len = s'.len + 1 })
]

top-Page : (s : Heap) → IsArena s → s.pages ≡ [] → Page s s.len s.top [] (s.len + 1) (s.top + 4096)
top-Page s a e = record {
  at = a.top_at;
  within = omega arith;
  more = omega arith;
  top_at = omega (arith, a.top_at);
  unowned = λ pos b h e. omega (arith, h.within, e);
  ascend = tt;
  free = tt;
  above = λ pos lo hi.
      let h = a.head_block pos lo hi in omega (arith, a.top_at, h.at, h.inside, h.within);
}

allocpage-Got : (v : ℕ) (s : Heap) → IsArena s → s.pages ≡ [] → Got v s (allocpage v s)
unfolding allocpage mem_sbrk
allocpage-Got v s a e = either (ltb s.limit (4096 + s.top))
  where
    either :
        (b : Bool)
        → Got v s (register v (if b then none else some (s.top, record s { top = s.top + 4096 })))
    either true = inl refl
    either false = inr (
      s.len,
      s.top,
      [],
      s.len + 1,
      s.top + 4096,
      ap (λ l. some (s.top, change s (put s.info s.len v) (s.len + 1) (s.top + 4096) s.blocks l)) e,
      top-Page s a e,
    )

pub All-both :
    (P Q R : ℕ → Type 0) (xs : List ℕ)
    → ((x : ℕ) → P x → Q x → R x)
    → All P xs
    → All Q xs
    → All R xs
All-both P Q R [] f hp hq = tt
All-both P Q R (x ∷ xs) f (p, hp) (q, hq) = (f x p q, All-both P Q R xs f hp hq)

first-Page :
    (s : Heap) (p : ℕ) (ps : List ℕ)
    → IsArena s
    → s.pages ≡ p ∷ ps
    → Page s (index s p) p ps s.len s.top
first-Page s p ps a e =
    let (behind, ascend) = subst Ascending e a.pages_ascend in
    let (here, others) = subst (All (IsFreePage s)) e a.pages_free in
    record {
      at = here.at;
      within = here.within;
      more = omega arith;
      top_at = a.top_at;
      unowned = λ pos b h e'. absurd (omega (arith, sym here.known ∙ ap s.info (sym e') ∙ h.known));
      ascend = ascend;
      free =
          All-both (λ q. p < q) (IsFreePage s) (λ q. IsFreePage s q × (index s q ≢ index s p)) ps
            (λ q lt h. (h, λ e'. omega (arith, lt, here.at, h.at, e'))) behind others;
      above = here.above;
    }

pub getpage-Got : (v : ℕ) (s : Heap) → IsArena s → Got v s (getpage v s)
unfolding getpage
getpage-Got v s a = elim (List-cases s.pages) [
  | inl e ↦ subst (λ l. Got v s (take_page v s l)) (sym e) (allocpage-Got v s a e)
  | inr (p, ps, e) ↦
      subst (λ l. Got v s (take_page v s l)) (sym e)
        (inr (index s p, p, ps, s.len, s.top, refl, first-Page s p ps a e))
]
