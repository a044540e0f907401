-- ===== src/Heap/Tests.antt =====
-- A heap of five pages: the first and the last are in use, and the three between them are free.
use zrhos.Base.{
  ◌+◌, ◌*◌, List, ltb, ◌-◌, ◌^◌, ◌≤◌, ◌<◌, All, Bool-cases, inl, inr, subst, ℕ, ◌≡◌, refl, Option,
  none, some, [], ◌∷◌, ◌==◌, if◌then◌else◌, arith,
}
use zrhos.Heap.{mem_init, init_loop, acquireonepage, getpage, Heap, mem_sbrk, allocpage, log2_loop}
use zrhos.Heap.Big.{bigfind, search, alloc_more, take_run, mm_malloc}
use zrhos.Heap.Undo.{pos_cases, IsHeap, Undone}
use zrhos.Heap.Order.{Ascending}
use zrhos.Heap.Arena.{IsBlock, IsArena, IsLive}
use zrhos.Heap.FirstBlock.{Gives}
use zrhos.Heap.Safety.{mm_malloc-Gives}
use zrhos.Heap.Release.{mm_free}
use zrhos.Heap.SafeFree.{Takes, mm_free-Takes}
use zrhos.Heap.RoundTrip.{pos_of, mm_malloc-Undone}

abbrev five_pages : Heap
five_pages = record {
  top = 0x85000;
  limit = 0x90000;
  base = 0x80000;
  len = 5;
  info = λ i. if i == 0 then 4097 else if i == 4 then 4097 else 0;
  heads = λ pos. 0;
  blocks = λ pos. [];
  pages = 0x81000 ∷ 0x82000 ∷ 0x83000 ∷ [];
}

five_pages-IsHeap : IsHeap five_pages
five_pages-IsHeap = record {
  pages_ascend = ((omega arith, (omega arith, tt)), ((omega arith, tt), (tt, tt)));
  pages_free = (refl, (refl, (refl, tt)));
  blocks_ascend = λ pos lo hi. (tt, tt);
  blocks_info = λ pos lo hi. tt;
}

mm_malloc-Undone_example : Undone five_pages (mm_malloc 8192 five_pages)
unfolding log2_loop
mm_malloc-Undone_example =
    mm_malloc-Undone 8192 five_pages five_pages-IsHeap (omega arith)
      (λ lt. absurd (omega (arith, lt)))

abbrev len_of : Option (ℕ × Heap) → Option (ℕ × ℕ)
len_of none = none
len_of (some (p, s)) = some (p, s.len)

-- No four pages in a row are free, and five new pages are taken for them.
bigfind_run : len_of (bigfind 4 five_pages) ≡ some (0x85000, 10)
unfolding bigfind take_run search allocpage mem_sbrk alloc_more
bigfind_run = refl

-- A heap with the heads of its lists in the first nine pages. Blocks of 8 bytes are on the page 0x80000,
-- two of them are free, and one is in use; so is the page 0x89000, and 0x8a000 is free.
abbrev words : ℕ → ℕ
words i = if ltb i 9 then 1 + 2 ^ (i + 3) else if i == 9 then 4097 else 0

abbrev small_heap : Heap
small_heap = record {
  top = 0x8b000;
  limit = 0x90000;
  base = 0x80000;
  len = 11;
  info = words;
  heads = λ pos. 0x80000 + (pos - 3) * 4096;
  blocks = λ pos. if pos == 3 then 0x80008 ∷ 0x80018 ∷ [] else [];
  pages = 0x8a000 ∷ [];
}

small_heap-heads :
    (pos : ℕ) → 3 ≤ pos → pos ≤ 12 → pos < 12 → IsBlock small_heap pos (small_heap.heads pos)
small_heap-heads =
    pos_cases (λ pos. pos < 12 → IsBlock small_heap pos (small_heap.heads pos))
      (λ lt. record {
        place = 0;
        at = omega arith;
        inside = omega arith;
        within = omega arith;
        known = refl;
      })
      (λ lt. record {
        place = 0;
        at = omega arith;
        inside = omega arith;
        within = omega arith;
        known = refl;
      })
      (λ lt. record {
        place = 0;
        at = omega arith;
        inside = omega arith;
        within = omega arith;
        known = refl;
      })
      (λ lt. record {
        place = 0;
        at = omega arith;
        inside = omega arith;
        within = omega arith;
        known = refl;
      })
      (λ lt. record {
        place = 0;
        at = omega arith;
        inside = omega arith;
        within = omega arith;
        known = refl;
      })
      (λ lt. record {
        place = 0;
        at = omega arith;
        inside = omega arith;
        within = omega arith;
        known = refl;
      })
      (λ lt. record {
        place = 0;
        at = omega arith;
        inside = omega arith;
        within = omega arith;
        known = refl;
      })
      (λ lt. record {
        place = 0;
        at = omega arith;
        inside = omega arith;
        within = omega arith;
        known = refl;
      })
      (λ lt. record {
        place = 0;
        at = omega arith;
        inside = omega arith;
        within = omega arith;
        known = refl;
      })
      (λ lt. absurd (omega (arith, lt)))

abbrev Lists : ℕ → List ℕ → Type 0
Lists pos l =
    3 ≤ pos → pos < 12 → Ascending (small_heap.heads pos ∷ l) × All (IsBlock small_heap pos) l

small_heap-Lists : (pos : ℕ) → Lists pos (small_heap.blocks pos)
small_heap-Lists pos = elim (Bool-cases (pos == 3)) [
  | inr n ↦ rw n (λ lo hi. ((tt, tt), tt))
  | inl y ↦
      let is : 3 ≡ pos = ground arith in
      subst (λ k. Lists k (small_heap.blocks k)) is
        (λ lo hi. (
          ((omega arith, (omega arith, tt)), ((omega arith, tt), (tt, tt))),
          (
            record {
              place = 1;
              at = omega arith;
              inside = omega arith;
              within = omega arith;
              known = refl;
            },
            (
              record {
                place = 3;
                at = omega arith;
                inside = omega arith;
                within = omega arith;
                known = refl;
              },
              tt,
            ),
          ),
        ))
]

small_heap-IsArena : IsArena small_heap
small_heap-IsArena = record {
  top_at = omega arith;
  pages_ascend = (tt, tt);
  pages_free = (
    record {
      at = omega arith;
      within = omega arith;
      known = refl;
      above = λ pos lo hi. omega (arith, hi);
    },
    tt,
  );
  head_block = λ pos lo hi. small_heap-heads pos lo (omega (arith, hi)) hi;
  blocks_ascend = λ pos lo hi. (small_heap-Lists pos lo hi).0;
  blocks_fit = λ pos lo hi. (small_heap-Lists pos lo hi).1;
}

abbrev in_use : List (ℕ × ℕ)
in_use = (3, 0x80010) ∷ (12, 0x89000) ∷ []

in_use-IsLive : All (IsLive small_heap) in_use
in_use-IsLive = (
  record {
    least = omega arith;
    most = omega arith;
    block = record {
      place = 2;
      at = omega arith;
      inside = omega arith;
      within = omega arith;
      known = refl;
    };
    above = λ pos lo hi w. elim w [ inl e ↦ omega (arith, e) | inr e ↦ absurd (omega (arith, e)) ];
    not_free = λ lt. ((λ e. absurd (omega (arith, e))), ((λ e. absurd (omega (arith, e))), tt));
  },
  (
    record {
      least = omega arith;
      most = omega arith;
      block = record {
        place = 0;
        at = omega arith;
        inside = omega arith;
        within = omega arith;
        known = refl;
      };
      above = λ pos lo hi w. omega (arith, hi);
      not_free = λ lt. absurd (omega (arith, lt));
    },
    tt,
  ),
)

mm_malloc-Gives_example : (6 ≤ 2 ^ pos_of 6) × Gives in_use (pos_of 6) (mm_malloc 6 small_heap)
mm_malloc-Gives_example =
    mm_malloc-Gives 6 in_use small_heap small_heap-IsArena in_use-IsLive (omega arith)

mm_free-Takes_example : Takes (3, 0x80010) ((12, 0x89000) ∷ []) (mm_free 0x80010 small_heap)
mm_free-Takes_example =
    mm_free-Takes (3, 0x80010) ((12, 0x89000) ∷ []) small_heap small_heap-IsArena in_use-IsLive.0
      in_use-IsLive.1 (inl (omega arith), tt)

abbrev head_of : ℕ → Option Heap → ℕ
head_of pos none = 0
head_of pos (some s) = s.heads pos

-- The heads are the first blocks of the first nine pages behind the table.
mem_init_run : head_of 11 (mem_init 0x80001234 0x80100000) ≡ 0x8001a000
unfolding mem_init init_loop acquireonepage getpage allocpage mem_sbrk
mem_init_run = refl
