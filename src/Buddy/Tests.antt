-- ===== src/Buddy/Tests.antt =====
-- A region of four pages, its runs, and the theorems at it.
use kingdo_micro_kernel.Prelude.{
  ℕ, ◌+◌, ◌*◌, ◌^◌, ◌≤◌, ◌<◌, ◌≡◌, refl, ◌⊎◌, true, Option, none, some, List, [], ◌∷◌, ◌++◌, Run,
  done, stop, arith, update, has,
}
use kingdo_micro_kernel.Buddy.{
  buddy_max_order, page_size, Page, FreeList, MemRegion, buddy_get_pages, buddy_free_pages,
  get_free_pages_nums_from_buddy, lower_chunk, merge_pair, page_in_list, join, page_to_virt,
  virt_to_page,
}
use kingdo_micro_kernel.Buddy.Layout.{IsLayout}
use kingdo_micro_kernel.Buddy.Tiling.{IsTiled, IsFree, nodes_of}
use kingdo_micro_kernel.Buddy.Get.{Gets, buddy_get_pages-Gets}
use kingdo_micro_kernel.Buddy.Free.{Frees, buddy_free_pages-Frees}
use kingdo_micro_kernel.Buddy.Account.{
  handed, free_pages-get, get-get_disjoint, get-free_pages, virt_to_page-page_to_virt,
}

abbrev page : ℕ → ℕ → Page
page allocated order = record { allocated = allocated; order = order; slab = none }

abbrev empty_list : FreeList
empty_list = record { nodes = []; nr_free = 0 }

-- Frames 1020 to 1023: one free chunk of order 2.
abbrev whole : MemRegion
whole = record {
  start_addr = 1020 * 4096;
  size = 4 * 4096;
  page_arrry = 0;
  page_num = 4;
  free_lists = update (λ _. empty_list) 2 (record { nodes = 0 ∷ []; nr_free = 1 });
  pages = update (λ _. page 0 0) 0 (page 0 2);
}

abbrev one_head : ℕ → ℕ
one_head q = 0

layout : IsLayout 1020 4
layout = omega arith

-- The same region, handed out as a whole.
abbrev taken : MemRegion
taken = record whole { free_lists = λ _. empty_list; pages = update (λ _. page 0 0) 0 (page 1 2) }

whole_listed :
    (o p : ℕ)
    → o < buddy_max_order
    → has p (nodes_of whole o) ≡ true
    → IsFree 4 one_head 4 whole o p
whole_listed o p lt h = ground arith

whole-IsTiled : IsTiled 1020 4 one_head 4 whole
whole-IsTiled = record {
  at = omega arith;
  covers = λ q h. omega arith;
  whole = λ q r h a b. refl;
  inner = λ q h ne. ground arith;
  listed = whole_listed;
  complete = λ p h is free ne. ground arith;
  once = λ o lt. ground arith;
  counted = λ o lt. ground arith;
}

taken-IsTiled : IsTiled 1020 4 one_head 4 taken
taken-IsTiled = record {
  at = omega arith;
  covers = λ q h. omega arith;
  whole = λ q r h a b. refl;
  inner = λ q h ne. ground arith;
  listed = λ o p lt h. absurd (ground arith);
  complete = λ p h is free ne. ground arith;
  once = λ o lt. tt;
  counted = λ o lt. refl;
}

-- what is left of a run for a look at it
abbrev free_after : Run MemRegion → List ℕ
free_after (done s) =
    get_free_pages_nums_from_buddy s ∷ nodes_of s 0 ++ nodes_of s 1 ++ nodes_of s 2
free_after (stop e) = []

abbrev page_after : Run (Option ℕ × MemRegion) → Option ℕ × List ℕ
page_after (done (p, s)) = (p, free_after (done s))
page_after (stop e) = (none, [])

get_one : page_after (buddy_get_pages 0 whole) ≡ (some 0, 3 ∷ 1 ∷ 2 ∷ [])
unfolding buddy_get_pages get_free_pages_nums_from_buddy
get_one = refl

abbrev free_one : Run (Option ℕ × MemRegion) → Run MemRegion
free_one (done (some p, s)) = buddy_free_pages p s
free_one (done (none, s)) = done s
free_one (stop e) = stop e

get_free_one : free_after (free_one (buddy_get_pages 0 whole)) ≡ 4 ∷ 0 ∷ []
unfolding buddy_get_pages buddy_free_pages lower_chunk merge_pair page_in_list join
    get_free_pages_nums_from_buddy virt_to_page page_to_virt
get_free_one = refl

too_big : page_after (buddy_get_pages 3 whole) ≡ (none, 4 ∷ 0 ∷ [])
unfolding buddy_get_pages get_free_pages_nums_from_buddy
too_big = refl

buddy_get_pages-Gets_example : Gets 1020 4 whole one_head 1 (buddy_get_pages 1 whole)
buddy_get_pages-Gets_example = buddy_get_pages-Gets whole-IsTiled 1 (omega arith)

buddy_free_pages-Frees_example : Frees 1020 4 taken one_head 0 (buddy_free_pages 0 taken)
buddy_free_pages-Frees_example = buddy_free_pages-Frees taken-IsTiled (omega arith) refl refl layout

abbrev state_after : Run (Option ℕ × MemRegion) → MemRegion
state_after (done (p, s)) = s
state_after (stop e) = whole

-- one page handed out, then another
abbrev first : MemRegion
first = state_after (buddy_get_pages 0 whole)

first_run : buddy_get_pages 0 whole ≡ done (some 0, first)
unfolding buddy_get_pages
first_run = refl

second_run : buddy_get_pages 1 first ≡ done (some 2, state_after (buddy_get_pages 1 first))
unfolding buddy_get_pages
second_run = refl

free_pages-get_example :
    (p : Option ℕ) × (s' : MemRegion) × (buddy_get_pages 1 whole ≡ done (p, s'))
    × (get_free_pages_nums_from_buddy s' + handed p 1 ≡ get_free_pages_nums_from_buddy whole)
free_pages-get_example = free_pages-get whole-IsTiled 1 (omega arith)

get-get_disjoint_example : (0 + 2 ^ 0 ≤ 2) ⊎ (2 + 2 ^ 1 ≤ 0)
get-get_disjoint_example =
    get-get_disjoint 0 1 0 2 first (state_after (buddy_get_pages 1 first)) whole-IsTiled
      (omega arith) (omega arith) first_run second_run

get-free_pages_example :
    (s'' : MemRegion) × (buddy_free_pages 0 first ≡ done s'')
    × (get_free_pages_nums_from_buddy s'' ≡ get_free_pages_nums_from_buddy whole)
get-free_pages_example = get-free_pages 0 0 first layout whole-IsTiled (omega arith) first_run

virt_to_page-page_to_virt_example :
    (virt_to_page whole (page_to_virt whole 3 + 17) ≡ some 3)
    × ((ptr : ℕ)
        → (ptr < page_to_virt whole 0) ⊎ (page_to_virt whole 0 + 4 * page_size ≤ ptr)
        → virt_to_page whole ptr ≡ none)
virt_to_page-page_to_virt_example =
    virt_to_page-page_to_virt {base = 1020} 3 17 (omega arith) whole-IsTiled.at (omega arith)
      (omega arith)
