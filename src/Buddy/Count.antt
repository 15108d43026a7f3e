-- ===== src/Buddy/Count.antt =====
-- The number of free pages, as `get_free_pages_nums_from_buddy` reports it, across the operations.
use kingdo_micro_kernel.Prelude.{
  ℕ, zero, suc, ◌+◌, ◌-◌, ◌*◌, ◌^◌, ◌≤◌, ◌<◌, ◌≡◌, ◌≢◌, refl, ap, inl, inr, ◌||◌, ltb, leb, ◌==◌,
  not, update, Option, none, some, List, [], ◌∷◌, remove, Run, done, stop, Stop, ◌>>=◌, arith,
  Bool-cases, Option-cases, ℕ_discrete,
}
use kingdo_micro_kernel.Prelude.Arith.{two_pow_suc, two_pow_pred}
use kingdo_micro_kernel.Buddy.{
  buddy_max_order, FreeList, MemRegion, take_first, halve, split_loop, split_chunk, hand_out,
  after_split, buddy_get_pages, del_free, set_allocated, lower_chunk, merge_pair, page_in_list,
  join, merge_loop, merge_chunk, buddy_free_pages, add_free, set_order, sum_free,
}
use kingdo_micro_kernel.Buddy.Tiling.{order_of, allocated_of, nodes_of}

-- One list replaced.
sum_free-update_ge :
    (k : ℕ) (lists : ℕ → FreeList) (o : ℕ) (l : FreeList)
    → k ≤ o
    → sum_free k (update lists o l) ≡ sum_free k lists
unfolding sum_free
sum_free-update_ge zero lists o l h = refl
sum_free-update_ge (suc k) lists o l h = ground (arith, sum_free-update_ge k lists o l)

pub sum_free-update :
    (k : ℕ) (lists : ℕ → FreeList) (o : ℕ) (l : FreeList)
    → o < k
    → sum_free k (update lists o l) + (lists o).nr_free * 2 ^ o
      ≡ sum_free k lists + l.nr_free * 2 ^ o
unfolding sum_free
sum_free-update zero lists o l h = absurd (omega arith)
sum_free-update (suc k) lists o l h = elim (ℕ_discrete o k) [
  | yes e ↦ ground (arith, sum_free-update_ge k lists o l)
  | no ne ↦ ground (arith, sum_free-update k lists o l)
]

abbrev pub free_pages : MemRegion → ℕ
free_pages s = sum_free buddy_max_order s.free_lists

pub free_pages-add_free :
    (o p : ℕ) (s : MemRegion)
    → o < buddy_max_order
    → free_pages (add_free o p s) ≡ free_pages s + 2 ^ o
free_pages-add_free o p s lt =
    let l : FreeList = record {
      nodes = p ∷ (s.free_lists o).nodes;
      nr_free = (s.free_lists o).nr_free + 1;
    } in
    omega (arith, sum_free-update buddy_max_order s.free_lists o l lt)

free_pages-del_free :
    (o p : ℕ) (s : MemRegion)
    → o < buddy_max_order
    → (s.free_lists o).nr_free ≢ 0
    → free_pages (del_free o p s) + 2 ^ o ≡ free_pages s
free_pages-del_free o p s lt ne =
    let l : FreeList = record {
      nodes = remove p (s.free_lists o).nodes;
      nr_free = (s.free_lists o).nr_free - 1;
    } in
    let less : (s.free_lists o).nr_free ≡ suc ((s.free_lists o).nr_free - 1) = omega arith in
    omega
      (arith, sum_free-update buddy_max_order s.free_lists o l lt, ap (λ (t : ℕ). t * 2 ^ o) less)

-- What a run that hands out `cost` pages, or none, does to the number of free pages.
pub data Costs (cost : ℕ) (s : MemRegion) : Run (Option ℕ × MemRegion) → Type 0 where
  nothing : {s' : MemRegion} → free_pages s' ≡ free_pages s → Costs cost s (done (none, s'))
  taken :
      {p : ℕ} {s' : MemRegion}
      → free_pages s' + cost ≡ free_pages s
      → Costs cost s (done (some p, s'))
  stopped : {e : Stop} → Costs cost s (stop e)

take_first-Costs :
    (order cost : ℕ) (l : List ℕ) (s : MemRegion) (f : ℕ → MemRegion → Run (Option ℕ × MemRegion))
    → order < buddy_max_order
    → (s.free_lists order).nr_free ≢ 0
    → ((p : ℕ) (s' : MemRegion) → free_pages s' + 2 ^ order ≡ free_pages s → Costs cost s (f p s'))
    → Costs cost s (take_first order l s >>= λ (p, s'). f p s')
unfolding take_first
take_first-Costs order cost [] s f lt ne k = stopped
take_first-Costs order cost (p ∷ rest) s f lt ne k =
    k p (del_free order p s) (free_pages-del_free order p s lt ne)

halve-Costs :
    (order c : ℕ) (s s' : MemRegion)
    → 0 < order
    → order < buddy_max_order
    → free_pages s' + 2 ^ order ≡ free_pages s
    → Costs (2 ^ (order - 1)) s (halve order (some c) s')
unfolding halve
halve-Costs order c s s' pos lt e = taken (
    omega (
      arith,
      two_pow_pred order pos,
      free_pages-add_free (order - 1) (c + 2 ^ (order - 1))
          (set_order (c + 2 ^ (order - 1)) (order - 1) (set_order c (order - 1) s')) (omega arith),
    ))

deeper-Costs :
    (order : ℕ) (s : MemRegion) {r : Run (Option ℕ × MemRegion)}
    → 0 < order
    → order < buddy_max_order
    → Costs (2 ^ (order + 1 - 1)) s r
    → Costs (2 ^ (order - 1)) s (r >>= λ (c, s'). halve order c s')
unfolding halve
deeper-Costs order s pos lt (nothing e) = nothing e
deeper-Costs order s pos lt (taken {p} {s'} e) =
    halve-Costs order p s s' pos lt
      (let f : order + 1 - 1 ≡ order = omega arith in omega (arith, e, ap (λ (k : ℕ). 2 ^ k) f))
deeper-Costs order s pos lt stopped = stopped

split_loop-Costs :
    (fuel order : ℕ) (s : MemRegion) → Costs (2 ^ (order - 1)) s (split_loop fuel order s)
unfolding split_loop
split_loop-Costs zero order s = stopped
split_loop-Costs (suc fuel) order s = elim (Bool-cases (ltb order 1 || leb buddy_max_order order)) [
  | inl out ↦ rw out (nothing refl)
  | inr in_range ↦ elim (Bool-cases ((s.free_lists order).nr_free == 0)) [
    | inl empty ↦
        rw (in_range, empty)
          (deeper-Costs order s (ground arith) (ground arith) (split_loop-Costs fuel (order + 1) s))
    | inr some_free ↦
        rw (in_range, some_free)
          (take_first-Costs order (2 ^ (order - 1)) (nodes_of s order) s
            (λ c s'. halve order (some c) s') (ground arith) (ground arith)
            (λ c s' e. halve-Costs order c s s' (ground arith) (ground arith) e))
  ]
]

hand_out-Costs :
    (order p : ℕ) (s s' : MemRegion)
    → free_pages s' + 2 ^ order ≡ free_pages s
    → Costs (2 ^ order) s (hand_out order p s')
unfolding hand_out
hand_out-Costs order p s s' e =
    elim (Bool-cases (allocated_of s' p == 1 || not (order_of s' p == order))) [
      | inl bug ↦ rw bug stopped
      | inr fine ↦ rw fine (taken e)
    ]

after_split-Costs :
    (order : ℕ) (s : MemRegion) {r : Run (Option ℕ × MemRegion)}
    → Costs (2 ^ (order + 1 - 1)) s r
    → Costs (2 ^ order) s (r >>= λ (p, s'). after_split order p s')
unfolding after_split
after_split-Costs order s (nothing e) = nothing e
after_split-Costs order s (taken {p} {s'} e) =
    hand_out-Costs order p s s'
      (let f : order + 1 - 1 ≡ order = omega arith in omega (arith, e, ap (λ (k : ℕ). 2 ^ k) f))
after_split-Costs order s stopped = stopped

-- `buddy_get_pages` hands out `2 ^ order` of the free pages, or none.
pub buddy_get_pages-Costs :
    (order : ℕ) (s : MemRegion)
    → order < buddy_max_order
    → Costs (2 ^ order) s (buddy_get_pages order s)
unfolding buddy_get_pages split_chunk
buddy_get_pages-Costs order s lt = elim (Bool-cases ((s.free_lists order).nr_free == 0)) [
  | inl empty ↦
      rw empty (after_split-Costs order s (split_loop-Costs (buddy_max_order + 1) (order + 1) s))
  | inr some_free ↦ rw some_free (
      take_first-Costs order (2 ^ order) (nodes_of s order) s (hand_out order) lt (ground arith)
        (λ p s' e. hand_out-Costs order p s s' e))
]

-- What merging does: the chunk that is off the lists grows by what leaves them.
data Grows (s : MemRegion) (chunk : ℕ) : Run (ℕ × MemRegion) → Type 0 where
  grown :
      {c : ℕ} {s' : MemRegion}
      → order_of s' c < buddy_max_order
      → free_pages s' + 2 ^ order_of s' c ≡ free_pages s + 2 ^ order_of s chunk
      → Grows s chunk (done (c, s'))
  stopped : {e : Stop} → Grows s chunk (stop e)

join-Grows :
    (s : MemRegion) (chunk low buddy : ℕ) {r : Run (ℕ × MemRegion)}
    → order_of s chunk < 10
    → (s.free_lists (order_of s chunk)).nr_free ≢ 0
    → Grows (join (order_of s chunk) low buddy s) low r
    → Grows s chunk r
unfolding join
join-Grows s chunk low buddy lt ne (grown small e) = grown small (
    let o = order_of s chunk in
    let now : order_of (join o low buddy s) low ≡ suc o = ground arith in
    omega (
      arith,
      e,
      free_pages-del_free o buddy s (omega arith) ne,
      ap (λ (k : ℕ). 2 ^ k) now,
      two_pow_suc o,
    ))
join-Grows s chunk low buddy lt ne stopped = stopped

merge_loop-Grows :
    (fuel chunk : ℕ) (s : MemRegion)
    → order_of s chunk < buddy_max_order
    → Grows s chunk (merge_loop fuel chunk s)
unfolding merge_loop
merge_loop-Grows zero chunk s lt = stopped
merge_loop-Grows (suc fuel) chunk s lt =
    elim (Bool-cases ((s.free_lists order).nr_free == 0 || order == 10)) [
      | inl ends ↦ rw ends (grown lt refl)
      | inr goes ↦ elim (Option-cases (merge_pair (lower_chunk s chunk order) chunk order)) [
        | inl no_buddy ↦ rw (goes, no_buddy) (grown lt refl)
        | inr (pair, e) ↦
            elim (Bool-cases
              ((s.pages pair.1).allocated == 1 || not ((s.pages pair.1).order == order))) [
                | inl busy ↦ rw (goes, e, busy) (grown lt refl)
                | inr idle ↦ elim (Bool-cases (page_in_list pair.1 (nodes_of s order))) [
                  | inl in_list ↦
                      rw (goes, e, idle, in_list)
                        (join-Grows s chunk pair.0 pair.1 (ground arith) (ground arith) (
                          merge_loop-Grows fuel pair.0 (join order pair.0 pair.1 s)
                            (unfold join in (ground arith))))
                  | inr out ↦ rw (goes, e, idle, out) stopped
                ]
              ]
      ]
    ]
  where
    order : ℕ
    order = order_of s chunk

-- What giving back `gain` pages does to the number of free pages.
pub data Gains (gain : ℕ) (s : MemRegion) : Run MemRegion → Type 0 where
  gained : {s' : MemRegion} → free_pages s' ≡ free_pages s + gain → Gains gain s (done s')
  stopped : {e : Stop} → Gains gain s (stop e)

add_free-Gains :
    (page gain : ℕ) (s s0 : MemRegion) {r : Run (ℕ × MemRegion)}
    → free_pages s0 ≡ free_pages s
    → 2 ^ order_of s0 page ≡ gain
    → Grows s0 page r
    → Gains gain s (r >>= λ (c, s'). done (add_free (order_of s' c) c s'))
add_free-Gains page gain s s0 same e (grown {c} {s'} lt f) =
    gained (omega (arith, f, e, same, free_pages-add_free (order_of s' c) c s' lt))
add_free-Gains page gain s s0 same e stopped = stopped

-- `buddy_free_pages` gives back as many pages as the chunk has.
pub buddy_free_pages-Gains :
    (page : ℕ) (s : MemRegion)
    → order_of s page < buddy_max_order
    → Gains (2 ^ order_of s page) s (buddy_free_pages page s)
unfolding buddy_free_pages merge_chunk
buddy_free_pages-Gains page s lt =
    add_free-Gains page (2 ^ order_of s page) s (set_allocated page 0 s) refl
      (ap (λ (k : ℕ). 2 ^ k) same_order)
      (merge_loop-Grows buddy_max_order page (set_allocated page 0 s) (omega (arith, same_order)))
  where
    same_order : order_of (set_allocated page 0 s) page ≡ order_of s page
    same_order = ground arith
