-- ===== src/Links.antt =====
-- include/common/list.h: doubly linked lists through `struct list_head`, and hash lists.
--
-- A node is its address. The two words of every node are functions of the address: `prev` and `next`
-- are the record Links. Of a hash list, a pointer to a `next` word is the address of the object
-- that begins with that word, a node or the head; NULL is `none`.
pub mod Ring
pub mod Edits
pub mod Hash
mod Tests
use kingdo_micro_kernel.Prelude.{
  ℕ, zero, suc, Bool, true, false, fault, Option, none, some, List, [], ◌∷◌, ◌==◌, if◌then◌else◌,
  update, Run, done, stop, out_of_fuel, ◌>>=◌,
}

pub record Links : Type 0 where
  pub prev : ℕ → ℕ
  pub next : ℕ → ℕ

abbrev pub set_prev : ℕ → ℕ → Links → Links
set_prev node p h = record h { prev = update h.prev node p }

abbrev pub set_next : ℕ → ℕ → Links → Links
set_next node p h = record h { next = update h.next node p }

unfoldable pub init_list_head : ℕ → Links → Links
init_list_head list h = set_prev list list (set_next list list h)

unfoldable pub list_add : ℕ → ℕ → Links → Links
list_add new head h =
    let h1 = set_next new (h.next head) h in
    let h2 = set_prev new head h1 in let h3 = set_prev (h2.next head) new h2 in set_next head new h3

unfoldable pub list_append : ℕ → ℕ → Links → Links
unfolding list_add
list_append new head h = list_add new (h.prev head) h

unfoldable pub list_del : ℕ → Links → Links
list_del node h =
    let h1 = set_next (h.prev node) (h.next node) h in set_prev (h1.next node) (h1.prev node) h1

unfoldable pub list_empty : ℕ → Links → Bool
list_empty head h = h.next head == head

-- The nodes that the loop of `for_each_in_list` visits, from `node` on.
unfoldable pub visit_from : ℕ → ℕ → ℕ → Links → Run (List ℕ)
visit_from zero node head h = stop out_of_fuel
visit_from (suc fuel) node head h =
    let rest = visit_from fuel (h.next node) head h in
    if node == head then done [] else (rest >>= λ l. done (node ∷ l))

unfoldable pub for_each_in_list : ℕ → ℕ → Links → Run (List ℕ)
unfolding visit_from
for_each_in_list fuel head h = visit_from fuel (h.next head) head h

pub record HashLinks : Type 0 where
  pub next : ℕ → Option ℕ
  pub pprev : ℕ → Option ℕ

unfoldable pub init_hlist_head : ℕ → HashLinks → HashLinks
init_hlist_head head h = record h { next = update h.next head none }

unfoldable pub init_hlist_node : ℕ → HashLinks → HashLinks
init_hlist_node node h = record { next = update h.next node none; pprev = update h.pprev node none }

-- `next->pprev`, where there is a next node
abbrev pub set_pprev : Option ℕ → Option ℕ → HashLinks → HashLinks
set_pprev none p h = h
set_pprev (some node) p h = record h { pprev = update h.pprev node p }

unfoldable pub hlist_add : ℕ → ℕ → HashLinks → HashLinks
hlist_add new head h =
    let h1 = record h {
      next = update h.next new (h.next head);
      pprev = update h.pprev new (some head);
    } in
    let h2 = set_pprev (h1.next head) (some new) h1 in
    record h2 { next = update h2.next head (some new) }

-- `*node->pprev = node->next`; through NULL it is a fault.
unfoldable pub hlist_del : ℕ → HashLinks → Run HashLinks
hlist_del node h =
    let h1 = set_pprev (h.next node) (h.pprev node) h in
    elim (h1.pprev node) [
      | none ↦ stop fault
      | some p ↦ done (record h1 { next = update h1.next p (h1.next node) })
    ]

unfoldable pub hlist_empty : ℕ → HashLinks → Bool
hlist_empty head h = elim (h.next head) [ none ↦ true | some node ↦ false ]
