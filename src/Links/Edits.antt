-- ===== src/Links/Edits.antt =====
-- Sequences of operations on a doubly linked list, as the allocators make them.
use kingdo_micro_kernel.Prelude.{
  ℕ, ◌<◌, ◌≡◌, ◌↔◌, true, false, List, [], ◌∷◌, ◌++◌, has, remove, length, done,
}
use kingdo_micro_kernel.Links.{
  Links, init_list_head, list_add, list_append, list_del, list_empty, for_each_in_list,
}
use kingdo_micro_kernel.Links.Ring.{
  IsRing, init_list_head-IsRing, list_add-IsRing, list_append-IsRing, list_del-IsRing,
  for_each_in_list-IsRing, list_empty-IsRing,
}

pub data Edit : Type 0 where
  adds appends deletes : ℕ → Edit

abbrev pub edit : ℕ → Edit → Links → Links
edit head (adds node) h = list_add node head h
edit head (appends node) h = list_append node head h
edit head (deletes node) h = list_del node h

abbrev pub edits : ℕ → List Edit → Links → Links
edits head [] h = h
edits head (e ∷ es) h = edits head es (edit head e h)

-- The same on a sequence.
abbrev pub apply : Edit → List ℕ → List ℕ
apply (adds node) l = node ∷ l
apply (appends node) l = l ++ node ∷ []
apply (deletes node) l = remove node l

abbrev pub applies : List Edit → List ℕ → List ℕ
applies [] l = l
applies (e ∷ es) l = applies es (apply e l)

-- A node that is added is not in the list; one that is deleted is.
abbrev pub IsAllowed : ℕ → Edit → List ℕ → Type 0
IsAllowed head (adds node) l = has node (head ∷ l) ≡ false
IsAllowed head (appends node) l = has node (head ∷ l) ≡ false
IsAllowed head (deletes node) l = has node l ≡ true

abbrev pub AreAllowed : ℕ → List Edit → List ℕ → Type 0
AreAllowed head [] l = Unit
AreAllowed head (e ∷ es) l = IsAllowed head e l × AreAllowed head es (apply e l)

edit-IsRing :
    {head : ℕ} {h : Links} {l : List ℕ} (e : Edit)
    → IsAllowed head e l
    → IsRing h head l
    → IsRing (edit head e h) head (apply e l)
edit-IsRing (adds node) ok r = list_add-IsRing r node ok
edit-IsRing (appends node) ok r = list_append-IsRing r node ok
edit-IsRing (deletes node) ok r = list_del-IsRing r node ok

edits-IsRing :
    (head : ℕ) (es : List Edit) (h : Links) (l : List ℕ)
    → AreAllowed head es l
    → IsRing h head l
    → IsRing (edits head es h) head (applies es l)
edits-IsRing head [] h l ok r = r
edits-IsRing head (e ∷ es) h l ok r =
    edits-IsRing head es (edit head e h) (apply e l) ok.1 (edit-IsRing e ok.0 r)

-- After init_list_head, and any sequence of list_add and list_append of nodes that are neither in
-- the list nor its head and of list_del of nodes in the list: for_each_in_list, where the fuel
-- exceeds the number of nodes, visits the nodes that the same operations leave of a sequence, in
-- its order, and list_empty tells whether that is empty.
pub for_each_in_list-edits :
    (fuel head : ℕ) (es : List Edit) (h : Links)
    → AreAllowed head es []
    → length (applies es []) < fuel
    → (for_each_in_list fuel head (edits head es (init_list_head head h)) ≡ done (applies es []))
      × ((list_empty head (edits head es (init_list_head head h)) ≡ true) ↔ (applies es [] ≡ []))
for_each_in_list-edits fuel head es h ok enough =
    let r = edits-IsRing head es _ [] ok (init_list_head-IsRing head h) in
    (for_each_in_list-IsRing fuel head (applies es []) _ r enough, list_empty-IsRing r)
