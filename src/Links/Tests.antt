-- ===== src/Links/Tests.antt =====
-- The theorems on linked lists at concrete nodes.
use kingdo_micro_kernel.Prelude.{
  ℕ, ◌≡◌, ◌↔◌, refl, none, true, false, [], ◌∷◌, has, remove, done, arith,
}
use kingdo_micro_kernel.Links.{
  Links, HashLinks, init_list_head, list_empty, for_each_in_list, hlist_add, hlist_del, hlist_empty,
}
use kingdo_micro_kernel.Links.Edits.{adds, appends, deletes, edits, applies, for_each_in_list-edits}
use kingdo_micro_kernel.Links.Hash.{IsHash, hlist_del-hlist_add}

abbrev blank : Links
blank = record { prev = λ _. 0; next = λ _. 0 }

for_each_in_list-edits_example :
    (for_each_in_list 9 100
        (edits 100 (adds 1 ∷ appends 2 ∷ adds 3 ∷ deletes 1 ∷ []) (init_list_head 100 blank))
      ≡ done (3 ∷ 2 ∷ []))
    × ((list_empty 100
            (edits 100 (adds 1 ∷ appends 2 ∷ adds 3 ∷ deletes 1 ∷ []) (init_list_head 100 blank))
          ≡ true)
        ↔ (applies (adds 1 ∷ appends 2 ∷ adds 3 ∷ deletes 1 ∷ []) [] ≡ []))
for_each_in_list-edits_example =
    for_each_in_list-edits 9 100 (adds 1 ∷ appends 2 ∷ adds 3 ∷ deletes 1 ∷ []) blank
      (refl, (refl, (refl, (refl, tt)))) (omega arith)

abbrev blank_hash : HashLinks
blank_hash = record { next = λ _. none; pprev = λ _. none }

blank_hash-IsHash : IsHash blank_hash 100 []
blank_hash-IsHash = record { links = refl; once = (refl, tt) }

hlist_del-hlist_add_example :
    IsHash (hlist_add 7 100 blank_hash) 100 (7 ∷ [])
    × (hlist_empty 100 (hlist_add 7 100 blank_hash) ≡ false)
    × ((node : ℕ)
        → has node (7 ∷ []) ≡ true
        → (h' : HashLinks) × (hlist_del node (hlist_add 7 100 blank_hash) ≡ done h')
          × IsHash h' 100 (remove node (7 ∷ [])))
hlist_del-hlist_add_example = hlist_del-hlist_add blank_hash 100 7 [] blank_hash-IsHash refl
