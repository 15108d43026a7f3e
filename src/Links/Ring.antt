-- ===== src/Links/Ring.antt =====
-- The doubly linked list as the sequence of its nodes.
use kingdo_micro_kernel.Prelude.{
  ℕ, zero, suc, ◌<◌, ◌≡◌, refl, subst, ◌∙◌, inl, inr, ◌↔◌, true, false, List, [], ◌∷◌, ◌++◌, ◌==◌,
  has, remove, remove_head-NoDup, length, NoDup, done, arith, ℕ_discrete, Bool-cases,
}
use kingdo_micro_kernel.Links.{
  Links, init_list_head, list_add, list_append, list_del, list_empty, visit_from, for_each_in_list,
}

-- From `a` the links lead forth through `l` to `b`, and back.
abbrev pub Seg : Links → ℕ → List ℕ → ℕ → Type 0
Seg h a [] b = (h.next a ≡ b) × (h.prev b ≡ a)
Seg h a (x ∷ l) b = ((h.next a ≡ x) × (h.prev x ≡ a)) × Seg h x l b

-- The list with that head has the nodes `l`.
pub record IsRing (h : Links) (head : ℕ) (l : List ℕ) : Type 0 where
  pub links : Seg h head l head
  pub once : NoDup (head ∷ l)

-- The words that a segment uses are as before.
Seg-frame :
    (h h' : Links) (a : ℕ) (l : List ℕ) (b : ℕ)
    → ((x : ℕ) → has x (a ∷ l) ≡ true → h'.next x ≡ h.next x)
    → ((x : ℕ) → has x (b ∷ l) ≡ true → h'.prev x ≡ h.prev x)
    → Seg h a l b
    → Seg h' a l b
Seg-frame h h' a [] b forth back (n, p) = (forth a (ground arith) ∙ n, back b (ground arith) ∙ p)
Seg-frame h h' a (x ∷ l) b forth back ((n, p), s) = (
  (forth a (ground arith) ∙ n, back x (ground arith) ∙ p),
  Seg-frame h h' x l b (λ y m. forth y (ground (arith, m))) (λ y m. back y (ground (arith, m))) s,
)

-- A node is put behind the first of a segment.
list_add-Seg :
    (new a b : ℕ) (l : List ℕ) (h : Links)
    → has new (a ∷ b ∷ l) ≡ false
    → NoDup (a ∷ l)
    → NoDup (b ∷ l)
    → Seg h a l b
    → Seg (list_add new a h) a (new ∷ l) b
unfolding list_add
list_add-Seg new a b [] h out d d' (n, p) = ground (arith, n, p)
list_add-Seg new a b (x ∷ l) h out d d' ((n, p), s) = (
  ground (arith, n),
  (
    ground (arith, n),
    Seg-frame h _ x l b (λ y m. ground (arith, m)) (λ y m. ground (arith, m, n)) s,
  ),
)

-- The last node of a segment is before its end.
Seg-last :
    (h : Links) (a : ℕ) (l : List ℕ) (b : ℕ)
    → Seg h a l b
    → (has (h.prev b) (a ∷ l) ≡ true) × (h.next (h.prev b) ≡ b)
Seg-last h a [] b (n, p) = rw p (ground arith, n)
Seg-last h a (x ∷ l) b (np, s) = let (inside, n) = Seg-last h x l b s in (ground (arith, inside), n)

list_append-Seg :
    (new a b : ℕ) (l : List ℕ) (h : Links)
    → has new (a ∷ b ∷ l) ≡ false
    → NoDup (a ∷ l)
    → NoDup (b ∷ l)
    → Seg h a l b
    → Seg (list_add new (h.prev b) h) a (l ++ new ∷ []) b
list_append-Seg new a b [] h out d d' (n, p) = rw p (list_add-Seg new a b [] h out d d' (n, p))
list_append-Seg new a b (x ∷ l) h out d d' ((n, p), s) =
    let (inside, last) = Seg-last h x l b s in
    (
      unfold list_add in ((ground (arith, n, inside), ground (arith, p, last))),
      list_append-Seg new x b l h (ground (arith, out)) d.1 (ground (arith, d'.0), d'.1.1) s,
    )

Seg-first : (h : Links) (a : ℕ) (l : List ℕ) (b : ℕ) → Seg h a l b → has (h.next a) (b ∷ l) ≡ true
Seg-first h a [] b (n, p) = ground (arith, n)
Seg-first h a (x ∷ l) b ((n, p), s) = ground (arith, n)

-- What is before and behind a node of a segment.
Seg-around :
    (h : Links) (a : ℕ) (l : List ℕ) (b node : ℕ)
    → has node l ≡ true
    → Seg h a l b
    → (has (h.prev node) (a ∷ l) ≡ true) × (has (h.next node) (b ∷ l) ≡ true)
Seg-around h a [] b node m s = absurd (ground (arith, m))
Seg-around h a (x ∷ l) b node m ((n, p), s) = elim (Bool-cases (x == node)) [
  | inl same ↦
      let e : x ≡ node = ground arith in
      let behind = Seg-first h x l b s in
      subst (λ y. (has (h.prev y) (a ∷ x ∷ l) ≡ true) × (has (h.next y) (b ∷ x ∷ l) ≡ true)) e
        (ground (arith, p), ground (arith, behind))
  | inr other ↦
      let (before, behind) = Seg-around h x l b node (ground (arith, m, other)) s in
      (ground (arith, before), ground (arith, behind))
]

list_del-first :
    (x a b : ℕ) (l : List ℕ) (h : Links)
    → NoDup (a ∷ x ∷ l)
    → NoDup (b ∷ x ∷ l)
    → (h.next a ≡ x) × (h.prev x ≡ a)
    → Seg h x l b
    → Seg (list_del x h) a l b
unfolding list_del
list_del-first x a b [] h d d' (n, p) (n', p') = (ground (arith, p, n'), ground (arith, p, n'))
list_del-first x a b (y ∷ l) h d d' (n, p) ((n', p'), s) = (
  (ground (arith, p, n'), ground (arith, p, n')),
  Seg-frame h _ y l b (λ z m. ground (arith, m, p)) (λ z m. ground (arith, m, p, n')) s,
)

list_del-Seg :
    (node a b : ℕ) (l : List ℕ) (h : Links)
    → has node l ≡ true
    → NoDup (a ∷ l)
    → NoDup (b ∷ l)
    → Seg h a l b
    → Seg (list_del node h) a (remove node l) b
list_del-Seg node a b [] h m d d' s = absurd (ground (arith, m))
list_del-Seg node a b (x ∷ l) h m d d' ((n, p), s) = elim (ℕ_discrete x node) [
  | yes same ↦ rw (← same) (ground (arith, list_del-first x a b l h d d' (n, p) s))
  | no other ↦
      let inside : has node l ≡ true = ground (arith, m, other) in
      let (before, behind) = Seg-around h x l b node inside s in
      let rest = list_del-Seg node x b l h inside d.1 (ground (arith, d'.0), d'.1.1) s in
      let skip : (x == node) ≡ false = ground (arith, other) in
      rw skip (unfold list_del in ((ground (arith, n, before), ground (arith, p, behind))), rest)
]

append_last-NoDup :
    (new a : ℕ) (l : List ℕ) → has new (a ∷ l) ≡ false → NoDup (a ∷ l) → NoDup (a ∷ l ++ new ∷ [])
append_last-NoDup new a [] out d = (ground (arith, out), (refl, tt))
append_last-NoDup new a (x ∷ l) out d =
    let (fresh, rest) = append_last-NoDup new x l (ground (arith, out)) d.1 in
    let (apart, _) = append_last-NoDup new a l (ground (arith, out)) (ground (arith, d.0), d.1.1) in
    (ground (arith, apart, d.0), (fresh, rest))

empty_iff :
    (h : Links) (head : ℕ) (l : List ℕ)
    → Seg h head l head
    → has head l ≡ false
    → ((h.next head == head) ≡ true) ↔ (l ≡ [])
empty_iff h head [] (n, p) out = (λ e. refl, λ e. ground (arith, n))
empty_iff h head (x ∷ l) ((n, p), s) out =
    (λ e. absurd (ground (arith, e, n, out)), λ e. absurd (ground (arith, e)))

module _ {h : Links} {head : ℕ} {l : List ℕ} (r : IsRing h head l) where
  not_end : (new : ℕ) → has new (head ∷ l) ≡ false → has new (head ∷ head ∷ l) ≡ false
  not_end new out = ground (arith, out)

  -- A node is put in front.
  pub list_add-IsRing :
      (new : ℕ) → has new (head ∷ l) ≡ false → IsRing (list_add new head h) head (new ∷ l)
  list_add-IsRing new out = record {
    links = list_add-Seg new head head l h (not_end new out) r.once r.once r.links;
    once = (ground (arith, out, r.once.0), (ground (arith, out), r.once.1));
  }

  -- A node is put at the end.
  pub list_append-IsRing :
      (new : ℕ) → has new (head ∷ l) ≡ false → IsRing (list_append new head h) head (l ++ new ∷ [])
  unfolding list_append
  list_append-IsRing new out = record {
    links = list_append-Seg new head head l h (not_end new out) r.once r.once r.links;
    once = append_last-NoDup new head l out r.once;
  }

  -- A node is taken out.
  pub list_del-IsRing :
      (node : ℕ) → has node l ≡ true → IsRing (list_del node h) head (remove node l)
  list_del-IsRing node inside = record {
    links = list_del-Seg node head head l h inside r.once r.once r.links;
    once = remove_head-NoDup node head l r.once;
  }

  -- The test for an empty list.
  pub list_empty-IsRing : (list_empty head h ≡ true) ↔ (l ≡ [])
  unfolding list_empty
  list_empty-IsRing = empty_iff h head l r.links r.once.0

pub init_list_head-IsRing : (head : ℕ) (h : Links) → IsRing (init_list_head head h) head []
unfolding init_list_head
init_list_head-IsRing head h = record { links = ground arith; once = (refl, tt) }

visit_from-Seg :
    (fuel a : ℕ) (l : List ℕ) (b : ℕ) (h : Links)
    → length l < fuel
    → has b l ≡ false
    → Seg h a l b
    → visit_from fuel (h.next a) b h ≡ done l
unfolding visit_from
visit_from-Seg zero a l b h enough out s = absurd (omega arith)
visit_from-Seg (suc fuel) a [] b h enough out (n, p) = rw n (ground arith)
visit_from-Seg (suc fuel) a (x ∷ l) b h enough out ((n, p), s) =
    let rest = visit_from-Seg fuel x l b h (omega arith) (ground (arith, out)) s in
    let goes : (x == b) ≡ false = ground (arith, out) in rw (n, goes, rest) refl

-- The loop visits the nodes in their order.
pub for_each_in_list-IsRing :
    (fuel head : ℕ) (l : List ℕ) (h : Links)
    → IsRing h head l
    → length l < fuel
    → for_each_in_list fuel head h ≡ done l
unfolding for_each_in_list
for_each_in_list-IsRing fuel head l h r enough =
    visit_from-Seg fuel head l head h enough r.once.0 r.links
