-- ===== src/Links/Hash.antt =====
-- The hash list as the sequence of its nodes.
use mathlib.Core.Option.{some-injective}
use kingdo_micro_kernel.Prelude.{
  ℕ, ◌≡◌, ◌≢◌, refl, sym, ap, subst, ◌∙◌, true, false, Option, none, some, List, [], ◌∷◌, ◌==◌, has,
  remove, remove_head-NoDup, NoDup, update, update_self, update_ne, Run, done, stop, fault, arith,
  ℕ_discrete,
}
use kingdo_micro_kernel.Links.{HashLinks, set_pprev, hlist_add, hlist_del, hlist_empty}

-- From the `next` word at `a` the links lead through `l` to NULL, and each node's `pprev` points to
-- the word that points to it.
abbrev pub Leads : HashLinks → ℕ → List ℕ → Type 0
Leads h a [] = h.next a ≡ none
Leads h a (x ∷ l) = ((h.next a ≡ some x) × (h.pprev x ≡ some a)) × Leads h x l

pub record IsHash (h : HashLinks) (head : ℕ) (l : List ℕ) : Type 0 where
  pub links : Leads h head l
  pub once : NoDup (head ∷ l)

Leads-frame :
    (h h' : HashLinks) (a : ℕ) (l : List ℕ)
    → ((x : ℕ) → has x (a ∷ l) ≡ true → h'.next x ≡ h.next x)
    → ((x : ℕ) → has x l ≡ true → h'.pprev x ≡ h.pprev x)
    → Leads h a l
    → Leads h' a l
Leads-frame h h' a [] forth back n = forth a (ground arith) ∙ n
Leads-frame h h' a (x ∷ l) forth back ((n, p), s) = (
  (forth a (ground arith) ∙ n, back x (ground arith) ∙ p),
  Leads-frame h h' x l (λ y m. forth y (ground (arith, m))) (λ y m. back y (ground (arith, m))) s,
)

hlist_add-Leads :
    (new a : ℕ) (l : List ℕ) (h : HashLinks)
    → has new (a ∷ l) ≡ false
    → NoDup (a ∷ l)
    → Leads h a l
    → Leads (hlist_add new a h) a (new ∷ l)
unfolding hlist_add
hlist_add-Leads new a [] h out d n =
    let first : update h.next new (h.next a) a ≡ none = ground (arith, out, n) in
    rw first (ground (arith, out, n))
hlist_add-Leads new a (x ∷ l) h out d ((n, p), s) =
    let first : update h.next new (h.next a) a ≡ some x = ground (arith, out, n) in
    let rest : Leads (hlist_add new a h) x l = rw first (
      Leads-frame h _ x l (λ y m. ground (arith, m, out, d)) (λ y m. ground (arith, m, out, d))
        s) in
    (rw first (ground (arith, out)), (rw first (ground (arith, out, n)), rest))

-- What `hlist_del` leaves, where `a` is the word that points to the node.
abbrev taken : ℕ → ℕ → HashLinks → HashLinks
taken x a h = record (set_pprev (h.next x) (some a) h) { next = update h.next a (h.next x) }

-- `set_pprev` of a node behind leaves the `pprev` of the others.
set_pprev-else :
    (next v : Option ℕ) (h : HashLinks) (x : ℕ)
    → next ≢ some x
    → (set_pprev next v h).pprev x ≡ h.pprev x
set_pprev-else none v h x ne = refl
set_pprev-else (some y) v h x ne = update_ne h.pprev y v x (λ same. ne (ap some same))

set_pprev-next : (next v : Option ℕ) (h : HashLinks) → (set_pprev next v h).next ≡ h.next
set_pprev-next none v h = refl
set_pprev-next (some y) v h = refl

-- `hlist_del` where the node's `pprev` is `v`
abbrev del_at : ℕ → Option ℕ → HashLinks → Run HashLinks
del_at x v h =
    let h1 = set_pprev (h.next x) v h in
    elim (h1.pprev x) [
      | none ↦ stop fault
      | some p ↦ done (record h1 { next = update h1.next p (h1.next x) })
    ]

hlist_del-taken :
    (x a : ℕ) (h : HashLinks)
    → h.next x ≢ some x
    → h.pprev x ≡ some a
    → hlist_del x h ≡ done (taken x a h)
unfolding hlist_del
hlist_del-taken x a h ne p =
    let at_x = set_pprev-else (h.next x) (some a) h x ne ∙ p in
    let run : del_at x (some a) h ≡ done (taken x a h) =
      rw (del_at, at_x)
        (ap (λ f. done (record (set_pprev (h.next x) (some a) h) { next = update f a (f x) }))
          (set_pprev-next (h.next x) (some a) h)) in
    ap (λ v. del_at x v h) p ∙ run

-- The word that points to a node of the list, and the list without the node.
record Without (h : HashLinks) (a : ℕ) (l : List ℕ) (node : ℕ) : Type 0 where
  word : ℕ
  points : h.pprev node ≡ some word
  before : has word (a ∷ l) ≡ true
  behind : (y : ℕ) → h.next node ≡ some y → (has y l ≡ true) × (y ≢ node)
  links : Leads (taken node word h) a (remove node l)

taken-first :
    (x a : ℕ) (l : List ℕ) (h : HashLinks)
    → NoDup (a ∷ x ∷ l)
    → (h.next a ≡ some x) × (h.pprev x ≡ some a)
    → Leads h x l
    → Leads (taken x a h) a l
taken-first x a [] h d np n' = update_self h.next a (h.next x) ∙ n'
taken-first x a (y ∷ l) h d (n, p) ((n', p'), s) = (
  (update_self h.next a (h.next x) ∙ n', rw n' (update_self h.pprev y (some a))),
  Leads-frame h _ y l (λ z m. ground (arith, m, d)) (λ z m. rw n' (ground (arith, m, d))) s,
)

Leads-first :
    (h : HashLinks) (x : ℕ) (l : List ℕ) (y : ℕ)
    → NoDup (x ∷ l)
    → Leads h x l
    → h.next x ≡ some y
    → (has y l ≡ true) × (y ≢ x)
Leads-first h x [] y d n e = absurd (ground (arith, n, e))
Leads-first h x (z ∷ l) y d ((n, p), s) e =
    let same : z ≡ y = some-injective z y (sym n ∙ e) in
    (ground (arith, same), λ e'. ground (arith, d.0, same, e'))

Without-of :
    (node a : ℕ) (l : List ℕ) (h : HashLinks)
    → has node l ≡ true
    → NoDup (a ∷ l)
    → Leads h a l
    → Without h a l node
Without-of node a [] h m d s = absurd (ground (arith, m))
Without-of node a (x ∷ l) h m d ((n, p), s) = elim (ℕ_discrete x node) [
  | yes same ↦ subst (Without h a (x ∷ l)) same (record {
    word = a;
    points = p;
    before = ground arith;
    behind = λ y e. let (inside, ne) = Leads-first h x l y d.1 s e in (ground (arith, inside), ne);
    links = rw (x_is_x) (taken-first x a l h d (n, p) s);
  })
  | no other ↦
      let inside : has node l ≡ true = ground (arith, m, other) in
      let w = Without-of node x l h inside d.1 s in
      let skip : (x == node) ≡ false = ground (arith, other) in
      record {
        word = w.word;
        points = w.points;
        before = ground (arith, w.before);
        behind = λ y e. (ground (arith, (w.behind y e).0), (w.behind y e).1);
        links = rw skip (
          (
            update_ne h.next w.word (h.next node) a
                  (λ e. ground (arith, w.before, d.0, ap (λ k. has k (x ∷ l)) e))
                ∙ n,
            set_pprev-else (h.next node) (some w.word) h x (λ e. ground (arith, w.behind x e, d))
                ∙ p,
          ),
          w.links,
        );
      }
]
  where
    x_is_x : (x == x) ≡ true
    x_is_x = ground arith

hlist_del-Leads :
    (node a : ℕ) (l : List ℕ) (h : HashLinks)
    → has node l ≡ true
    → NoDup (a ∷ l)
    → Leads h a l
    → (h' : HashLinks) × (hlist_del node h ≡ done h') × Leads h' a (remove node l)
hlist_del-Leads node a l h m d s =
    let w = Without-of node a l h m d s in
    (
      taken node w.word h,
      hlist_del-taken node w.word h (λ e. (w.behind node e).1 refl) w.points,
      w.links,
    )

hlist_empty-cons :
    (h : HashLinks) (head new : ℕ) → h.next head ≡ some new → hlist_empty head h ≡ false
unfolding hlist_empty
hlist_empty-cons h head new e = rw (hlist_empty, e) refl

module _ {h : HashLinks} {head : ℕ} {l : List ℕ} (r : IsHash h head l) where
  -- A node is put in front.
  pub hlist_add-IsHash :
      (new : ℕ) → has new (head ∷ l) ≡ false → IsHash (hlist_add new head h) head (new ∷ l)
  hlist_add-IsHash new out = record {
    links = hlist_add-Leads new head l h out r.once r.links;
    once = (ground (arith, out, r.once.0), (ground (arith, out), r.once.1));
  }

  pub hlist_del-IsHash :
      (node : ℕ)
      → has node l ≡ true
      → (h' : HashLinks) × (hlist_del node h ≡ done h') × IsHash h' head (remove node l)
  hlist_del-IsHash node inside =
      let (h', e, links) = hlist_del-Leads node head l h inside r.once r.links in
      (h', e, record { links = links; once = remove_head-NoDup node head l r.once })

-- For a hash list whose links lead through a sequence of nodes, each pprev pointing to the word
-- that points to its node, and a new node that is not among them: after hlist_add the links lead
-- through the new node and then the sequence, hlist_empty is false, and hlist_del of any of these
-- nodes returns and leaves the sequence without it.
pub hlist_del-hlist_add :
    (h : HashLinks) (head new : ℕ) (l : List ℕ)
    → IsHash h head l
    → has new (head ∷ l) ≡ false
    → IsHash (hlist_add new head h) head (new ∷ l)
      × (hlist_empty head (hlist_add new head h) ≡ false)
      × ((node : ℕ)
          → has node (new ∷ l) ≡ true
          → (h' : HashLinks) × (hlist_del node (hlist_add new head h) ≡ done h')
            × IsHash h' head (remove node (new ∷ l)))
hlist_del-hlist_add h head new l r out =
    let r' = hlist_add-IsHash r new out in
    (r', hlist_empty-cons _ head new r'.links.0.0, hlist_del-IsHash r')
