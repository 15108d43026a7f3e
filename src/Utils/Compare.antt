-- ===== src/Utils/Compare.antt =====
-- `strlen`, `strcmp` and `memcmp`.
use kingdo_micro_kernel.Prelude.{
  ℕ, zero, suc, ◌+◌, ◌-◌, ◌^◌, ◌<◌, ◌≡◌, ◌≢◌, refl, ap, ◌∙◌, ◌↔◌, true, false, ◌==◌, Run, done,
  arith, ℕ_discrete,
}
use kingdo_micro_kernel.Utils.{byte_difference, strlen, strlen_from, strcmp, memcmp}

-- The memory holds bytes.
abbrev pub AreBytes : (ℕ → ℕ) → Type 0
AreBytes mem = (a : ℕ) → mem a < 256

-- At `p` stands a string of `n` characters.
pub record IsString (mem : ℕ → ℕ) (p n : ℕ) : Type 0 where
  pub text : (i : ℕ) → i < n → mem (p + i) ≢ 0
  pub end : mem (p + n) ≡ 0

IsString-tail : {mem : ℕ → ℕ} {p n : ℕ} → IsString mem p (suc n) → IsString mem (p + 1) n
IsString-tail {mem} {p} {n} s = record {
  text =
      λ i less. let e : p + 1 + i ≡ p + suc i = omega arith in rw e (s.text (suc i) (omega arith));
  end = let e : p + 1 + n ≡ p + suc n = omega arith in rw e s.end;
}

IsString-first : {mem : ℕ → ℕ} {p n : ℕ} → IsString mem p (suc n) → mem p ≢ 0
IsString-first {mem} {p} s = let e : p + 0 ≡ p = omega arith in rw e at (s.text 0 (omega arith))

IsString-empty : {mem : ℕ → ℕ} {p : ℕ} → IsString mem p 0 → mem p ≡ 0
IsString-empty {mem} {p} s = let e : p + 0 ≡ p = omega arith in rw e at s.end

strlen_from-IsString :
    (fuel p n i : ℕ) (mem : ℕ → ℕ)
    → IsString mem p n
    → n < fuel
    → strlen_from fuel p i mem ≡ done (i + n)
unfolding strlen_from
strlen_from-IsString zero p n i mem s enough = absurd (omega arith)
strlen_from-IsString (suc fuel) p zero i mem s enough =
    let e : i + 0 ≡ i = omega arith in ground (arith, IsString-empty s, e)
strlen_from-IsString (suc fuel) p (suc n) i mem s enough =
    let more : (mem p == 0) ≡ false = ground (arith, IsString-first s) in
    let e : i + 1 + n ≡ i + suc n = omega arith in
    rw (more, strlen_from-IsString fuel (p + 1) n (i + 1) mem (IsString-tail s) (omega arith))
      (ap done e)

-- Two strings are the same text.
abbrev pub SameText : (ℕ → ℕ) → ℕ → ℕ → ℕ → ℕ → Type 0
SameText mem p n q m = (n ≡ m) × ((i : ℕ) → i < n → mem (p + i) ≡ mem (q + i))

byte_difference-zero : (a b : ℕ) → a < 256 → b < 256 → byte_difference a b ≡ 0 → a ≡ b
byte_difference-zero a b la lb e = omega (arith, e)

abbrev Compares : (ℕ → ℕ) → ℕ → ℕ → ℕ → ℕ → Run ℕ → Type 0
Compares mem p n q m r = (v : ℕ) × (r ≡ done v) × ((v ≡ 0) ↔ SameText mem p n q m)

strcmp-Compares :
    (fuel p n q m : ℕ) (mem : ℕ → ℕ)
    → AreBytes mem
    → IsString mem p n
    → IsString mem q m
    → n < fuel
    → Compares mem p n q m (strcmp fuel p q mem)
unfolding strcmp
strcmp-Compares zero p n q m mem bytes s t enough = absurd (omega arith)
strcmp-Compares (suc fuel) p zero q zero mem bytes s t enough =
    let a = IsString-empty s in
    let b = IsString-empty t in
    rw (a, b) (0, refl, (λ e. (refl, λ i less. absurd (omega arith)), λ e. refl))
strcmp-Compares (suc fuel) p zero q (suc m) mem bytes s t enough =
    let a = IsString-empty s in
    let b : (mem q == 0) ≡ false = ground (arith, IsString-first t) in
    rw (a, b)
      (2 ^ 32 - 1, refl, (λ e. absurd (omega (arith, e)), λ same. absurd (omega (arith, same.0))))
strcmp-Compares (suc fuel) p (suc n) q zero mem bytes s t enough =
    let a : (mem p == 0) ≡ false = ground (arith, IsString-first s) in
    let b = IsString-empty t in
    rw (a, b) (1, refl, (λ e. absurd (omega (arith, e)), λ same. absurd (omega (arith, same.0))))
strcmp-Compares (suc fuel) p (suc n) q (suc m) mem bytes s t enough =
    let a : (mem p == 0) ≡ false = ground (arith, IsString-first s) in
    let b : (mem q == 0) ≡ false = ground (arith, IsString-first t) in
    elim (ℕ_discrete (mem p) (mem q)) [
      | yes same ↦
          let test : (mem p == mem q) ≡ true = ground (arith, same) in
          let (v, e, iff) =
            strcmp-Compares fuel (p + 1) n (q + 1) m mem bytes (IsString-tail s) (IsString-tail t)
              (omega arith) in
          (
            v,
            rw (strcmp, a, b, test) e,
            (λ z. longer (iff.0 z) same, λ whole. iff.1 (shorter whole)),
          )
      | no differ ↦
          let test : (mem p == mem q) ≡ false = ground (arith, differ) in
          (
            byte_difference (mem p) (mem q),
            rw (strcmp, a, b, test) refl,
            (
              λ z. absurd (differ (byte_difference-zero (mem p) (mem q) (bytes p) (bytes q) z)),
              λ whole. absurd (differ (first_same whole)),
            ),
          )
    ]
  where
    first_same : SameText mem p (suc n) q (suc m) → mem p ≡ mem q
    first_same whole =
        let e : p + 0 ≡ p = omega arith in
        let e' : q + 0 ≡ q = omega arith in rw (e, e') at (whole.1 0 (omega arith))

    longer : SameText mem (p + 1) n (q + 1) m → mem p ≡ mem q → SameText mem p (suc n) q (suc m)
    longer rest same = (ap suc rest.0, λ i less. at i less)
      where
        at : (i : ℕ) → i < suc n → mem (p + i) ≡ mem (q + i)
        at zero less =
            let e : p + 0 ≡ p = omega arith in let e' : q + 0 ≡ q = omega arith in rw (e, e') same
        at (suc i) less =
            let e : p + suc i ≡ p + 1 + i = omega arith in
            let e' : q + suc i ≡ q + 1 + i = omega arith in rw (e, e') (rest.1 i (omega arith))

    shorter : SameText mem p (suc n) q (suc m) → SameText mem (p + 1) n (q + 1) m
    shorter whole = (
      omega (arith, whole.0),
      λ i less.
          let e : p + 1 + i ≡ p + suc i = omega arith in
          let e' : q + 1 + i ≡ q + suc i = omega arith in
          rw (e, e') (whole.1 (suc i) (omega arith)),
    )

-- For a string of n bytes and another string in a memory of bytes, n + 1 rounds are enough for
-- strlen, which returns n, and for strcmp, which returns 0 where the two strings have the same
-- length and the same bytes, and only there.
pub strcmp-strlen :
    (fuel p n q m : ℕ) (mem : ℕ → ℕ)
    → AreBytes mem
    → IsString mem p n
    → IsString mem q m
    → n < fuel
    → (strlen fuel p mem ≡ done n)
      × ((v : ℕ) × (strcmp fuel p q mem ≡ done v) × ((v ≡ 0) ↔ SameText mem p n q m))
unfolding strlen
strcmp-strlen fuel p n q m mem bytes s t enough = (
  strlen_from-IsString fuel p n 0 mem s enough ∙ ap done (omega arith),
  strcmp-Compares fuel p n q m mem bytes s t enough,
)

-- What memcmp finds in two blocks of `n` bytes: they are the same, or the first difference, which
-- is not 0 as an int.
pub data IsComparison (mem : ℕ → ℕ) (l r n : ℕ) : ℕ → Type 0 where
  same : ((i : ℕ) → i < n → mem (l + i) ≡ mem (r + i)) → IsComparison mem l r n 0
  differs :
      (i v : ℕ)
      → i < n
      → ((j : ℕ) → j < i → mem (l + j) ≡ mem (r + j))
      → v ≡ byte_difference (mem (l + i)) (mem (r + i))
      → v ≢ 0
      → IsComparison mem l r n v

module _ (mem : ℕ → ℕ) (l r : ℕ) (here : mem l ≡ mem r) where
  same_step :
      (i : ℕ)
      → ((j : ℕ) → i ≡ suc j → mem (l + 1 + j) ≡ mem (r + 1 + j))
      → mem (l + i) ≡ mem (r + i)
  same_step zero later =
      let e : l + 0 ≡ l = omega arith in let e' : r + 0 ≡ r = omega arith in rw (e, e') here
  same_step (suc i) later =
      let e : l + suc i ≡ l + 1 + i = omega arith in
      let e' : r + suc i ≡ r + 1 + i = omega arith in rw (e, e') (later i refl)

  IsComparison-next :
      {n v : ℕ} → IsComparison mem (l + 1) (r + 1) n v → IsComparison mem l r (suc n) v
  IsComparison-next (same all) = same λ i less. same_step i (λ j e. all j (omega (arith, e)))
  IsComparison-next (differs i v less before is other) =
      let e : l + suc i ≡ l + 1 + i = omega arith in
      let e' : r + suc i ≡ r + 1 + i = omega arith in
      differs (suc i) v (omega arith) (λ j h. same_step j (λ k f. before k (omega (arith, f))))
        (rw (e, e') is) other

-- In a memory of bytes, memcmp of two blocks returns 0 where they have the same bytes, and
-- otherwise the difference of the first two bytes that differ, as an int, which is not 0.
pub memcmp-IsComparison :
    (l r n : ℕ) (mem : ℕ → ℕ) → AreBytes mem → IsComparison mem l r n (memcmp l r n mem)
unfolding memcmp
memcmp-IsComparison l r zero mem bytes = same λ i less. absurd (omega arith)
memcmp-IsComparison l r (suc n) mem bytes = elim (ℕ_discrete (mem l) (mem r)) [
  | yes equal ↦
      let test : (mem l == mem r) ≡ true = ground (arith, equal) in
      rw test (IsComparison-next mem l r equal (memcmp-IsComparison (l + 1) (r + 1) n mem bytes))
  | no other ↦
      let test : (mem l == mem r) ≡ false = ground (arith, other) in
      let e : l + 0 ≡ l = omega arith in
      let e' : r + 0 ≡ r = omega arith in
      rw test (
        differs 0 (byte_difference (mem l) (mem r)) (omega arith) (λ j h. absurd (omega arith))
          (rw (e, e') refl)
          (λ z. other (byte_difference-zero (mem l) (mem r) (bytes l) (bytes r) z)))
]
