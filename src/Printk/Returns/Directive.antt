-- ===== src/Printk/Returns/Directive.antt =====
-- The flags and the width of a directive, up to its conversion.
use kingdo_micro_kernel.Prelude.{
  ℕ, ◌+◌, ◌-◌, ◌*◌, ◌%◌, ◌^◌, ◌≤◌, ◌≡◌, ◌≢◌, refl, inl, inr, Bool, true, false, ◌&&◌, List, [], ◌∷◌,
  ◌++◌, leb, ◌==◌, arith, Bool-cases,
}
use kingdo_micro_kernel.Printk.{Flags}
use kingdo_micro_kernel.Printk.Cut.{are_digits, digits_cons}
use kingdo_micro_kernel.Printk.Vsprintf.{
  Arg, Printer, skip_zeros, read_width, with_width, directive,
}
use kingdo_micro_kernel.Printk.Returns.Convert.{
  Converts, IsConversion, convert-Converts, letter-high,
}

module _ (x : ℕ) (t : List ℕ) (high : 58 ≤ x) where
  skip_zeros-rest :
      (w : List ℕ) (pad : Bool)
      → are_digits w ≡ true
      → (w' : List ℕ) × (are_digits w' ≡ true) × ((skip_zeros (w ++ x ∷ t) pad).1 ≡ w' ++ x ∷ t)
  unfolding skip_zeros
  skip_zeros-rest [] pad h =
      let other : (x == b'0') ≡ false = ground (arith, high) in ([], refl, rw other refl)
  skip_zeros-rest (c ∷ w) pad h = elim (Bool-cases (c == b'0')) [
    | inl more ↦
        let (w', digits, e) = skip_zeros-rest w true (digits_cons c w h).1 in
        (w', digits, rw more e)
    | inr end ↦ (c ∷ w, h, rw end refl)
  ]

  read_width-rest :
      (w : List ℕ) (k : ℕ) → are_digits w ≡ true → (read_width (w ++ x ∷ t) k).1 ≡ x ∷ t
  unfolding read_width
  read_width-rest [] k h =
      let other : (leb b'0' x && leb x b'9') ≡ false = ground (arith, high) in rw other refl
  read_width-rest (c ∷ w) k h =
      let (digit, rest) = digits_cons c w h in
      rw digit (read_width-rest w ((k * 10 + (c - b'0')) % 2 ^ 32) rest)

module _ {x : ℕ} {t : List ℕ} {a : Arg} (conversion : IsConversion x t a) (r : List ℕ)
    (args : List Arg) (s : Printer) (given : s.args ≡ a ∷ args) where
  with_width-Converts :
      (w : List ℕ) (flags : Flags)
      → are_digits w ≡ true
      → Converts r args (with_width (w ++ (x ∷ (t ++ r))) flags s)
  unfolding with_width
  with_width-Converts [] flags h =
      let no_star : (x == b'*') ≡ false = ground (arith, letter-high conversion) in
      rw (no_star, read_width-rest x (t ++ r) (letter-high conversion) [] 0 refl)
        (convert-Converts r args _ flags s conversion given)
  with_width-Converts (c ∷ w) flags h =
      let no_star : (c == b'*') ≡ false = ground (arith, (digits_cons c w h).0) in
      let e : (read_width (c ∷ (w ++ (x ∷ (t ++ r)))) 0).1 ≡ x ∷ (t ++ r) =
        read_width-rest x (t ++ r) (letter-high conversion) (c ∷ w) 0 h in
      rw (no_star, e) (convert-Converts r args _ flags s conversion given)

  after_flags :
      (w : List ℕ) (right : Bool)
      → are_digits w ≡ true
      → Converts r args (
          with_width
            (skip_zeros (w ++ (x ∷ (t ++ r))) false).1
            (record { pad_zero = (skip_zeros (w ++ (x ∷ (t ++ r))) false).0; pad_right = right })
            s)
  after_flags w right h =
      let (w', digits, e) = skip_zeros-rest x (t ++ r) (letter-high conversion) w false h in
      rw e (with_width-Converts w' _ digits)

  -- Behind a percent sign.
  abbrev Continues : ℕ → List ℕ → Type 0
  Continues c rest = (c ≢ b'%') × Converts r args (directive c rest s)

  pub minus-Continues : (w : List ℕ) → are_digits w ≡ true → Continues b'-' (w ++ (x ∷ (t ++ r)))
  unfolding directive
  minus-Continues w h = ((λ e. absurd (omega (arith, e))), after_flags w true h)

  pub digit-Continues :
      (c : ℕ) (w : List ℕ) → are_digits (c ∷ w) ≡ true → Continues c (w ++ (x ∷ (t ++ r)))
  unfolding directive
  digit-Continues c w h =
      let digit = (digits_cons c w h).0 in
      let no_minus : (c == b'-') ≡ false = ground (arith, digit) in
      ((λ e. absurd (ground (arith, digit, e))), rw no_minus (after_flags (c ∷ w) false h))

  pub letter-Continues : Continues x (t ++ r)
  unfolding directive
  letter-Continues =
      let no_minus : (x == b'-') ≡ false = ground (arith, letter-high conversion) in
      (
        (λ e. absurd (omega (arith, e, letter-high conversion))),
        rw no_minus (after_flags [] false refl),
      )
