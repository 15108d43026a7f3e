-- ===== src/Prelude/Arith.antt =====
-- Alignment to powers of two.
use native.Mathlib.Nat.{
  pow-suc, mod-mod_of_dvd, dvd-mul_left, mod-lt, mod-eq_of_lt, mod-eq-sub-mod, add-zero, add-suc,
  zero-mod, mul-mod_right, mul-add-mod_self_left, mul-lt-mul_of_pos_left, div-add-mod,
}
use native.Mathlib.Decide.{dec_lt}
use kingdo_micro_kernel.Prelude.{
  ℕ, zero, suc, ◌+◌, ◌-◌, ◌*◌, ◌/◌, ◌%◌, ◌^◌, ◌≤◌, ◌<◌, ◌≡◌, sym, ap, ◌∙◌, ◌⊎◌, inl, inr, arith,
}

pub two_pow_suc : (n : ℕ) → 2 ^ suc n ≡ 2 * 2 ^ n
two_pow_suc n = omega (arith, pow-suc 2 n)

pub two_pow_add : (m n : ℕ) → 2 ^ (m + n) ≡ 2 ^ m * 2 ^ n
two_pow_add m zero = rw add-zero (omega arith)
two_pow_add m (suc n) =
    rw add-suc (
      omega
        (arith, two_pow_suc (m + n), ap (λ (t : ℕ). 2 ^ m * t) (two_pow_suc n), two_pow_add m n))

pub two_pow_pos : (n : ℕ) → 0 < 2 ^ n
two_pow_pos zero = omega arith
two_pow_pos (suc n) = omega (arith, two_pow_suc n, two_pow_pos n)

-- Two multiples of `m` are `m` apart.
pub aligned_gap : (m a b : ℕ) → 0 < m → a % m ≡ 0 → b % m ≡ 0 → a < b → a + m ≤ b
aligned_gap m a b h p q lt = grind arith

pub aligned_half : (m a : ℕ) → a % (2 * m) ≡ 0 → a % m ≡ 0
aligned_half m a p =
    sym (mod-mod_of_dvd m {b = 2 * m} a (dvd-mul_left m 2)) ∙ ap (λ (t : ℕ). t % m) p ∙ zero-mod m

-- A multiple of `m` is a multiple of `2 * m`, or `m` above one.
pub aligned_cases : (m a : ℕ) → 0 < m → a % m ≡ 0 → (a % (2 * m) ≡ 0) ⊎ (a % (2 * m) ≡ m)
aligned_cases m a h p = elim (dec_lt r m) [
  | yes below ↦ inl (omega (arith, e, mod-eq_of_lt below))
  | no above ↦ inr (
      omega (
        arith,
        e,
        small,
        mod-eq-sub-mod {n = r} {m = m} (omega arith),
        mod-eq_of_lt {n = r - m} {m = m} (omega (arith, small)),
      ))
]
  where
    r : ℕ
    r = a % (2 * m)

    e : r % m ≡ a % m
    e = mod-mod_of_dvd m {b = 2 * m} a (dvd-mul_left m 2)

    small : r < 2 * m
    small = mod-lt a (omega arith)

pub mod_scale : (k a m : ℕ) → 0 < k → 0 < m → (k * a) % (k * m) ≡ k * (a % m)
mod_scale k a m h h' =
    ap (λ (t : ℕ). t % (k * m)) split
    ∙ mul-add-mod_self_left (k * m) (a / m) (k * (a % m))
    ∙ mod-eq_of_lt (mul-lt-mul_of_pos_left (mod-lt a h') h)
  where
    split : k * a ≡ k * m * (a / m) + k * (a % m)
    split = omega (arith, ap (λ (t : ℕ). k * t) (div-add-mod a m))

pub aligned_le : (k m a : ℕ) → k ≤ m → a % 2 ^ m ≡ 0 → a % 2 ^ k ≡ 0
aligned_le k zero a h p = let e : k ≡ 0 = omega arith in rw e p
aligned_le k (suc m) a h p = elim (dec_lt k (suc m)) [
  | yes below ↦ aligned_le k m a (omega arith) (aligned_half (2 ^ m) a (rw (two_pow_suc m) at p))
  | no top ↦ let e : k ≡ suc m = omega arith in rw e p
]

pub aligned_lower : (m a : ℕ) → 0 < m → a % (2 * m) ≡ m → (a - m) % (2 * m) ≡ 0
aligned_lower m a h p = ap (λ (t : ℕ). t % (2 * m)) base ∙ mul-mod_right (2 * m) (a / (2 * m))
  where
    base : a - m ≡ 2 * m * (a / (2 * m))
    base = omega (arith, div-add-mod a (2 * m))

pub two_pow_pred : (n : ℕ) → 0 < n → 2 ^ n ≡ 2 * 2 ^ (n - 1)
two_pow_pred n h =
    let e : n ≡ suc (n - 1) = omega arith in ap (λ (k : ℕ). 2 ^ k) e ∙ two_pow_suc (n - 1)
