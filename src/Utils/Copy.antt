-- ===== src/Utils/Copy.antt =====
-- `memcpy` and `memset`.
use kingdo_micro_kernel.Prelude.{
  ℕ, zero, suc, ◌+◌, ◌≤◌, ◌<◌, ◌≡◌, ◌≢◌, refl, ◌∙◌, ◌⊎◌, inl, ◌&&◌, leb, ltb, if◌then◌else◌, update,
  update_self, update_ne, arith,
}
use kingdo_micro_kernel.Utils.{memcpy, memset}

memcpy-outside :
    (d s size : ℕ) (mem : ℕ → ℕ) (a : ℕ) → (a < d) ⊎ (d + size ≤ a) → memcpy d s size mem a ≡ mem a
unfolding memcpy
memcpy-outside d s zero mem a out = refl
memcpy-outside d s (suc size) mem a out =
    let apart : d ≢ a = λ e. omega (arith, out, e) in
    memcpy-outside (d + 1) (s + 1) size (update mem d (mem s)) a (ground (arith, out))
    ∙ update_ne mem d (mem s) a apart

memcpy-inside :
    (d s size : ℕ) (mem : ℕ → ℕ) (i : ℕ)
    → (d ≤ s) ⊎ (s + size ≤ d)
    → i < size
    → memcpy d s size mem (d + i) ≡ mem (s + i)
unfolding memcpy
memcpy-inside d s zero mem i safe less = absurd (omega arith)
memcpy-inside d s (suc size) mem zero safe less =
    let e : d + 0 ≡ d = omega arith in
    let e' : s + 0 ≡ s = omega arith in
    rw (e, e')
      (memcpy-outside (d + 1) (s + 1) size (update mem d (mem s)) d (inl (omega arith))
        ∙ update_self mem d (mem s))
memcpy-inside d s (suc size) mem (suc i) safe less =
    let e : d + suc i ≡ d + 1 + i = omega arith in
    let e' : s + suc i ≡ s + 1 + i = omega arith in
    let apart : d ≢ s + 1 + i = λ same. omega (arith, safe, same) in
    rw (e, e')
      (memcpy-inside (d + 1) (s + 1) size (update mem d (mem s)) i (ground (arith, safe))
          (omega arith)
        ∙ update_ne mem d (mem s) (s + 1 + i) apart)

-- Where the destination begins at or before the source, or behind its end, memcpy leaves the bytes
-- of the source at the destination, and every other byte as it was.
pub memcpy-copies :
    (d s size : ℕ) (mem : ℕ → ℕ)
    → (d ≤ s) ⊎ (s + size ≤ d)
    → ((i : ℕ) → i < size → memcpy d s size mem (d + i) ≡ mem (s + i))
      × ((a : ℕ) → (a < d) ⊎ (d + size ≤ a) → memcpy d s size mem a ≡ mem a)
memcpy-copies d s size mem safe =
    (λ i less. memcpy-inside d s size mem i safe less, memcpy-outside d s size mem)

-- The bytes from the address on are set, and no others.
pub memset_lem :
    (p ch size : ℕ) (mem : ℕ → ℕ) (a : ℕ)
    → memset p ch size mem a ≡ (if leb p a && ltb a (p + size) then ch else mem a)
unfolding memset
memset_lem p ch zero mem a = ground arith
memset_lem p ch (suc size) mem a = memset_lem (p + 1) ch size (update mem p ch) a ∙ ground arith
