-- ===== src/Utils.antt =====
-- include/common/utils.h: blocks of memory and strings.
--
-- The memory is a function from the address to the byte; `char` is unsigned on aarch64. A result of
-- type int is its 32 bits, so that -1 is 2 ^ 32 - 1.
pub mod Copy
pub mod Compare
mod Tests
use kingdo_micro_kernel.Prelude.{
  ℕ, zero, suc, ◌+◌, ◌-◌, ◌%◌, ◌^◌, Bool, true, false, not, ◌&&◌, ◌||◌, ltb, ◌==◌, if◌then◌else◌,
  update, Run, done, stop, out_of_fuel, ◌>>=◌,
}

-- `a - b` of two bytes, as an int
abbrev pub byte_difference : ℕ → ℕ → ℕ
byte_difference a b = (a + (2 ^ 32 - b)) % 2 ^ 32

unfoldable pub memcpy : ℕ → ℕ → ℕ → (ℕ → ℕ) → ℕ → ℕ
memcpy d s zero mem = mem
memcpy d s (suc size) mem = memcpy (d + 1) (s + 1) size (update mem d (mem s))

unfoldable pub memset : ℕ → ℕ → ℕ → (ℕ → ℕ) → ℕ → ℕ
memset p ch zero mem = mem
memset p ch (suc size) mem = memset (p + 1) ch size (update mem p ch)

unfoldable pub strlen_from : ℕ → ℕ → ℕ → (ℕ → ℕ) → Run ℕ
strlen_from zero src i mem = stop out_of_fuel
strlen_from (suc fuel) src i mem =
    let rest = strlen_from fuel (src + 1) (i + 1) mem in if mem src == 0 then done i else rest

unfoldable pub strlen : ℕ → ℕ → (ℕ → ℕ) → Run ℕ
unfolding strlen_from
strlen fuel src mem = strlen_from fuel src 0 mem

unfoldable pub strcmp : ℕ → ℕ → ℕ → (ℕ → ℕ) → Run ℕ
strcmp zero src dst mem = stop out_of_fuel
strcmp (suc fuel) src dst mem =
    let rest = strcmp fuel (src + 1) (dst + 1) mem in
    if not (mem src == 0) && not (mem dst == 0)
    then if mem src == mem dst then rest else done (byte_difference (mem src) (mem dst))
    else if mem src == 0 && mem dst == 0
    then done 0
    else if mem src == 0
    then done (2 ^ 32 - 1)
    else done 1

-- The loop of `strncmp` from index `i` on, with `rounds` left.
unfoldable pub strncmp_from : ℕ → ℕ → ℕ → ℕ → (ℕ → ℕ) → ℕ
strncmp_from zero i src dst mem = 0
strncmp_from (suc rounds) i src dst mem =
    let rest = strncmp_from rounds (i + 1) src dst mem in
    if mem (src + i) == 0 || not (mem (src + i) == mem (dst + i))
    then byte_difference (mem (src + i)) (mem (dst + i))
    else rest

unfoldable pub strncmp : ℕ → ℕ → ℕ → (ℕ → ℕ) → ℕ
unfolding strncmp_from
strncmp src dst size mem = strncmp_from size 0 src dst mem

unfoldable pub memcmp : ℕ → ℕ → ℕ → (ℕ → ℕ) → ℕ
memcmp l r zero mem = 0
memcmp l r (suc n) mem =
    let rest = memcmp (l + 1) (r + 1) n mem in
    if mem l == mem r then rest else byte_difference (mem l) (mem r)
