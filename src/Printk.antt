-- ===== src/Printk.antt =====
-- lib/printk.c: formatted output.
--
-- What `simple_outputchar` is called with is the list `out`, in its order: the console for `printk`,
-- which passes NULL. A format or an argument string is the list of its characters before the NUL;
-- the end of the list is the NUL, and a step past it is a `fault`, as is a missing argument. A `long`
-- is its bit pattern below 2 ^ 64. `char` is unsigned, as it is on this processor.
pub mod Digits
pub mod Padding
pub mod Vsprintf
pub mod Format
pub mod Numbers
pub mod Cut
pub mod Returns
mod Tests
use kingdo_micro_kernel.Prelude.{
  ℕ, zero, suc, ◌+◌, ◌-◌, ◌*◌, ◌/◌, ◌%◌, ◌^◌, Bool, true, false, not, ◌&&◌, ◌||◌, Option, none,
  some, List, [], ◌∷◌, ◌++◌, length, ltb, leb, ◌==◌, if◌then◌else◌, Run, done, stop, fault,
  out_of_fuel, ◌>>=◌,
}

abbrev pub print_buf_len : ℕ
print_buf_len = 64

-- `width` is an int, which `*` may make negative.
pub data Width : Type 0 where
  positive : ℕ → Width
  -- -1 less the number
  negative : ℕ → Width

-- `enum flags`
pub record Flags : Type 0 where
  pub pad_zero : Bool
  pub pad_right : Bool

abbrev pub no_flags : Flags
no_flags = record { pad_zero = false; pad_right = false }

abbrev pub repeat : ℕ → ℕ → List ℕ
repeat zero c = []
repeat (suc n) c = c ∷ repeat n c

-- The padding that the string needs; `none` needed is a loop that is not entered.
abbrev pub missing : List ℕ → Width → ℕ
missing string (positive width) = width - length string
missing string (negative n) = 0

abbrev pub padchar : Width → Flags → ℕ
padchar (positive zero) flags = b' '
padchar (positive (suc n)) flags = if flags.pad_zero then b'0' else b' '
padchar (negative n) flags = b' '

-- The characters, and the count `pc`.
unfoldable pub prints : List ℕ → Width → Flags → List ℕ × ℕ
prints string width flags =
    let n = missing string width in
    let c = padchar width flags in
    if flags.pad_right
    then (string ++ repeat n c, length string + n)
    else (repeat n c ++ string, n + length string)

-- The character of a digit.
unfoldable pub digit : ℕ → ℕ → ℕ
digit letbase t = (if leb 10 t then t + (letbase - b'0' - 10) else t) + b'0'

-- `while (u)`: the digits go before `acc`, the string from `s` on; `pos` is `s - print_buf`.
unfoldable pub emit_digits : ℕ → ℕ → ℕ → ℕ → List ℕ → Run (ℕ × List ℕ)
unfolding digit
emit_digits base letbase zero u acc = if u == 0 then done (0, acc) else stop fault
emit_digits base letbase (suc pos) u acc =
    let rest = emit_digits base letbase pos (u / base) (digit letbase (u % base) ∷ acc) in
    if u == 0 then done (suc pos, acc) else rest

abbrev pub is_negative : ℕ → Bool
is_negative i = leb (2 ^ 63) i

-- -i
abbrev pub negate : ℕ → ℕ
negate i = (2 ^ 64 - i) % 2 ^ 64

abbrev pub is_zero_width : Width → Bool
is_zero_width (positive n) = n == 0
is_zero_width (negative n) = false

-- `--width`
abbrev pub less_one : Width → Width
less_one (positive zero) = negative 0
less_one (positive (suc n)) = positive n
less_one (negative n) = negative (suc n)

-- The string with its sign, at `pos` in the buffer: the sign goes before the zeros of the padding.
unfoldable pub with_sign : Bool → ℕ → List ℕ → Width → Flags → Run (List ℕ × ℕ)
unfolding prints
with_sign false pos s width flags = done (prints s width flags)
with_sign true pos s width flags =
    if not (is_zero_width width) && flags.pad_zero
    then (let (chars, pc) = prints s (less_one width) flags in done (b'-' ∷ chars, 1 + pc))
    else if pos == 0
    then stop fault
    else done (prints (b'-' ∷ s) width flags)

unfoldable pub simple_outputi : ℕ → ℕ → Bool → Width → Flags → ℕ → Run (List ℕ × ℕ)
unfolding emit_digits with_sign prints
simple_outputi i base sign width flags letbase =
    let neg = sign && base == 10 && is_negative i in
    let printed =
      (emit_digits base letbase (print_buf_len - 1) (if neg then negate i else i) [] >>= λ (pos, s).
      with_sign neg pos s width flags) in
    if i == 0 then done (prints (b'0' ∷ []) width flags) else printed
