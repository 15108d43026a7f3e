-- ===== src/Printk/Vsprintf.antt =====
-- `simple_vsprintf` and `printk` of lib/printk.c: the format and its directives.
use kingdo_micro_kernel.Prelude.{
  ℕ, zero, suc, ◌+◌, ◌-◌, ◌*◌, ◌/◌, ◌%◌, ◌^◌, Bool, true, false, not, ◌&&◌, Option, none, some,
  List, [], ◌∷◌, ◌++◌, length, ltb, leb, ◌==◌, if◌then◌else◌, Run, done, stop, fault, out_of_fuel,
  ◌>>=◌,
}
use kingdo_micro_kernel.Printk.{Width, positive, negative, Flags, prints, simple_outputi}

-- An argument of the call: a number in its 64-bit slot, a string at its address, or NULL for a string.
pub data Arg : Type 0 where
  word : ℕ → Arg
  text : ℕ → List ℕ → Arg
  null : Arg

-- The arguments left, the bytes of the union `u`, the characters so far and their count.
pub record Printer : Type 0 where
  pub args : List Arg
  pub union : ℕ
  pub out : List ℕ
  pub pc : ℕ

abbrev pub put : List ℕ × ℕ → Printer → Printer
put (chars, n) s = record s { out = s.out ++ chars; pc = s.pc + n }

-- A character of the format itself, with a carriage return before a newline.
unfoldable pub put_literal : ℕ → Printer → Printer
put_literal c s = put (if c == b'\n' then b'\r' ∷ c ∷ [] else c ∷ [], 1) s

-- The low `bits` bits of the union are written.
abbrev pub write_low : ℕ → ℕ → ℕ → ℕ
write_low bits v u = u / 2 ^ bits * 2 ^ bits + v % 2 ^ bits

-- A signed number of `bits` bits as a long.
abbrev pub sign_extend : ℕ → ℕ → ℕ
sign_extend bits v = if ltb v (2 ^ (bits - 1)) then v else v + 2 ^ 64 - 2 ^ bits

unfoldable pub next_word : List Arg → Run (ℕ × List Arg)
next_word (word v ∷ args) = done (v, args)
next_word args = stop fault

unfoldable pub next_text : List Arg → Run (Option (ℕ × List ℕ) × List Arg)
next_text (text address t ∷ args) = done (some (address, t), args)
next_text (null ∷ args) = done (none, args)
next_text args = stop fault

-- How the number is read back from the union: the field that was written, or all of it.
pub data Reading : Type 0 where
  signed unsigned whole : Reading

abbrev pub read_union : Reading → ℕ → ℕ → ℕ
read_union signed bits u = sign_extend bits (u % 2 ^ bits)
read_union unsigned bits u = u % 2 ^ bits
read_union whole bits u = u

-- A number of `bits` bits: `va_arg`, the union, `simple_outputi`.
unfoldable pub put_number : ℕ → Reading → ℕ → Bool → ℕ → Width → Flags → Printer → Run Printer
unfolding simple_outputi next_word
put_number bits reading base sign letbase width flags s = next_word s.args >>= λ (v, args).
    let u = write_low bits v s.union in
    simple_outputi (read_union reading bits u) base sign width flags letbase >>= λ printed.
    done (put printed (record s { args = args; union = u }))

-- The conversions d, u, x and X of one width; another character prints nothing.
unfoldable pub integer : ℕ → Reading → ℕ → Width → Flags → Printer → Run Printer
unfolding put_number
integer bits reading c width flags s =
    if c == b'd'
    then put_number bits signed 10 true b'a' width flags s
    else if c == b'u'
    then put_number bits reading 10 false b'a' width flags s
    else if c == b'x'
    then put_number bits reading 16 false b'a' width flags s
    else if c == b'X'
    then put_number bits reading 16 false b'A' width flags s
    else done s

unfoldable pub put_char : Width → Flags → Printer → Run Printer
unfolding prints next_word
put_char width flags s = next_word s.args >>= λ (v, args).
    let c = v % 256 in
    done (
      put (prints (if c == 0 then [] else c ∷ []) width flags)
        (record s { args = args; union = write_low 8 v s.union }))

abbrev pub null_text : List ℕ
null_text = b'(' ∷ b'n' ∷ b'u' ∷ b'l' ∷ b'l' ∷ b')' ∷ []

abbrev pub text_or_null : Option (ℕ × List ℕ) → List ℕ
text_or_null none = null_text
text_or_null (some (address, t)) = t

-- The union holds the pointer then.
abbrev pub address_of : Option (ℕ × List ℕ) → ℕ
address_of none = 0
address_of (some (address, t)) = address

unfoldable pub put_text : Width → Flags → Printer → Run Printer
unfolding prints next_text
put_text width flags s = next_text s.args >>= λ (t, args).
    done
      (put (prints (text_or_null t) width flags) (record s { args = args; union = address_of t }))

-- The character of a conversion that is its last, and the format behind it. The end of the format
-- here is skipped by the loop, whose next read is behind the NUL.
unfoldable pub last_char : List ℕ → (ℕ → Run Printer) → Run (List ℕ × Printer)
last_char [] f = stop fault
last_char (c ∷ r) f = f c >>= λ s. done (r, s)

-- Behind `l`, `ll`, `h` and `hh`.
unfoldable pub long_number : List ℕ → Width → Flags → Printer → Run (List ℕ × Printer)
unfolding last_char integer
long_number [] width flags s = stop fault
long_number (c ∷ r) width flags s =
    if c == b'l'
    then last_char r (λ d. integer 64 unsigned d width flags s)
    else last_char (c ∷ r) (λ d. integer 64 unsigned d width flags s)

unfoldable pub short_number : List ℕ → Width → Flags → Printer → Run (List ℕ × Printer)
unfolding last_char integer
short_number [] width flags s = stop fault
short_number (c ∷ r) width flags s =
    if c == b'h'
    then last_char r (λ d. integer 8 whole d width flags s)
    else last_char (c ∷ r) (λ d. integer 16 whole d width flags s)

unfoldable pub one_char : ℕ → Width → Flags → Printer → Run Printer
unfolding integer put_number put_char put_text
one_char c width flags s =
    if c == b'b'
    then put_number 32 signed 2 true b'a' width flags s
    else if c == b'p'
    then put_number 64 unsigned 16 false b'a' width flags s
    else if c == b'c'
    then put_char width flags s
    else if c == b's'
    then put_text width flags s
    else integer 32 unsigned c width flags s

-- `switch (*format)`
unfoldable pub convert : List ℕ → Width → Flags → Printer → Run (List ℕ × Printer)
unfolding long_number short_number one_char
convert [] width flags s = stop fault
convert (c ∷ r) width flags s =
    if c == b'l'
    then long_number r width flags s
    else if c == b'h'
    then short_number r width flags s
    else last_char (c ∷ r) (λ d. one_char d width flags s)

-- `while (*format == '0')`
unfoldable pub skip_zeros : List ℕ → Bool → Bool × List ℕ
skip_zeros [] pad = (pad, [])
skip_zeros (c ∷ r) pad = let rest = skip_zeros r true in if c == b'0' then rest else (pad, c ∷ r)

-- `for (; *format >= '0' && *format <= '9'; ++format)`: the width is the bits of an int, and wraps
-- where the number is too long, which C leaves undefined.
unfoldable pub read_width : List ℕ → ℕ → ℕ × List ℕ
read_width [] w = (w, [])
read_width (c ∷ r) w =
    let rest = read_width r ((w * 10 + (c - b'0')) % 2 ^ 32) in
    if leb b'0' c && leb c b'9' then rest else (w, c ∷ r)

-- An int as a width.
abbrev pub width_of : ℕ → Width
width_of v =
    if ltb (v % 2 ^ 32) (2 ^ 31) then positive (v % 2 ^ 32) else negative (2 ^ 32 - 1 - v % 2 ^ 32)

unfoldable pub with_width : List ℕ → Flags → Printer → Run (List ℕ × Printer)
unfolding convert read_width next_word
with_width [] flags s = convert [] (positive 0) flags s
with_width (c ∷ r) flags s =
    let given = read_width (c ∷ r) 0 in
    if c == b'*'
    then (next_word s.args >>= λ (v, args). convert r (width_of v) flags (record s { args = args }))
    else convert given.1 (width_of given.0) flags s

-- A directive, from the character behind `%`, which is not the end of the format nor `%`.
unfoldable pub directive : ℕ → List ℕ → Printer → Run (List ℕ × Printer)
unfolding with_width skip_zeros
directive c r s =
    let right = c == b'-' in
    let flagged = skip_zeros (if right then r else c ∷ r) false in
    with_width flagged.1 (record { pad_zero = flagged.0; pad_right = right }) s

-- The loop over the format.
unfoldable pub simple_vsprintf : ℕ → List ℕ → Printer → Run Printer
unfolding directive put_literal
simple_vsprintf zero format s = stop out_of_fuel
simple_vsprintf (suc fuel) [] s = done s
simple_vsprintf (suc fuel) (c ∷ []) s =
    let rest = simple_vsprintf fuel [] (put_literal c s) in if c == b'%' then done s else rest
simple_vsprintf (suc fuel) (c ∷ d ∷ r) s =
    let literal = simple_vsprintf fuel (d ∷ r) (put_literal c s) in
    let percent = simple_vsprintf fuel r (put_literal d s) in
    let conversion = (directive d r s >>= λ (rest, s'). simple_vsprintf fuel rest s') in
    if not (c == b'%') then literal else if d == b'%' then percent else conversion

-- What `printk` sends to the console, with what the union holds before.
unfoldable pub printk : ℕ → List ℕ → List Arg → Run (List ℕ)
unfolding simple_vsprintf
printk union format args =
    simple_vsprintf (length format + 1) format
      (record { args = args; union = union; out = []; pc = 0 })
    >>= λ s. done s.out
