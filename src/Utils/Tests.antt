-- ===== src/Utils/Tests.antt =====
-- Two strings in a small memory, and a block that is copied.
use kingdo_micro_kernel.Prelude.{
  ℕ, ◌-◌, ◌^◌, ◌+◌, ◌⊎◌, ◌≤◌, inl, ◌<◌, ◌≡◌, refl, ◌==◌, if◌then◌else◌, ◌↔◌, done, arith,
}
use kingdo_micro_kernel.Utils.{memcpy, memcmp, strcmp, strlen, strncmp, strncmp_from}
use kingdo_micro_kernel.Utils.Compare.{
  AreBytes, IsString, SameText, strcmp-strlen, IsComparison, memcmp-IsComparison,
}
use kingdo_micro_kernel.Utils.Copy.{memcpy-copies}

-- The string aaa from address 10 on, ab from address 20 on, and zeros elsewhere.
abbrev memory : ℕ → ℕ
memory a =
    if a == 10
    then 97
    else if a == 11
    then 97
    else if a == 12
    then 97
    else if a == 20
    then 97
    else if a == 21
    then 98
    else 0

compared : strcmp 9 10 20 memory ≡ done (2 ^ 32 - 1)
unfolding strcmp
compared = refl

start_compared : strncmp 10 20 1 memory ≡ 0
unfolding strncmp strncmp_from
start_compared = refl

memory-AreBytes : AreBytes memory
memory-AreBytes a = ground arith

three : IsString memory 10 3
three = record { text = λ i less. ground arith; end = refl }

two : IsString memory 20 2
two = record { text = λ i less. ground arith; end = refl }

strcmp-strlen_example :
    (strlen 9 10 memory ≡ done 3)
    × ((v : ℕ) × (strcmp 9 10 20 memory ≡ done v) × ((v ≡ 0) ↔ SameText memory 10 3 20 2))
strcmp-strlen_example = strcmp-strlen 9 10 3 20 2 memory memory-AreBytes three two (omega arith)

copied_compared : memcmp 30 10 3 (memcpy 30 10 3 memory) ≡ 0
unfolding memcmp memcpy
copied_compared = refl

memcmp-IsComparison_example : IsComparison memory 10 20 3 (memcmp 10 20 3 memory)
memcmp-IsComparison_example = memcmp-IsComparison 10 20 3 memory memory-AreBytes

-- The blocks overlap, and the destination begins before the source.
memcpy-copies_example :
    ((i : ℕ) → i < 4 → memcpy 10 11 4 memory (10 + i) ≡ memory (11 + i))
    × ((a : ℕ) → (a < 10) ⊎ (10 + 4 ≤ a) → memcpy 10 11 4 memory a ≡ memory a)
memcpy-copies_example = memcpy-copies 10 11 4 memory (inl (omega arith))
