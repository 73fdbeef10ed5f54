-- ===== src/Prelude/Text.antt =====
-- C strings as lists of bytes, and what the programs use of <cstdlib> and printf on them.
use Prim.Native.Nat.{ℕ, zero, suc, ◌+◌, ◌-◌, ◌*◌, ◌/◌, ◌%◌, ◌^◌}
use Prim.Native.Char.{code}
use Prim.Native.String.{String}
use mathlib.Core.Bool.{Bool, true, false, ◌&&◌, ◌||◌}
use mathlib.Core.List.{List, [], ◌∷◌, ◌++◌}
use champsim_infra.Prelude.Tests.{ltb, leb, ◌==◌, if◌then◌else◌}
use champsim_infra.Prelude.Lists.{length, replicate}

abbrev pub codes : String → List ℕ
codes String.[] = []
codes (String.◌∷◌ c s) = code c ∷ codes s

-- std::string's ==
unfoldable pub str_eq : List ℕ → List ℕ → Bool
str_eq [] [] = true
str_eq [] (y ∷ ys) = false
str_eq (x ∷ xs) [] = false
str_eq (x ∷ xs) (y ∷ ys) = x == y && str_eq xs ys

abbrev pub is_empty {ℓ} : {A : Type ℓ} → List A → Bool
is_empty [] = true
is_empty (x ∷ xs) = false

abbrev pub is_digit : ℕ → Bool
is_digit c = leb b'0' c && leb c b'9'

abbrev pub is_space : ℕ → Bool
is_space c = c == 32 || (leb 9 c && leb c 13)

-- strtoull(s, nullptr, 10): white space, a sign, digits; the value saturates, and a minus sign
-- negates it modulo 2 ^ 64.
unfoldable pub digits_value : ℕ → List ℕ → ℕ
digits_value acc [] = acc
digits_value acc (c ∷ s) = elim (is_digit c) [
  | true ↦ digits_value (acc * 10 + (c - b'0')) s
  | false ↦ acc
]

abbrev saturate : ℕ → ℕ
saturate v = if leb (2 ^ 64) v then 2 ^ 64 - 1 else v

abbrev negate : ℕ → ℕ
negate v = if leb (2 ^ 64) v then 2 ^ 64 - 1 else (2 ^ 64 - v) % 2 ^ 64

unfoldable pub signed_value : List ℕ → ℕ
unfolding digits_value
signed_value [] = 0
signed_value (c ∷ s) =
    if c == b'-'
    then negate (digits_value 0 s)
    else if c == b'+'
    then saturate (digits_value 0 s)
    else saturate (digits_value 0 (c ∷ s))

unfoldable pub strtoull : List ℕ → ℕ
unfolding signed_value
strtoull [] = 0
strtoull (c ∷ s) = if is_space c then strtoull s else signed_value (c ∷ s)

-- "%u" of a number below 10 ^ fuel.
unfoldable pub decimal : ℕ → ℕ → List ℕ
decimal zero n = []
decimal (suc fuel) n = elim (ltb n 10) [
  | true ↦ (n + b'0') ∷ []
  | false ↦ decimal fuel (n / 10) ++ (n % 10 + b'0') ∷ []
]

-- "%03u" of a uint32_t, which has at most ten digits.
unfoldable pub decimal_padded : ℕ → List ℕ
unfolding decimal
decimal_padded n = replicate (3 - length (decimal 10 n)) b'0' ++ decimal 10 n
