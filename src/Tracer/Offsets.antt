-- ===== src/Tracer/Offsets.antt =====
-- `parse_offsets` and `validate_offsets` of tracer/pintool/pin/champsim_tracer_mt_roi_v3.cpp.
pub mod Regions
use champsim_infra.Prelude.{
  ℕ, suc, ◌+◌, ◌-◌, ◌*◌, ◌%◌, ◌^◌, ◌≤◌, ◌≡◌, refl, sym, ◌∙◌, ◌&&◌, ◌||◌, not, Bool, true, false,
  Option, none, some, List, [], ◌∷◌, ◌++◌, ltb, leb, ◌==◌, if◌then◌else◌, arith, is_digit, is_empty,
  digits_value, ◌>>=◌,
}

-- The pieces between the commas.
unfoldable split_at_commas : List ℕ → List ℕ → List (List ℕ)
split_at_commas tok [] = tok ∷ []
split_at_commas tok (c ∷ s) =
    let rest = split_at_commas [] s in
    let more = split_at_commas (tok ++ c ∷ []) s in if c == 44 then tok ∷ rest else more

abbrev is_blank : ℕ → Bool
is_blank c = c == 32 || c == 9

unfoldable all : (ℕ → Bool) → List ℕ → Bool
all p [] = true
all p (c ∷ s) = p c && all p s

unfoldable trim_front : List ℕ → List ℕ
trim_front [] = []
trim_front (c ∷ s) = let rest = trim_front s in if is_blank c then rest else c ∷ s

unfoldable trim_back : List ℕ → List ℕ
unfolding all
trim_back [] = []
trim_back (c ∷ s) = let rest = trim_back s in if all is_blank (c ∷ s) then [] else c ∷ rest

-- A token that is not empty: digits only, and `strtoull` sets no errno.
unfoldable parse_token : List ℕ → Option ℕ
unfolding all digits_value
parse_token tok =
    if not (all is_digit tok)
    then none
    else if leb (2 ^ 64) (digits_value 0 tok)
    then none
    else some (digits_value 0 tok)

-- The values of the tokens; empty tokens are skipped.
unfoldable parse_tokens : List (List ℕ) → Option (List ℕ)
unfolding parse_token trim_front trim_back
parse_tokens [] = some []
parse_tokens (tok ∷ toks) =
    let rest = parse_tokens toks in
    let t = trim_back (trim_front tok) in
    if is_empty t then rest else elim (parse_token t) [
      | none ↦ none
      | some v ↦ elim rest [ none ↦ none | some vs ↦ some (v ∷ vs) ]
    ]

-- `none` is the result false.
unfoldable pub parse_offsets : List ℕ → Option (List ℕ)
unfolding parse_tokens split_at_commas
parse_offsets s = elim (parse_tokens (split_at_commas [] s)) [
  | none ↦ none
  | some vs ↦ if is_empty vs then none else some vs
]

-- The loop over the neighbours.
unfoldable pub regions_apart : ℕ → List ℕ → Bool
regions_apart tc [] = true
regions_apart tc (x ∷ []) = true
regions_apart tc (x ∷ y ∷ xs) =
    let rest = regions_apart tc (y ∷ xs) in
    if leb y x then false else if ltb (y - x) tc then false else rest

unfoldable pub validate_offsets : Bool → ℕ → ℕ → ℕ → List ℕ → Bool
unfolding regions_apart
validate_offsets use_markers initial_skip inter_sample_skip tc offsets =
    if use_markers
    then false
    else if not (initial_skip == 0)
    then false
    else if not (inter_sample_skip == 0)
    then false
    else regions_apart tc offsets
