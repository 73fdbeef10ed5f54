-- ===== src/Raw/Bytes.antt =====
-- Reading from a stream of bytes, as `reader_read_exact` does: the stream is what is left of the
-- decompressed input.
use native.Mathlib.Nat.{div-add-mod, div-lt_iff_lt-mul}
use champsim_infra.Prelude.{
  ℕ, zero, suc, ◌*◌, ◌/◌, ◌^◌, ◌<◌, ◌≤◌, ◌≡◌, refl, ap, ap₂, subst, ◌∙◌, Option, none, some, List,
  [], ◌∷◌, ◌++◌, length, take, drop, leb, le→leb, if◌then◌else◌, arith,
}
use champsim_infra.Trace.{word, bytes_of}

-- `none` is a failed read; what it leaves of the stream is not used.
abbrev pub Reads {ℓ} : Type ℓ → Type ℓ
Reads A = List ℕ → Option (A × List ℕ)

abbrev pub pure {ℓ} : {A : Type ℓ} → A → Reads A
pure a bs = some (a, bs)

abbrev pub fail {ℓ} : {A : Type ℓ} → Reads A
fail bs = none

module _ {ℓ κ} {A : Type ℓ} {B : Type κ} where
  -- What follows a read.
  abbrev pub continued : (A → Reads B) → Option (A × List ℕ) → Option (B × List ℕ)
  continued f none = none
  continued f (some (a, bs)) = f a bs

  infixl 5 ◌>>=◌
  abbrev pub ◌>>=◌ : Reads A → (A → Reads B) → Reads B
  p >>= f = λ bs. continued f (p bs)

  -- A step that is known to succeed.
  pub reads-step :
      (p : Reads A) (f : A → Reads B) (bs rest : List ℕ) (a : A) (r : Option (B × List ℕ))
      → p bs ≡ some (a, rest)
      → f a rest ≡ r
      → (p >>= f) bs ≡ r
  reads-step p f bs rest a r e h = ap (continued f) e ∙ h

unfoldable pub read_exact : ℕ → Reads (List ℕ)
read_exact n bs = if leb n (length bs) then some (take n bs, drop n bs) else none

unfoldable pub read_number : ℕ → Reads ℕ
unfolding read_exact word
read_number n = read_exact n >>= λ bs. pure (word bs)

pub take-append : (xs ys : List ℕ) → take (length xs) (xs ++ ys) ≡ xs
take-append [] [] = refl
take-append [] (y ∷ ys) = refl
take-append (x ∷ xs) ys = ap (λ zs. x ∷ zs) (take-append xs ys)

pub drop-append : (xs ys : List ℕ) → drop (length xs) (xs ++ ys) ≡ ys
drop-append [] [] = refl
drop-append [] (y ∷ ys) = refl
drop-append (x ∷ xs) ys = drop-append xs ys

length-le-append : (xs ys : List ℕ) → length xs ≤ length (xs ++ ys)
length-le-append [] ys = omega arith
length-le-append (x ∷ xs) ys = omega (arith, length-le-append xs ys)

pub length-bytes_of : (n v : ℕ) → length (bytes_of n v) ≡ n
unfolding bytes_of
length-bytes_of zero v = refl
length-bytes_of (suc n) v = omega (arith, length-bytes_of n (v / 256))

-- A number is read back from its bytes.
pub word-bytes_of : (n v : ℕ) → v < 256 ^ n → word (bytes_of n v) ≡ v
unfolding word bytes_of
word-bytes_of zero v h = omega arith
word-bytes_of (suc n) v h =
    let more : 256 ^ suc n ≡ 256 ^ n * 256 = omega arith in
    let high : v / 256 < 256 ^ n =
      (div-lt_iff_lt-mul {k = 256} {x = v} {y = 256 ^ n} (omega arith)).1 (omega (arith, more)) in
    omega (arith, word-bytes_of n (v / 256) high, div-add-mod v 256)

-- The bytes that were written come back, and what follows them is left.
pub read_exact-append :
    (n : ℕ) (xs ys : List ℕ) → length xs ≡ n → read_exact n (xs ++ ys) ≡ some (xs, ys)
unfolding read_exact
read_exact-append n xs ys e =
    subst (λ n. read_exact n (xs ++ ys) ≡ some (xs, ys)) e
      (ap (λ b. if b then some (take (length xs) (xs ++ ys), drop (length xs) (xs ++ ys)) else none)
          (le→leb _ _ (length-le-append xs ys))
        ∙ ap (λ z. some z) (ap₂ (λ a b. (a, b)) (take-append xs ys) (drop-append xs ys)))

pub read_number-append :
    (n v : ℕ) (ys : List ℕ) → v < 256 ^ n → read_number n (bytes_of n v ++ ys) ≡ some (v, ys)
unfolding read_number
read_number-append n v ys h =
    ap (continued (λ bs. pure (word bs)))
      (read_exact-append n (bytes_of n v) ys (length-bytes_of n v))
    ∙ ap (λ u. some (u, ys)) (word-bytes_of n v h)
