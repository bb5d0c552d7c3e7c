-- ===== src/Strings/Number.antt =====
-- djmount/string_util.c: what `_String_ToInteger` accepts, and the value it gives.
use djmount.Base.{
  ℕ, ◌+◌, ◌-◌, ◌*◌, Bool, true, false, ◌≡◌, ◌≢◌, refl, [], ◌∷◌, ◌++◌, some, arith, ◌⊎◌, inl, inr,
  ◌∙◌, ap,
}
use djmount.Base.Lists.{Bytes, All}
use djmount.Base.Text.{isspace, isdigit}
use djmount.Base.Int.{ℤ, pos}
use djmount.Strings.{
  skip_spaces, scan_digits, clamp, starts_digit, number, signed_number, strtoimax, accepted,
  to_integer,
}

-- The number that digits spell after the number n.
abbrev pub value_from : ℕ → Bytes → ℕ
value_from n [] = n
value_from n (c ∷ cs) = value_from (n * 10 + (c - b'0')) cs

abbrev pub IsDigits : Bytes → Type 0
IsDigits = All (λ c. isdigit c ≡ true)

-- A text in which the number ends: its first byte, if any, is no digit.
abbrev EndsNumber : Bytes → Type 0
EndsNumber rest = starts_digit rest ≡ false

scan_digits-append :
    (ds rest : Bytes) (n : ℕ)
    → IsDigits ds
    → EndsNumber rest
    → scan_digits n (ds ++ rest) ≡ (value_from n ds, rest)
unfolding scan_digits
scan_digits-append [] [] n h e = refl
scan_digits-append [] (c ∷ cs) n h e = rw e
scan_digits-append (d ∷ ds) rest n (h, hs) e =
    rw h (scan_digits-append ds rest (n * 10 + (d - b'0')) hs e)

skip_blank :
    (a rest : Bytes) → All (λ b. isspace b ≡ true) a → skip_spaces (a ++ rest) ≡ skip_spaces rest
unfolding skip_spaces
skip_blank [] rest h = refl
skip_blank (b ∷ a) rest (h, hs) = rw h (skip_blank a rest hs)

-- The spellings of a sign, and whether it is a minus.
abbrev pub Sign : Bytes → Bool → Type 0
Sign sign minus =
    ((sign ≡ []) × (minus ≡ false))
    ⊎ ((sign ≡ b'+' ∷ []) × (minus ≡ false))
    ⊎ ((sign ≡ b'-' ∷ []) × (minus ≡ true))

module _ (d : ℕ) (ds rest : Bytes) (digits : IsDigits (d ∷ ds)) (ends : EndsNumber rest) where
  number_run :
      (s : Bytes) (minus : Bool)
      → number s minus (d ∷ (ds ++ rest)) ≡ (clamp minus (value_from 0 (d ∷ ds)), rest)
  unfolding number
  number_run s minus = rw (scan_digits-append (d ∷ ds) rest 0 digits ends, digits.0)

  signed_run :
      (s sign : Bytes) (minus : Bool)
      → Sign sign minus
      → signed_number s (skip_spaces (sign ++ (d ∷ (ds ++ rest))))
        ≡ number s minus (d ∷ (ds ++ rest))
  unfolding signed_number skip_spaces
  signed_run s sign minus (inl (e, m)) = rw (e, m) (ground (arith, digits.0))
  signed_run s sign minus (inr (inl (e, m))) = rw (e, m) refl
  signed_run s sign minus (inr (inr (e, m))) = rw (e, m) refl

  strtoimax_run :
      (a sign : Bytes) (minus : Bool)
      → All (λ b. isspace b ≡ true) a
      → Sign sign minus
      → strtoimax (a ++ (sign ++ (d ∷ (ds ++ rest)))) ≡ (clamp minus (value_from 0 (d ∷ ds)), rest)
  unfolding strtoimax
  strtoimax_run a sign minus blank sg =
      rw (skip_blank a (sign ++ (d ∷ (ds ++ rest))) blank)
        (signed_run (a ++ (sign ++ (d ∷ (ds ++ rest)))) sign minus sg ∙ number_run _ minus)

to_integer_run :
    (s rest : Bytes) (v error_value : ℤ)
    → s ≢ []
    → strtoimax s ≡ (v, rest)
    → to_integer (some s) error_value ≡ accepted v (skip_spaces rest) error_value
unfolding to_integer
to_integer_run [] rest v error_value h e = absurd (h refl)
to_integer_run (c ∷ cs) rest v error_value h e =
    ap (λ p. accepted p.0 (skip_spaces p.1) error_value) e

text-ne-nil : (a sign x : Bytes) (d : ℕ) → a ++ (sign ++ (d ∷ x)) ≢ []
text-ne-nil [] [] x d = cc
text-ne-nil [] (c ∷ sign) x d = cc
text-ne-nil (c ∷ a) sign x d = cc

skip-All : (b : Bytes) → All (λ c. isspace c ≡ true) b → skip_spaces b ≡ []
unfolding skip_spaces
skip-All [] h = refl
skip-All (c ∷ cs) (h, hs) = rw h (skip-All cs hs)

blank_end : (b : Bytes) → All (λ c. isspace c ≡ true) b → EndsNumber b
blank_end [] h = refl
blank_end (c ∷ cs) (h, hs) = ground arith

-- Spaces, a sign or none, one digit or more and spaces again spell a number: the result is its
-- value, or the nearest bound of `intmax_t` where it has none.
pub to_integer-digits :
    (a sign : Bytes) (minus : Bool) (d : ℕ) (ds b : Bytes) (error_value : ℤ)
    → All (λ c. isspace c ≡ true) a
    → Sign sign minus
    → IsDigits (d ∷ ds)
    → All (λ c. isspace c ≡ true) b
    → to_integer (some (a ++ (sign ++ (d ∷ (ds ++ b))))) error_value
      ≡ clamp minus (value_from 0 (d ∷ ds))
to_integer-digits a sign minus d ds b error_value ha sg digits hb =
    to_integer_run _ b _ error_value (text-ne-nil a sign (ds ++ b) d)
      (strtoimax_run d ds b digits (blank_end b hb) a sign minus ha sg)
    ∙ rw (skip-All b hb)

-- Where a number, with spaces around it or none and a sign or none, is followed by a byte that is
-- neither a space nor a digit, the whole text is an error, whatever comes after.
pub to_integer-junk :
    (a sign : Bytes) (minus : Bool) (d : ℕ) (ds b : Bytes) (x : ℕ) (y : Bytes) (error_value : ℤ)
    → All (λ c. isspace c ≡ true) a
    → Sign sign minus
    → IsDigits (d ∷ ds)
    → All (λ c. isspace c ≡ true) b
    → isspace x ≡ false
    → isdigit x ≡ false
    → to_integer (some (a ++ (sign ++ (d ∷ (ds ++ (b ++ x ∷ y)))))) error_value ≡ error_value
to_integer-junk a sign minus d ds b x y error_value ha sg digits hb hx hd =
    to_integer_run _ (b ++ x ∷ y) _ error_value (text-ne-nil a sign (ds ++ (b ++ x ∷ y)) d)
      (strtoimax_run d ds (b ++ x ∷ y) digits (junk_end b hb) a sign minus ha sg)
    ∙ rw (skip_blank b (x ∷ y) hb) (unfold skip_spaces in rw hx)
  where
    junk_end : (b : Bytes) → All (λ c. isspace c ≡ true) b → EndsNumber (b ++ x ∷ y)
    junk_end [] h = hd
    junk_end (c ∷ cs) (h, hs) = ground (arith, h)

-- A text of spaces alone is read as 0, not as the error value.
pub to_integer_blank :
    (c : ℕ) (cs : Bytes) (error_value : ℤ)
    → All (λ c. isspace c ≡ true) (c ∷ cs)
    → to_integer (some (c ∷ cs)) error_value ≡ pos 0
to_integer_blank c cs error_value h =
    to_integer_run (c ∷ cs) (c ∷ cs) (pos 0) error_value (cc)
      (unfold strtoimax signed_number in rw (skip-All (c ∷ cs) h) refl)
    ∙ rw (skip-All (c ∷ cs) h)
