-- ===== src/Strings/Boolean.antt =====
-- djmount/string_util.c: what `String_ToBoolean` accepts.
use djmount.Base.{ℕ, Bool, true, false, ◌≡◌, [], ◌∷◌, ◌++◌, some, arith, ◌⊎◌}
use djmount.Base.Lists.{Bytes, All}
use djmount.Base.Text.{isspace}
use djmount.Strings.{skip_spaces, to_boolean}

skip_blank :
    (a : Bytes) (c : ℕ) (rest : Bytes)
    → All (λ b. isspace b ≡ true) a
    → isspace c ≡ false
    → skip_spaces (a ++ c ∷ rest) ≡ c ∷ rest
unfolding skip_spaces
skip_blank [] c rest h k = ground arith
skip_blank (b ∷ a) c rest (h, hs) k = ground (arith, skip_blank a c rest hs k)

-- The letters of the accepted values, of either case.
abbrev pub IsYes : ℕ → Type 0
IsYes c = (c ≡ b'1') ⊎ (c ≡ b't') ⊎ (c ≡ b'T') ⊎ (c ≡ b'y') ⊎ (c ≡ b'Y')

abbrev pub IsNo : ℕ → Type 0
IsNo c = (c ≡ b'0') ⊎ (c ≡ b'f') ⊎ (c ≡ b'F') ⊎ (c ≡ b'n') ⊎ (c ≡ b'N')

-- The first byte after the leading spaces decides, up to case: 1, t and y give true, 0, f and n give
-- false, whatever follows and whatever the default; any other byte gives the default.
pub to_boolean_lem :
    (a : Bytes) (c : ℕ) (rest : Bytes) (default_value : Bool)
    → All (λ b. isspace b ≡ true) a
    → isspace c ≡ false
    → (IsYes c → to_boolean (some (a ++ c ∷ rest)) default_value ≡ true)
      × (IsNo c → to_boolean (some (a ++ c ∷ rest)) default_value ≡ false)
      × ((¬ IsYes c) → (¬ IsNo c) → to_boolean (some (a ++ c ∷ rest)) default_value ≡ default_value)
unfolding to_boolean
to_boolean_lem a c rest default_value blank h =
    rw (skip_blank a c rest blank h)
      ((λ y. ground arith), (λ n. ground arith), (λ y n. ground arith))
