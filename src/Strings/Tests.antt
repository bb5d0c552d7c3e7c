-- ===== src/Strings/Tests.antt =====
-- Examples for djmount/string_util.c.
use djmount.Base.{true, false, ◌≡◌, ◌≢◌, refl, [], ◌++◌, none, some, inl, inr}
use djmount.Base.Lists.{Bytes, All, length}
use djmount.Base.Int.{pos, negsuc}
use djmount.Base.Text.{codes}
use djmount.Strings.Strip.{IsBlank, IsTrim, strip_spaces_lem, clean_file_name_lem}
use djmount.Strings.Boolean.{IsYes, IsNo, to_boolean_lem}
use djmount.Strings.Number.{to_integer-digits, to_integer-junk, to_integer_blank}
use djmount.Strings.{strip_spaces, clean_file_name, to_boolean, to_integer, clamp}

strip_spaces_lem_test :
    (strip_spaces none ≡ none)
    × ((a : Bytes) × (r : Bytes) × (b : Bytes) × (strip_spaces (some (codes " a b ")) ≡ some r)
        × (codes " a b " ≡ a ++ (r ++ b))
        × IsBlank a
        × IsBlank b
        × IsTrim r)
strip_spaces_lem_test = strip_spaces_lem (codes " a b ")

clean_file_name_lem_example :
    (r : Bytes) × (f : Bytes) × (strip_spaces (some (codes " AC/DC ")) ≡ some r)
    × (clean_file_name (some (codes " AC/DC ")) ≡ some f)
    × All (λ c. c ≢ b'/') f
    × IsTrim f
    × (length f ≡ length r)
    × (All (λ c. c ≢ b'/') r → f ≡ r)
clean_file_name_lem_example = clean_file_name_lem (codes " AC/DC ")

to_boolean_lem_test :
    (IsYes b'Y' → to_boolean (some (codes " Yes")) false ≡ true)
    × (IsNo b'Y' → to_boolean (some (codes " Yes")) false ≡ false)
    × ((¬ IsYes b'Y') → (¬ IsNo b'Y') → to_boolean (some (codes " Yes")) false ≡ false)
to_boolean_lem_test = to_boolean_lem (codes " ") b'Y' (codes "es") false (refl, tt) refl

to_integer-digits_example : to_integer (some (codes " -42 ")) (pos 7) ≡ negsuc 41
unfolding clamp
to_integer-digits_example =
    to_integer-digits (codes " ") (codes "-") true b'4' (codes "2") (codes " ") (pos 7) (refl, tt)
      (inr (inr (refl, refl))) (refl, (refl, tt)) (refl, tt)

to_integer-junk_test : to_integer (some (codes "42 km")) (pos 7) ≡ pos 7
to_integer-junk_test =
    to_integer-junk [] [] false b'4' (codes "2") (codes " ") b'k' (codes "m") (pos 7) tt
      (inl (refl, refl)) (refl, (refl, tt)) (refl, tt) refl refl

to_integer_blank_test : to_integer (some (codes "  ")) (pos 7) ≡ pos 0
to_integer_blank_test = to_integer_blank b' ' (codes " ") (pos 7) (refl, (refl, tt))
