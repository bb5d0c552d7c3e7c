-- ===== src/Conversion/Overwrite.antt =====
-- djmount/charset.c: what `strncpy` does to the environment when G_FILENAME_ENCODING is set.
use djmount.Base.{ℕ, ◌+◌, ◌≤◌, ◌<◌, ◌≡◌, ◌⊎◌, List, [], ◌∷◌, ◌++◌}
use djmount.Base.Lists.{Bytes}
use djmount.Conversion.{Variable, variable_size, g_filename_encoding}

-- G_FILENAME_ENCODING with a value, between other variables.
abbrev pub around : List Variable → Bytes → List Variable → List Variable
around xs value ys = xs ++ record { name = g_filename_encoding; value = value } ∷ ys

-- The bytes that variables take.
abbrev pub total : List Variable → ℕ
total [] = 0
total (v ∷ vs) = variable_size v + total vs

-- The variables ws are just those of ws ++ zs that start in the first n bytes.
pub record IsCut (n : ℕ) (ws zs : List Variable) : Type 0 where
  pub lost : (a : List Variable) (v : Variable) (b : List Variable) → ws ≡ a ++ v ∷ b → total a < n
  pub left : (zs ≡ []) ⊎ (n ≤ total ws)
