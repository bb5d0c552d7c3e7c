-- ===== src/Base/Text.antt =====
-- Literals as bytes, and what the program uses of <ctype.h> in the C locale.
use Prim.Native.Nat.{ℕ, ◌+◌}
use Prim.Native.Char.{code}
use Prim.Native.String.{String}
use mathlib.Core.Bool.{Bool, true, false, ◌&&◌, ◌||◌}
use mathlib.Core.List.{[], ◌∷◌}
use djmount.Base.Lists.{Bytes}
use djmount.Base.Tests.{leb, ◌==◌, if◌then◌else◌}

-- The code points of a literal; these are its bytes when the text is ASCII.
abbrev pub codes : String → Bytes
codes String.[] = []
codes (String.◌∷◌ c s) = code c ∷ codes s

-- space, \t, \n, \v, \f, \r
abbrev pub isspace : ℕ → Bool
isspace c = c == 32 || (leb 9 c && leb c 13)

abbrev pub isdigit : ℕ → Bool
isdigit c = leb b'0' c && leb c b'9'

abbrev pub isupper : ℕ → Bool
isupper c = leb b'A' c && leb c b'Z'

abbrev pub isalnum : ℕ → Bool
isalnum c = isdigit c || (isupper c || (leb b'a' c && leb c b'z'))

abbrev pub tolower : ℕ → ℕ
tolower c = if isupper c then c + 32 else c

-- `strncmp (s, prefix, strlen (prefix)) == 0`
abbrev pub starts_with : Bytes → Bytes → Bool
starts_with [] s = true
starts_with (p ∷ ps) [] = false
starts_with (p ∷ ps) (c ∷ cs) = p == c && starts_with ps cs
