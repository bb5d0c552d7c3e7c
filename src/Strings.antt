-- ===== src/Strings.antt =====
-- djmount/string_util.c: stripping, file names, conversions and the hash.
-- A `char*` that may be NULL is an `Option` of the bytes before the NUL; talloc is taken to succeed,
-- as the code takes it.
pub mod Strip
pub mod Number
mod Tests
pub mod Boolean
use Prim.Native.Nat.{bit_xor}
use djmount.Base.{
  ℕ, zero, suc, ◌+◌, ◌-◌, ◌*◌, ◌%◌, ◌^◌, Bool, true, false, ◌||◌, List, [], ◌∷◌, Option, none, some,
  map,
}
use djmount.Base.Lists.{Bytes, length, get_or, take}
use djmount.Base.Tests.{ltb, leb, ◌==◌, if◌then◌else◌}
use djmount.Base.Text.{isspace, isdigit, tolower}
use djmount.Base.Int.{ℤ, pos, negsuc, neg}

-- `while (isspace (*s)) s++;`
unfoldable pub skip_spaces : Bytes → Bytes
skip_spaces [] = []
skip_spaces (c ∷ cs) = if isspace c then skip_spaces cs else c ∷ cs

-- `while (isspace (*p)) *p-- = '\0';` with `p` at the last of the first n bytes: writing the NUL
-- there leaves the bytes before it.
pub strip_end : ℕ → Bytes → Bytes
strip_end zero r = r
strip_end (suc n) r =
    let shorter = strip_end n (take n r) in if isspace (get_or r n 0) then shorter else r

-- `String_StripSpaces`
unfoldable pub strip_spaces : Option Bytes → Option Bytes
unfolding strip_end
strip_spaces none = none
strip_spaces (some s) = let r = skip_spaces s in some (strip_end (length r) r)

abbrev pub file_char : ℕ → ℕ
file_char c = if c == b'/' then b'_' else c

-- `String_CleanFileName`
unfoldable pub clean_file_name : Option Bytes → Option Bytes
clean_file_name s = elim (strip_spaces s) [ none ↦ none | some r ↦ some (map file_char r) ]

-- The digits at the start of a text, after the number n, and what follows them.
unfoldable pub scan_digits : ℕ → Bytes → ℕ × Bytes
scan_digits n [] = (n, [])
scan_digits n (c ∷ cs) =
    let more = scan_digits (n * 10 + (c - b'0')) cs in if isdigit c then more else (n, c ∷ cs)

abbrev pub intmax_max : ℕ
intmax_max = 2 ^ 63 - 1

-- The nearest value of `intmax_t`, of a number with its sign.
unfoldable pub clamp : Bool → ℕ → ℤ
clamp false n = if ltb intmax_max n then pos intmax_max else pos n
clamp true n = if ltb (intmax_max + 1) n then neg (intmax_max + 1) else neg n

abbrev pub starts_digit : Bytes → Bool
starts_digit [] = false
starts_digit (c ∷ cs) = isdigit c

-- The number after the sign; with no digit nothing is read, and the end is the start s.
unfoldable pub number : Bytes → Bool → Bytes → ℤ × Bytes
number s minus cs =
    let (n, rest) = scan_digits 0 cs in
    if starts_digit cs then (clamp minus n, rest) else (pos 0, s)

unfoldable pub signed_number : Bytes → Bytes → ℤ × Bytes
unfolding number
signed_number s [] = (pos 0, s)
signed_number s (c ∷ cs) =
    if c == b'-'
    then number s true cs
    else if c == b'+'
    then number s false cs
    else number s false (c ∷ cs)

-- `strtoimax (s, &endptr, 10)` of the C library: the value, and the text from `endptr` on.
unfoldable pub strtoimax : Bytes → ℤ × Bytes
unfolding signed_number
strtoimax s = signed_number s (skip_spaces s)

-- The value, if nothing but spaces follows it.
abbrev pub accepted : ℤ → Bytes → ℤ → ℤ
accepted val [] error_value = val
accepted val (c ∷ cs) error_value = error_value

-- `_String_ToInteger`
unfoldable pub to_integer : Option Bytes → ℤ → ℤ
to_integer none error_value = error_value
to_integer (some []) error_value = error_value
to_integer (some (c ∷ cs)) error_value =
    let (val, endptr) = strtoimax (c ∷ cs) in accepted val (skip_spaces endptr) error_value

-- The `switch` of `String_ToBoolean`.
pub boolean_of : Bytes → Bool → Bool
boolean_of [] ret = ret
boolean_of (c ∷ cs) ret =
    let l = tolower c in
    if l == b'1' || (l == b't' || l == b'y')
    then true
    else if l == b'0' || (l == b'f' || l == b'n')
    then false
    else ret

-- `String_ToBoolean`
unfoldable pub to_boolean : Option Bytes → Bool → Bool
unfolding boolean_of
to_boolean none default_value = default_value
to_boolean (some s) default_value = boolean_of (skip_spaces s) default_value

abbrev pub hash_mod : ℕ
hash_mod = 2 ^ 32

-- `hash * 33 xor c`, in 32 bits
abbrev pub hash_step : ℕ → ℕ → ℕ
hash_step hash c = bit_xor ((hash * 32 % hash_mod + hash) % hash_mod) c

pub hash_from : ℕ → Bytes → ℕ
hash_from hash [] = hash
hash_from hash (c ∷ cs) = hash_from (hash_step hash c) cs

-- `String_Hash`, the variant DJB2_XOR that is compiled.
unfoldable pub hash : Bytes → ℕ
unfolding hash_from
hash = hash_from 5381
