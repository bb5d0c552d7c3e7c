-- ===== src/Charset.antt =====
-- djmount/charset_internal.c: the tables, their initialisation and the two converters.
-- A table in memory is a function from the index with its size beside it. `malloc` is taken to
-- succeed, as the code takes it.
pub mod Codepages
pub mod Bits
pub mod Utf8
pub mod Loops
pub mod Init
pub mod Table
pub mod RoundTrip
pub mod Tests
use Prim.Native.Nat.{bit_and, bit_or}
use djmount.Base.{
  ℕ, zero, suc, ◌+◌, ◌-◌, ◌*◌, ◌/◌, ◌%◌, Bool, true, false, ◌&&◌, List, [], ◌∷◌, ◌++◌, Option, none,
  some,
}
use djmount.Base.Lists.{Bytes, length, get_or, drop, bytes_eq}
use djmount.Base.Tests.{ltb, leb, ◌==◌, if◌then◌else◌}
use djmount.Base.Text.{codes, isalnum, tolower}
use Codepages.{Nls, nls_list}

-- <errno.h>
abbrev pub e2big : ℕ
e2big = 7

abbrev pub efault : ℕ
efault = 14

abbrev pub error_char_ucs : ℕ
error_char_ucs = 0xFFFD

abbrev pub error_char_ascii : ℕ
error_char_ascii = b'?'

-- The module's static variables. `none` is NULL.
pub record Tables : Type 0 where
  pub c2u : Option (ℕ → ℕ)
  pub u2c : Option (ℕ → ℕ)
  pub u2c_size : ℕ

abbrev pub no_tables : Tables
no_tables = record { c2u = none; u2c = none; u2c_size = 0 }

-- `a[i] = v`
abbrev pub write : (ℕ → ℕ) → ℕ → ℕ → ℕ → ℕ
write a i v k = if k == i then v else a k

-- The charset's name in lower case, without what is no letter or digit.
unfoldable pub simple_name : Bytes → Bytes
simple_name [] = []
simple_name (c ∷ cs) = if isalnum c then tolower c ∷ simple_name cs else simple_name cs

-- The largest code point of a table, from `m` on.
pub max_code : ℕ → List ℕ → ℕ
max_code m [] = m
max_code m (s ∷ ss) = max_code (if ltb m s then s else m) ss

-- `for (j=0; j<128; j++)`, with `n` rounds left.
pub fill_low : ℕ → ℕ → (ℕ → ℕ) × (ℕ → ℕ) → (ℕ → ℕ) × (ℕ → ℕ)
fill_low zero j (c, u) = (c, u)
fill_low (suc n) j (c, u) = fill_low n (j + 1) (write c j j, write u j j)

-- `for (j=128; j<256; j++)` over the entries of the charset's table.
pub fill_high : List ℕ → ℕ → (ℕ → ℕ) × (ℕ → ℕ) → (ℕ → ℕ) × (ℕ → ℕ)
fill_high [] j (c, u) = (c, u)
fill_high (s ∷ ss) j (c, u) =
    fill_high ss (j + 1)
      (if s == 0 then (write c j error_char_ucs, u) else (write c j s, write u s j))

-- 128 times 0x0, which the code reads where the charset has no table.
pub zeros : ℕ → List ℕ
zeros zero = []
zeros (suc n) = 0 ∷ zeros n

abbrev pub entries : Nls → List ℕ
entries nls = elim (nls.c2u) [ none ↦ zeros 128 | some t ↦ t ]

-- `malloc` leaves the first table with any content, and `memset` fills the second.
pub build : (ℕ → ℕ) → Nls → Tables
unfolding max_code fill_low fill_high zeros
build fresh nls =
    let size : ℕ = elim (nls.c2u) [ none ↦ 127 | some t ↦ max_code 127 t ] in
    let (c, u) = fill_high (entries nls) 128 (fill_low 128 0 (fresh, λ _. error_char_ascii)) in
    record { c2u = some c; u2c = some u; u2c_size = size + 1 }

pub find_nls : Bytes → List Nls → Option Nls
find_nls name [] = none
find_nls name (nls ∷ rest) = if bytes_eq name nls.name then some nls else find_nls name rest

-- `init_charset`: 1 if the charset is known, with the new tables; the old ones are freed.
pub init_charset : (ℕ → ℕ) → Bytes → ℕ × Tables
unfolding simple_name find_nls build
init_charset fresh name =
    if bytes_eq (simple_name name) (codes "utf8")
    then (1, no_tables)
    else elim (find_nls (simple_name name) nls_list) [
      | none ↦ (0, no_tables)
      | some nls ↦ (1, build fresh nls)
    ]

-- What a converter leaves: the unread input, the bytes written, the room left in the output.
pub record Conv : Type 0 where
  pub rest : Bytes
  pub out : Bytes
  pub left : ℕ

abbrev pub stop : Bytes → ℕ → Conv
stop src left = record { rest = src; out = []; left = left }

abbrev pub emit : Bytes → Conv → Conv
emit bs r = record r { out = bs ++ r.out }

-- `no_conv`: a plain copy.
pub no_conv : Bytes → ℕ → Conv
no_conv [] left = stop [] left
no_conv (c ∷ cs) zero = stop (c ∷ cs) zero
no_conv (c ∷ cs) (suc left) = emit (c ∷ []) (no_conv cs left)

-- The cases of the `switch` fall through: each writes one byte and goes on with the higher bits.
pub put1 : ℕ → Bytes
put1 s = (s % 256) ∷ []

pub put2 : ℕ → Bytes
unfolding put1
put2 s = put1 (bit_or (s / 64) 0xc0) ++ (bit_or 0x80 (bit_and s 0x3f) % 256) ∷ []

pub put3 : ℕ → Bytes
unfolding put2
put3 s = put2 (bit_or (s / 64) 0x800) ++ (bit_or 0x80 (bit_and s 0x3f) % 256) ∷ []

abbrev pub utf_count : ℕ → ℕ
utf_count s = if leb s 0x7f then 1 else if leb s 0x7ff then 2 else 3

pub put : ℕ → Bytes
unfolding put1 put2 put3
put s = if leb s 0x7f then put1 s else if leb s 0x7ff then put2 s else put3 s

-- The loop of `ascii2utf`.
pub ascii2utf_loop : (ℕ → ℕ) → Bytes → ℕ → Conv
unfolding put
ascii2utf_loop c2u [] left = stop [] left
ascii2utf_loop c2u (c ∷ cs) left =
    if ltb 0 left && leb (utf_count (c2u c)) left
    then emit (put (c2u c)) (ascii2utf_loop c2u cs (left - utf_count (c2u c)))
    else stop (c ∷ cs) left

-- `(src[i] & 0xc0) == 0x80`
abbrev pub is_cont : ℕ → Bool
is_cont c = bit_and c 0xc0 == 0x80

pub record Decoded : Type 0 where
  pub s : ℕ
  pub s_ok : Bool
  pub count : ℕ

-- One character of the input, which is not empty.
pub decode : Bytes → Decoded
decode src =
    let c = get_or src 0 0 in
    if leb c 0x7f
    then record { s = c; s_ok = true; count = 1 }
    else if leb 0xc0 c && (leb c 0xdf && (ltb 1 (length src) && is_cont (get_or src 1 0)))
    then (let s = bit_or (bit_and c 0x1f * 64) (bit_and (get_or src 1 0) 0x3f) in
        record { s = s; s_ok = ltb 0x7f s; count = 2 })
    else if leb 0xe0 c
        && (leb c 0xef
            && (ltb 2 (length src) && (is_cont (get_or src 1 0) && is_cont (get_or src 2 0))))
    then (let s =
          bit_or (bit_or (bit_and c 0x0f * 4096) (bit_and (get_or src 1 0) 0x3f * 64))
            (bit_and (get_or src 2 0) 0x3f) in
        record { s = s; s_ok = ltb 0x7ff s; count = 3 })
    else record { s = 0; s_ok = false; count = 1 }

pub skip_cont : Bytes → Bytes
skip_cont [] = []
skip_cont (c ∷ cs) = if is_cont c then skip_cont cs else c ∷ cs

-- The loop of `utf2ascii`, on fuel.
pub utf2ascii_loop : ℕ → (ℕ → ℕ) → ℕ → Bytes → ℕ → Conv
unfolding decode skip_cont
utf2ascii_loop size u2c fuel [] left = stop [] left
utf2ascii_loop size u2c zero (c ∷ cs) left = stop (c ∷ cs) left
utf2ascii_loop size u2c (suc fuel) (c ∷ cs) left =
    let d = decode (c ∷ cs) in
    let known = d.s_ok && ltb d.s size in
    let after = drop d.count (c ∷ cs) in
    let more = utf2ascii_loop size u2c fuel (if known then after else skip_cont after) (left - 1) in
    if ltb 0 left
    then emit ((if known then u2c d.s else error_char_ascii) ∷ []) more
    else stop (c ∷ cs) left

-- The last line of both converters.
abbrev pub finish : Conv → ℕ × Conv
finish r = (if length r.rest == 0 then 0 else e2big, r)

-- `ascii2utf`: the input pointer with its bytes left, and the output pointer with its room, `none`
-- for NULL. On EFAULT nothing is read or written.
unfoldable pub ascii2utf : Tables → Option Bytes → Option ℕ → ℕ × Conv
unfolding no_conv ascii2utf_loop
ascii2utf t none outbuf = (efault, stop [] 0)
ascii2utf t (some src) none = (efault, stop src 0)
ascii2utf t (some src) (some left) = elim (t.c2u) [
  | none ↦ (0, no_conv src left)
  | some c2u ↦ finish (ascii2utf_loop c2u src left)
]

unfoldable pub utf2ascii : Tables → Option Bytes → Option ℕ → ℕ × Conv
unfolding no_conv utf2ascii_loop
utf2ascii t none outbuf = (efault, stop [] 0)
utf2ascii t (some src) none = (efault, stop src 0)
utf2ascii t (some src) (some left) = elim (t.u2c) [
  | none ↦ (0, no_conv src left)
  | some u2c ↦ finish (utf2ascii_loop t.u2c_size u2c (length src) src left)
]

-- The loops of the two size functions.
unfoldable pub ascii2utf_room : Bytes → ℕ
ascii2utf_room [] = 0
ascii2utf_room (c ∷ cs) = (if leb c 0x7f then 1 else 3) + ascii2utf_room cs

unfoldable pub ascii2utf_size : Tables → Option Bytes → ℕ
unfolding ascii2utf_room
ascii2utf_size t none = 0
ascii2utf_size t (some src) = elim (t.c2u) [
  | none ↦ length src + 1
  | some _ ↦ ascii2utf_room src + 1
]

unfoldable pub utf2ascii_room : Bytes → ℕ
utf2ascii_room [] = 0
utf2ascii_room (c ∷ cs) = (if is_cont c then 0 else 1) + utf2ascii_room cs

unfoldable pub utf2ascii_size : Tables → Option Bytes → ℕ
unfolding utf2ascii_room
utf2ascii_size t none = 0
utf2ascii_size t (some src) = elim (t.u2c) [
  | none ↦ length src + 1
  | some _ ↦ utf2ascii_room src + 1
]
