-- ===== src/Charset/Utf8.antt =====
-- djmount/charset_internal.c: the decoder of `utf2ascii` reads back what `ascii2utf` writes, and
-- both agree with the definition of UTF-8 by arithmetic.
use Prim.Native.Nat.{bit_and, bit_or}
use djmount.Base.{
  ℕ, ◌+◌, ◌-◌, ◌*◌, ◌/◌, ◌%◌, ◌≤◌, ◌<◌, true, ◌&&◌, ◌≡◌, refl, [], ◌∷◌, ◌++◌, arith, ◌⊎◌, inl, inr,
}
use djmount.Base.Bits.{holds_up_to, holds_up_to_at, bit_and_low6, bit_or_low6, bit_or_mid6}
use djmount.Base.Lists.{Bytes, length, drop, take, All}
use djmount.Base.Tests.{leb, ltb, if◌then◌else◌}
use djmount.Charset.Bits.{
  and_1f_lem, and_0f_lem, put_one, put_two, put_three, decode_one, decode_two, decode_three,
}
use djmount.Charset.{put, utf_count, decode, is_cont}

-- UTF-8 of a code point below 2 ^ 16, as RFC 3629 tabulates it.
abbrev pub utf8 : ℕ → Bytes
utf8 s =
    if leb s 0x7f
    then s ∷ []
    else if leb s 0x7ff
    then (0xc0 + s / 64) ∷ (0x80 + s % 64) ∷ []
    else (0xe0 + s / 4096) ∷ (0x80 + s / 64 % 64) ∷ (0x80 + s % 64) ∷ []

-- The `switch` with its fall through writes the UTF-8 of every 16-bit code point.
pub put-utf8 : (s : ℕ) → s < 65536 → put s ≡ utf8 s
put-utf8 s h = ground (arith, put_one s, put_two s, put_three s)

pub length-put : (s : ℕ) → s < 65536 → length (put s) ≡ utf_count s
length-put s h = rw (put-utf8 s h) (ground arith)

-- Sizes of the three forms.
Form : ℕ → Type 0
Form s = (s ≤ 0x7f) ⊎ ((0x7f < s) × (s ≤ 0x7ff)) ⊎ (0x7ff < s)

form : (s : ℕ) → Form s
unfolding Form
form s = ground arith

pub decode-put :
    (s : ℕ) (rest : Bytes)
    → s < 65536
    → decode (put s ++ rest) ≡ record { s = s; s_ok = true; count = utf_count s }
unfolding Form
decode-put s rest h = elim (form s) [
  | inl a ↦ rw (put_one s a) (ground (arith, decode_one s rest a))
  | inr (inl (a, b)) ↦ rw (put_two s a b) (ground (arith, decode_two (s / 64) (s % 64) rest))
  | inr (inr a) ↦
      rw (put_three s a h) (ground (arith, decode_three (s / 4096) (s / 64 % 64) (s % 64) rest))
]

pub drop-put : (s : ℕ) (rest : Bytes) → s < 65536 → drop (utf_count s) (put s ++ rest) ≡ rest
drop-put s rest h = rw (put-utf8 s h) (ground arith)

is_cont_range : (d : ℕ) → d < 256 → is_cont d ≡ true → (0x80 ≤ d) × (d < 0xc0)
unfolding holds_up_to
is_cont_range d h e =
    let table : (if is_cont d then leb 0x80 d && ltb d 0xc0 else true) ≡ true =
      holds_up_to_at (λ d. if is_cont d then leb 0x80 d && ltb d 0xc0 else true) 256 d h refl in
    ground arith

-- The masks, on bytes in the range that the tests before them leave.
mask_1f : (c : ℕ) → 0xc0 ≤ c → c ≤ 0xdf → bit_and c 0x1f ≡ c - 0xc0
mask_1f c lo hi =
    let e : 0xc0 + (c - 0xc0) ≡ c = omega arith in rw e at (and_1f_lem (c - 0xc0) (omega arith))

mask_0f : (c : ℕ) → 0xe0 ≤ c → c ≤ 0xef → bit_and c 0x0f ≡ c - 0xe0
mask_0f c lo hi =
    let e : 0xe0 + (c - 0xe0) ≡ c = omega arith in rw e at (and_0f_lem (c - 0xe0) (omega arith))

mask_3f : (c : ℕ) → c < 65536 → bit_and c 0x3f ≡ c % 64
mask_3f = bit_and_low6

two_value :
    (c d : ℕ)
    → 0xc0 ≤ c
    → c ≤ 0xdf
    → d < 256
    → is_cont d ≡ true
    → (bit_or (bit_and c 0x1f * 64) (bit_and d 0x3f) ≡ (c - 0xc0) * 64 + (d - 0x80))
      × (0x80 ≤ d)
      × (d < 0xc0)
two_value c d lo hi hd e =
    let (l, u) = is_cont_range d hd e in
    (
      rw
          (
            mask_1f c lo hi,
            mask_3f d (omega arith),
            bit_or_low6 (c - 0xc0) (d % 64) (omega arith) (omega arith),
          )
          (omega arith),
      l,
      u,
    )

three_value :
    (c d f : ℕ)
    → 0xe0 ≤ c
    → c ≤ 0xef
    → d < 256
    → is_cont d ≡ true
    → f < 256
    → is_cont f ≡ true
    → (bit_or (bit_or (bit_and c 0x0f * 4096) (bit_and d 0x3f * 64)) (bit_and f 0x3f)
        ≡ (c - 0xe0) * 4096 + (d - 0x80) * 64 + (f - 0x80))
      × ((0x80 ≤ d) × (d < 0xc0))
      × ((0x80 ≤ f) × (f < 0xc0))
three_value c d f lo hi hd ed hf ef =
    let (l, u) = is_cont_range d hd ed in
    let (l', u') = is_cont_range f hf ef in
    let inner : (c - 0xe0) * 4096 + d % 64 * 64 ≡ ((c - 0xe0) * 64 + d % 64) * 64 = omega arith in
    (
      rw
          (
            mask_0f c lo hi,
            mask_3f d (omega arith),
            mask_3f f (omega arith),
            bit_or_mid6 (c - 0xe0) (d % 64) (omega arith) (omega arith),
            inner,
            bit_or_low6 ((c - 0xe0) * 64 + d % 64) (f % 64) (omega arith) (omega arith),
          )
          (omega arith),
      (l, u),
      (l', u'),
    )

-- Of a text of bytes, the decoder accepts nothing but the UTF-8 of the code point that it returns,
-- which is below 65536: no overlong form.
pub decode_sound :
    (c : ℕ) (cs : Bytes)
    → All (λ b. b < 256) (c ∷ cs)
    → (decode (c ∷ cs)).s_ok ≡ true
    → ((decode (c ∷ cs)).s < 65536)
      × (take (decode (c ∷ cs)).count (c ∷ cs) ≡ utf8 (decode (c ∷ cs)).s)
unfolding decode
decode_sound c [] hs e = ground arith
decode_sound c (d ∷ []) hs e = ground (arith, two_value c d)
decode_sound c (d ∷ (f ∷ fs)) hs e = ground (arith, two_value c d, three_value c d f)
