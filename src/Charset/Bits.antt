-- ===== src/Charset/Bits.antt =====
-- The masks and shifts of djmount/charset_internal.c as arithmetic.
use Prim.Native.Nat.{bit_and, bit_or}
use djmount.Base.{ℕ, ◌+◌, ◌*◌, ◌/◌, ◌%◌, ◌≤◌, ◌<◌, true, ◌≡◌, refl, [], ◌∷◌, arith}
use djmount.Base.Tests.{◌==◌, ==_iff}
use djmount.Base.Bits.{holds_up_to, holds_up_to_at, bit_and_low6, bit_or_low6, bit_or_mid6}
use djmount.Base.Lists.{Bytes}
use djmount.Charset.{put, put2, put3, decode}

module _ (x : ℕ) where
  or_80_lem : x < 64 → bit_or 0x80 x ≡ 0x80 + x
  unfolding holds_up_to
  or_80_lem h = (==_iff _ _).0 (holds_up_to_at (λ x. bit_or 0x80 x == 0x80 + x) 64 x h refl)

  or_c0_lem : x < 64 → bit_or x 0xc0 ≡ 0xc0 + x
  unfolding holds_up_to
  or_c0_lem h = (==_iff _ _).0 (holds_up_to_at (λ x. bit_or x 0xc0 == 0xc0 + x) 64 x h refl)

  or_800_lem : x < 1024 → bit_or x 0x800 ≡ 0x800 + x
  unfolding holds_up_to
  or_800_lem h = (==_iff _ _).0 (holds_up_to_at (λ x. bit_or x 0x800 == 0x800 + x) 1024 x h refl)

  pub and_1f_lem : x < 32 → bit_and (0xc0 + x) 0x1f ≡ x
  unfolding holds_up_to
  and_1f_lem h = (==_iff _ _).0 (holds_up_to_at (λ x. bit_and (0xc0 + x) 0x1f == x) 32 x h refl)

  pub and_0f_lem : x < 16 → bit_and (0xe0 + x) 0x0f ≡ x
  unfolding holds_up_to
  and_0f_lem h = (==_iff _ _).0 (holds_up_to_at (λ x. bit_and (0xe0 + x) 0x0f == x) 16 x h refl)

  pub and_3f_lem : x < 64 → bit_and (0x80 + x) 0x3f ≡ x
  unfolding holds_up_to
  and_3f_lem h = (==_iff _ _).0 (holds_up_to_at (λ x. bit_and (0x80 + x) 0x3f == x) 64 x h refl)

  and_c0_lem : x < 64 → bit_and (0x80 + x) 0xc0 ≡ 0x80
  unfolding holds_up_to
  and_c0_lem h = (==_iff _ _).0 (holds_up_to_at (λ x. bit_and (0x80 + x) 0xc0 == 0x80) 64 x h refl)

low_byte : (s : ℕ) → s < 65536 → bit_or 0x80 (bit_and s 0x3f) % 256 ≡ 0x80 + s % 64
low_byte s h = rw (bit_and_low6 s h, or_80_lem (s % 64) (omega arith)) (omega arith)

put2_lem : (s : ℕ) → s < 0x1000 → put2 s ≡ (0xc0 + s / 64) ∷ (0x80 + s % 64) ∷ []
unfolding put2
put2_lem s h = ground (arith, low_byte s (omega arith), or_c0_lem (s / 64) (omega arith))

high : (s : ℕ) → s < 65536 → put2 (0x800 + s / 64) ≡ (0xe0 + s / 4096) ∷ (0x80 + s / 64 % 64) ∷ []
high s h = ground (arith, put2_lem (0x800 + s / 64) (omega arith))

-- What the converter writes for one character, by its number of bytes.
module _ (s : ℕ) where
  pub put_one : s ≤ 0x7f → put s ≡ s ∷ []
  unfolding put
  put_one h = ground arith

  pub put_two : 0x7f < s → s ≤ 0x7ff → put s ≡ (0xc0 + s / 64) ∷ (0x80 + s % 64) ∷ []
  unfolding put
  put_two lo hi = ground (arith, put2_lem s (omega arith))

  pub put_three :
      0x7ff < s
      → s < 65536
      → put s ≡ (0xe0 + s / 4096) ∷ (0x80 + s / 64 % 64) ∷ (0x80 + s % 64) ∷ []
  unfolding put put3
  put_three lo hi = ground (arith, or_800_lem (s / 64) (omega arith), low_byte s hi, high s hi)

-- What the converter reads from the bytes of one character.
pub decode_one :
    (s : ℕ) (rest : Bytes) → s ≤ 0x7f → decode (s ∷ rest) ≡ record { s = s; s_ok = true; count = 1 }
unfolding decode
decode_one s rest h = ground arith

pub decode_two :
    (a b : ℕ) (rest : Bytes)
    → 1 < a
    → a < 32
    → b < 64
    → decode ((0xc0 + a) ∷ (0x80 + b) ∷ rest) ≡ record { s = a * 64 + b; s_ok = true; count = 2 }
unfolding decode
decode_two a b rest lo ha hb =
    ground
      (arith, and_c0_lem b hb, and_1f_lem a ha, and_3f_lem b hb, bit_or_low6 a b (omega arith) hb)

pub decode_three :
    (a b c : ℕ) (rest : Bytes)
    → a < 16
    → b < 64
    → c < 64
    → 0x7ff < a * 4096 + b * 64 + c
    → decode ((0xe0 + a) ∷ (0x80 + b) ∷ (0x80 + c) ∷ rest)
      ≡ record { s = a * 4096 + b * 64 + c; s_ok = true; count = 3 }
unfolding decode
decode_three a b c rest ha hb hc lo = ground (
  arith,
  and_c0_lem b hb,
  and_c0_lem c hc,
  and_0f_lem a ha,
  and_3f_lem b hb,
  and_3f_lem c hc,
  bit_or_mid6 a b ha hb,
  bit_or_low6 (a * 64 + b) c (omega arith) hc,
)
