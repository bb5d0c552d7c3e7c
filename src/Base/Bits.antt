-- ===== src/Base/Bits.antt =====
-- Facts about `&` and `|` on small ranges, by evaluation at every value of the range.
use Prim.Native.Nat.{ℕ, zero, suc, ◌+◌, ◌*◌, ◌/◌, ◌%◌, ◌<◌, bit_and, bit_or}
use mathlib.Core.Path.{◌≡◌, refl}
use mathlib.Core.Bool.{Bool, true, ◌&&◌}
use native.Mathlib.Omega.{arith}
use djmount.Base.Tests.{◌==◌, ==_iff}

-- Whether a test holds at every number below the second argument.
unfoldable pub holds_up_to : (ℕ → Bool) → ℕ → Bool
holds_up_to test zero = true
holds_up_to test (suc k) = holds_up_to test k && test k

pub holds_up_to_at :
    (test : ℕ → Bool) (bound k : ℕ) → k < bound → holds_up_to test bound ≡ true → test k ≡ true
unfolding holds_up_to
holds_up_to_at test zero k below all = absurd (omega arith)
holds_up_to_at test (suc bound) k below all = ground (arith, holds_up_to_at test bound k)

all_pairs : ℕ → ℕ → (ℕ → ℕ → Bool) → Bool
unfolding holds_up_to
all_pairs m n p = holds_up_to (λ a. holds_up_to (p a) n) m

all_pairs_sound :
    (m n : ℕ) (p : ℕ → ℕ → Bool) (a b : ℕ) → all_pairs m n p ≡ true → a < m → b < n → p a b ≡ true
unfolding all_pairs
all_pairs_sound m n p a b h ha hb =
    holds_up_to_at (p a) n b hb (holds_up_to_at (λ x. holds_up_to (p x) n) m a ha h)

-- `(a << k) | b` is a sum where `b` fits `k` bits.
or_6_table : all_pairs 1024 64 (λ a b. bit_or (a * 64) b == a * 64 + b) ≡ true
unfolding all_pairs
or_6_table = refl

pub bit_or_low6 : (a b : ℕ) → a < 1024 → b < 64 → bit_or (a * 64) b ≡ a * 64 + b
bit_or_low6 a b ha hb = (==_iff _ _).0 (all_pairs_sound 1024 64 _ a b or_6_table ha hb)

or_12_table : all_pairs 16 64 (λ a b. bit_or (a * 4096) (b * 64) == a * 4096 + b * 64) ≡ true
unfolding all_pairs
or_12_table = refl

pub bit_or_mid6 : (a b : ℕ) → a < 16 → b < 64 → bit_or (a * 4096) (b * 64) ≡ a * 4096 + b * 64
bit_or_mid6 a b ha hb = (==_iff _ _).0 (all_pairs_sound 16 64 _ a b or_12_table ha hb)

and_6_table : all_pairs 1024 64 (λ a b. bit_and (a * 64 + b) 0x3f == b) ≡ true
unfolding all_pairs
and_6_table = refl

pub bit_and_low6 : (a : ℕ) → a < 65536 → bit_and a 0x3f ≡ a % 64
bit_and_low6 a h =
    let split : a ≡ a / 64 * 64 + a % 64 = omega arith in
    let at : bit_and (a / 64 * 64 + a % 64) 0x3f ≡ a % 64 =
      (==_iff _ _).0
        (all_pairs_sound 1024 64 _ (a / 64) (a % 64) and_6_table (omega arith) (omega arith)) in
    rw (← split) at at
