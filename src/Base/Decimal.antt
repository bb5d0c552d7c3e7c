-- ===== src/Base/Decimal.antt =====
-- What `%d` prints for a number that is not negative.
use Prim.Native.Nat.{ℕ, zero, suc, ◌+◌, ◌-◌, ◌*◌, ◌/◌, ◌%◌, ◌<◌}
use mathlib.Core.Path.{◌≡◌, sym, ap, ◌∙◌}
use mathlib.Core.Logic.{inl, inr}
use mathlib.Core.List.{[], ◌∷◌, ◌++◌}
use native.Mathlib.Omega.{arith}
use djmount.Base.Lists.{Bytes}
use djmount.Base.Tests.{ltb, if◌then◌else◌, Bool-cases}

-- The digits of n, with fuel for them: a number below `suc n` has at most `suc n` digits.
unfoldable pub digits : ℕ → ℕ → Bytes
digits zero n = []
digits (suc f) n =
    let front = digits f (n / 10) in
    if ltb n 10 then (b'0' + n) ∷ [] else front ++ (b'0' + n % 10) ∷ []

unfoldable pub decimal : ℕ → Bytes
decimal n = digits (suc n) n

-- The number that digits spell.
abbrev value : ℕ → Bytes → ℕ
value k [] = k
value k (c ∷ cs) = value (k * 10 + (c - b'0')) cs

value-append :
    (k : ℕ) (xs : Bytes) (d : ℕ) → d < 10 → value k (xs ++ (b'0' + d) ∷ []) ≡ value k xs * 10 + d
value-append k [] d h = omega arith
value-append k (c ∷ xs) d h = value-append (k * 10 + (c - b'0')) xs d h

value-digits : (f n : ℕ) → n < f → value 0 (digits f n) ≡ n
unfolding digits
value-digits zero n h = absurd (omega arith)
value-digits (suc f) n h = elim (Bool-cases (ltb n 10)) [
  | inl small ↦ rw small (omega arith)
  | inr large ↦
      let front : value 0 (digits f (n / 10)) ≡ n / 10 = value-digits f (n / 10) (ground arith) in
      rw large (value-append 0 (digits f (n / 10)) (n % 10) (omega arith) ∙ omega (arith, front))
]

-- Two numbers are not printed alike.
pub decimal_injective : (m n : ℕ) → decimal m ≡ decimal n → m ≡ n
unfolding decimal
decimal_injective m n e =
    let left : value 0 (digits (suc m) m) ≡ m = value-digits (suc m) m (omega arith) in
    let right : value 0 (digits (suc n) n) ≡ n = value-digits (suc n) n (omega arith) in
    sym left ∙ ap (value 0) e ∙ right
