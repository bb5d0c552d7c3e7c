-- ===== src/Base/Distinct.antt =====
-- Lists whose elements differ, and the pigeonhole principle.
use Prim.Native.Nat.{ℕ, zero, suc, ◌≤◌, ◌<◌}
use mathlib.Core.Path.{◌≡◌, refl, sym, ap, ◌∙◌}
use mathlib.Core.Logic.{◌≢◌}
use mathlib.Core.List.{List, [], ◌∷◌, ◌++◌, Memᴰ}
use mathlib.Core.List.Memᴰ.{head, tail}
use native.Mathlib.Omega.{arith}
use djmount.Base.Lists.{length, All, All-append}

module _ {ℓ} {A : Type ℓ} where
  abbrev pub Distinct : List A → Type ℓ
  Distinct [] = Unit
  Distinct (x ∷ xs) = All (λ y. y ≢ x) xs × Distinct xs

  pub Distinct-end :
      (xs : List A) (x : A) → Distinct xs → All (λ y. y ≢ x) xs → Distinct (xs ++ x ∷ [])
  Distinct-end [] x d h = (tt, tt)
  Distinct-end (z ∷ xs) x d h =
      (All-append _ xs (x ∷ []) d.0 ((λ e. h.0 (sym e)), tt), Distinct-end xs x d.1 h.1)

  Memᴰ-map :
      {y z : A} {xs ys : List A} → (Memᴰ y xs → Memᴰ y ys) → Memᴰ y (z ∷ xs) → Memᴰ y (z ∷ ys)
  Memᴰ-map f (head same) = head same
  Memᴰ-map f (tail m) = tail (f m)

  -- One occurrence less.
  remove_one :
      (x : A) (xs : List A)
      → Memᴰ x xs
      → (rest : List A) × (length xs ≡ suc (length rest))
        × ((y : A) → y ≢ x → Memᴰ y xs → Memᴰ y rest)
  remove_one x [] m = elim m [ ]
  remove_one x (z ∷ xs) (head e) = (xs, refl, keep)
    where
      keep : (y : A) → y ≢ x → Memᴰ y (z ∷ xs) → Memᴰ y xs
      keep y ne (head same) = absurd (ne (same ∙ sym e))
      keep y ne (tail m) = m
  remove_one x (z ∷ xs) (tail m) =
      let (rest, len, keep) = remove_one x xs m in
      (z ∷ rest, ap suc len, λ y ne. Memᴰ-map (keep y ne))

  -- A list that has m different elements has a length of m at least.
  pub pigeonhole :
      (f : ℕ → A) (m : ℕ) (xs : List A)
      → ((i j : ℕ) → i < m → j < m → f i ≡ f j → i ≡ j)
      → ((k : ℕ) → k < m → Memᴰ (f k) xs)
      → m ≤ length xs
  pigeonhole f zero xs inj h = omega arith
  pigeonhole f (suc m) xs inj h =
      let (rest, len, keep) = remove_one (f m) xs (h m (omega arith)) in
      let differs : (k : ℕ) → k < m → f k ≢ f m =
        λ k lt e. let same = inj k m (omega arith) (omega arith) e in omega arith in
      let shorter =
        pigeonhole f m rest (λ i j hi hj. inj i j (omega arith) (omega arith))
          (λ k lt. keep (f k) (differs k lt) (h k (omega arith))) in
      omega arith

module _ {ℓ κ} {A : Type ℓ} (P : A → Type κ) where
  pub All-at : (xs : List A) (x : A) → All P xs → Memᴰ x xs → P x
  All-at [] x h m = elim m [ ]
  All-at (y ∷ ys) x h (head e) = rw e h.0
  All-at (y ∷ ys) x h (tail m) = All-at ys x h.1 m

  pub All-drop : (xs : List A) (x : A) (ys : List A) → All P (xs ++ x ∷ ys) → All P (xs ++ ys)
  All-drop [] x ys h = h.1
  All-drop (z ∷ xs) x ys h = (h.0, All-drop xs x ys h.1)

pub Distinct-drop {ℓ} :
    {A : Type ℓ} (xs : List A) (x : A) (ys : List A) → Distinct (xs ++ x ∷ ys) → Distinct (xs ++ ys)
Distinct-drop [] x ys h = h.1
Distinct-drop (z ∷ xs) x ys h = (All-drop (λ y. y ≢ z) xs x ys h.0, Distinct-drop xs x ys h.1)
