-- ===== src/PtrArray/Contents.antt =====
-- The elements of an array as a list (djmount/ptr_array.c).
use djmount.Base.{ℕ, zero, suc, ◌+◌, ◌-◌, ◌<◌, ◌≡◌, refl, List, [], ◌∷◌, ◌++◌, ap, ◌∙◌, arith}
use djmount.Base.Lists.{length}
use djmount.PtrArray.{PtrArray, cells}

-- The values at n indices from i on.
unfoldable pub range : (ℕ → ℕ) → ℕ → ℕ → List ℕ
range f i zero = []
range f i (suc n) = f i ∷ range f (i + 1) n

-- The elements of an array, in their order.
unfoldable pub contents : PtrArray → List ℕ
unfolding range
contents a = range (cells a.array) 0 a.size

pub length-range : (f : ℕ → ℕ) (i n : ℕ) → length (range f i n) ≡ n
unfolding range
length-range f i zero = refl
length-range f i (suc n) = rw (length-range f (i + 1) n)

pub range-split : (f : ℕ → ℕ) (i m n : ℕ) → range f i (m + n) ≡ range f i m ++ range f (i + m) n
unfolding range
range-split f i zero n =
    let e : 0 + n ≡ n = omega arith in let e' : i + 0 ≡ i = omega arith in rw (e, e')
range-split f i (suc m) n =
    let e : suc m + n ≡ suc (m + n) = omega arith in
    let e' : i + suc m ≡ i + 1 + m = omega arith in
    rw (e, e') (ap (λ r. f i ∷ r) (range-split f (i + 1) m n))

-- Equal values give equal ranges, at another start too.
pub range-same :
    (f g : ℕ → ℕ) (i j n : ℕ)
    → ((k : ℕ) → k < n → f (i + k) ≡ g (j + k))
    → range f i n ≡ range g j n
unfolding range
range-same f g i j zero h = refl
range-same f g i j (suc n) h =
    let here : f i ≡ g j =
      (let e : i + 0 ≡ i = omega arith in
        let e' : j + 0 ≡ j = omega arith in
        let at : f (i + 0) ≡ g (j + 0) = h 0 (omega arith) in rw (e, e') at at) in
    let next : (k : ℕ) → k < n → f (i + 1 + k) ≡ g (j + 1 + k) = λ k lt.
      let e : i + suc k ≡ i + 1 + k = omega arith in
      let e' : j + suc k ≡ j + 1 + k = omega arith in
      let at : f (i + suc k) ≡ g (j + suc k) = h (suc k) (omega arith) in rw (e, e') at at in
    rw (here, range-same f g (i + 1) (j + 1) n next)

-- A range around the index i.
pub range-around :
    (f : ℕ → ℕ) (i n : ℕ) → i < n → range f 0 n ≡ range f 0 i ++ f i ∷ range f (i + 1) (n - i - 1)
unfolding range
range-around f i n h =
    let e : n ≡ i + suc (n - i - 1) = omega arith in
    let e' : 0 + i ≡ i = omega arith in
    ap (range f 0) e ∙ range-split f 0 i (suc (n - i - 1)) ∙ rw e'

pub length-contents : (a : PtrArray) → length (contents a) ≡ a.size
unfolding contents range
length-contents a = length-range (cells a.array) 0 a.size
