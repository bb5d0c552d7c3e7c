-- ===== src/PtrArray/Remove.antt =====
-- Removal from an array, and search (djmount/ptr_array.c).
use djmount.Base.{
  ℕ, zero, suc, ◌+◌, ◌-◌, ◌≤◌, ◌<◌, false, ◌≡◌, ◌≢◌, refl, List, [], ◌∷◌, ◌++◌, ◌⊎◌, inl, inr, ap,
  ◌∙◌, sym, arith, append-nil,
}
use djmount.Base.Lists.{length, All}
use djmount.Base.Int.{pos, negsuc}
use djmount.Base.Tests.{◌==◌, ==_iff, ltb, leb, if◌then◌else◌, Bool-cases}
use djmount.PtrArray.{
  PtrArray, cells, memmove, remove_at, remove_at_reorder, get_element_index, index_from,
}
use djmount.PtrArray.Contents.{contents, range, range-same, range-split, range-around, length-range}

-- The memory after the elements above i are shifted down.
contents-shift_down :
    (f : ℕ → ℕ) (i n : ℕ)
    → i < n
    → range (memmove i (i + 1) (n - i - 1) f) 0 (n - 1) ≡ range f 0 i ++ range f (i + 1) (n - i - 1)
contents-shift_down f i n h =
    let g = memmove i (i + 1) (n - i - 1) f in
    let before : range g 0 i ≡ range f 0 i = range-same g f 0 0 i (λ k lt. ground arith) in
    let shifted : (k : ℕ) → k < n - i - 1 → g (i + k) ≡ f (i + 1 + k) = λ k lt.
      let same : i + 1 + (i + k - i) ≡ i + 1 + k = omega arith in ground (arith, ap f same) in
    let after : range g i (n - i - 1) ≡ range f (i + 1) (n - i - 1) =
      range-same g f i (i + 1) (n - i - 1) shifted in
    let e : n - 1 ≡ i + (n - i - 1) = omega arith in
    let e' : 0 + i ≡ i = omega arith in
    ap (range g 0) e ∙ range-split g 0 i (n - i - 1) ∙ rw (before, e', after)

-- The elements at all other indices stay, in their order.
abbrev pub IsRemoved : PtrArray → ℕ → ℕ × PtrArray → Type 0
IsRemoved a i r =
    (xs : List ℕ) × (ys : List ℕ) × (contents a ≡ xs ++ r.0 ∷ ys)
    × (length xs ≡ i)
    × (contents (r.1) ≡ xs ++ ys)

remove_at-IsRemoved : (a : PtrArray) (i : ℕ) → i < a.size → IsRemoved a i (remove_at a i)
unfolding remove_at contents
remove_at-IsRemoved a i h =
    let f = cells a.array in
    let inside : leb a.size i ≡ false = ground arith in
    let whole = range-around f i a.size h in
    elim (Bool-cases (ltb 0 (a.size - i - 1))) [
      | inl e ↦
          rw (inside, e)
            (
              range f 0 i,
              range f (i + 1) (a.size - i - 1),
              whole,
              length-range f 0 i,
              contents-shift_down f i a.size h,
            )
      | inr e ↦
          let left : a.size - i - 1 ≡ 0 = ground arith in
          let size : a.size - 1 ≡ i = ground arith in
          rw (inside, e)
            (
              range f 0 i,
              [],
              whole ∙ ap (λ n. range f 0 i ++ f i ∷ range f (i + 1) n) left,
              length-range f 0 i,
              ap (range f 0) size ∙ sym (append-nil (range f 0 i)),
            )
    ]

-- `PtrArray_RemoveAt` returns the element at an index of the array and takes it out; the others stay, in their order.
-- At any other index it returns NULL and changes nothing.
pub remove_at_lem :
    (a : PtrArray) (i : ℕ)
    → (i < a.size → IsRemoved a i (remove_at a i)) × (a.size ≤ i → remove_at a i ≡ (0, a))
unfolding remove_at
remove_at_lem a i = ((λ h. remove_at-IsRemoved a i h), (λ h. ground arith))

-- The memory with the last element at the index i.
abbrev refilled : (ℕ → ℕ) → ℕ → ℕ → ℕ → ℕ
refilled f i size k = if k == i then f (size - 1) else f k

last_at :
    (f : ℕ → ℕ) (i n : ℕ)
    → i + 1 < n
    → range f (i + 1) (n - i - 1) ≡ range f (i + 1) (n - i - 2) ++ f (n - 1) ∷ []
unfolding range
last_at f i n h =
    let e : n - i - 1 ≡ n - i - 2 + 1 = omega arith in
    let e' : i + 1 + (n - i - 2) ≡ n - 1 = omega arith in
    ap (range f (i + 1)) e ∙ range-split f (i + 1) (n - i - 2) 1 ∙ rw e'

range-refilled :
    (f : ℕ → ℕ) (i n : ℕ)
    → i + 1 < n
    → range (refilled f i n) 0 (n - 1) ≡ range f 0 i ++ f (n - 1) ∷ range f (i + 1) (n - i - 2)
range-refilled f i n h =
    let before : range (refilled f i n) 0 i ≡ range f 0 i =
      range-same (refilled f i n) f 0 0 i (λ k lt. ground arith) in
    let here : refilled f i n i ≡ f (n - 1) = ground arith in
    let e : n - 1 - i - 1 ≡ n - i - 2 = omega arith in
    let after : range (refilled f i n) (i + 1) (n - i - 2) ≡ range f (i + 1) (n - i - 2) =
      range-same (refilled f i n) f (i + 1) (i + 1) (n - i - 2) (λ k lt. ground arith) in
    range-around (refilled f i n) i (n - 1) (omega arith) ∙ rw (before, here, e, after)

-- `PtrArray_RemoveAtReorder` returns the element at an index of the array and puts the last one in its place: no
-- other element is lost.
pub remove_at_reorder_lem :
    (a : PtrArray) (i : ℕ)
    → i < a.size
    → (xs : List ℕ) × (ys : List ℕ) × (contents a ≡ xs ++ (remove_at_reorder a i).0 ∷ ys)
      × (length xs ≡ i)
      × (((ys ≡ []) × (contents (remove_at_reorder a i).1 ≡ xs))
          ⊎ ((zs : List ℕ) × (l : ℕ) × (ys ≡ zs ++ l ∷ [])
              × (contents (remove_at_reorder a i).1 ≡ xs ++ l ∷ zs)))
unfolding remove_at_reorder contents range
remove_at_reorder_lem a i h =
    let f = cells a.array in
    let inside : leb a.size i ≡ false = ground arith in
    let whole = range-around f i a.size h in
    let before : range (refilled f i a.size) 0 i ≡ range f 0 i =
      range-same (refilled f i a.size) f 0 0 i (λ k lt. ground arith) in
    elim (Bool-cases (ltb 0 (a.size - i - 1))) [
      | inl e ↦ rw inside (
        range f 0 i,
        range f (i + 1) (a.size - i - 1),
        whole,
        length-range f 0 i,
        inr (
          range f (i + 1) (a.size - i - 2),
          f (a.size - 1),
          last_at f i a.size (ground arith),
          range-refilled f i a.size (ground arith),
        ),
      )
      | inr e ↦
          let left : a.size - i - 1 ≡ 0 = ground arith in
          let size : a.size - 1 ≡ i = ground arith in
          rw inside (
            range f 0 i,
            [],
            whole ∙ ap (λ n. range f 0 i ++ f i ∷ range f (i + 1) n) left,
            length-range f 0 i,
            inl (refl, ap (range (refilled f i a.size) 0) size ∙ before),
          )
    ]

index_from_lem :
    (f : ℕ → ℕ) (e i n : ℕ)
    → ((index_from f e i n ≡ negsuc 0) × All (λ x. x ≢ e) (range f i n))
      ⊎ ((k : ℕ) × (k < n)
          × (index_from f e i n ≡ pos (i + k))
          × (f (i + k) ≡ e)
          × All (λ x. x ≢ e) (range f i k))
unfolding index_from range
index_from_lem f e i zero = inl (refl, tt)
index_from_lem f e i (suc n) = elim (Bool-cases (f i == e)) [
  | inl same ↦
      let start : i + 0 ≡ i = omega arith in
      rw same (inr (0, omega arith, ap pos (sym start), rw start ((==_iff (f i) e).0 same), tt))
  | inr other ↦
      let differs : f i ≢ e = ground arith in
      elim (index_from_lem f e (i + 1) n) [
        | inl (none_left, all) ↦ rw other (inl (none_left, (differs, all)))
        | inr (k, lt, found, same, before) ↦
            let next : i + 1 + k ≡ i + suc k = omega arith in
            rw other (
              inr (
                suc k,
                omega arith,
                found ∙ ap pos next,
                ap f (sym next) ∙ same,
                (differs, before),
              ))
      ]
]

-- `PtrArray_GetElementIndex` gives the first index that holds the element, or -1 where none does.
pub get_element_index_lem :
    (a : PtrArray) (e : ℕ)
    → ((get_element_index a e ≡ negsuc 0) × All (λ x. x ≢ e) (contents a))
      ⊎ ((xs : List ℕ) × (ys : List ℕ) × (contents a ≡ xs ++ e ∷ ys)
          × (get_element_index a e ≡ pos (length xs))
          × All (λ x. x ≢ e) xs)
unfolding get_element_index contents
get_element_index_lem a e =
    let f = cells a.array in
    elim (index_from_lem f e 0 a.size) [
      | inl r ↦ inl r
      | inr (k, lt, found, same, before) ↦
          let start : 0 + k ≡ k = omega arith in
          let here : f k ≡ e = ap f (sym start) ∙ same in
          inr (
            range f 0 k,
            range f (k + 1) (a.size - k - 1),
            range-around f k a.size lt ∙ rw here,
            found ∙ ap pos (start ∙ sym (length-range f 0 k)),
            before,
          )
    ]
