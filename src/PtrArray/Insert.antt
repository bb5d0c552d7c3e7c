-- ===== src/PtrArray/Insert.antt =====
-- Insertion into an array (djmount/ptr_array.c).
use djmount.Base.{
  ℕ, ◌+◌, ◌-◌, ◌^◌, ◌≤◌, ◌<◌, min, Bool, true, ◌≡◌, refl, List, [], ◌∷◌, ◌++◌, inl, inr, ap, ◌∙◌,
  sym, arith, append-nil,
}
use djmount.Base.Lists.{length}
use djmount.Base.Tests.{leb, Bool-cases}
use djmount.PtrArray.{PtrArray, cells, append, insert_at, reserve_extra_size, push, shift_up}
use djmount.PtrArray.Contents.{
  contents, range, range-same, range-split, range-around, length-range, length-contents,
}
use djmount.PtrArray.Growth.{IsSound, Holds, reserve_extra_size_lem}

contents-push : (a : PtrArray) (e : ℕ) → contents (push a e) ≡ contents a ++ e ∷ []
unfolding contents range
contents-push a e =
    let f = cells (push a e).array in
    let same : range f 0 a.size ≡ range (cells a.array) 0 a.size =
      range-same f (cells a.array) 0 0 a.size (λ k lt. ground arith) in
    let last : f (0 + a.size) ≡ e = ground arith in range-split f 0 a.size 1 ∙ rw (same, last)

contents-shift_up :
    (a : PtrArray) (e i : ℕ)
    → i < a.size
    → contents (shift_up a e i)
      ≡ range (cells a.array) 0 i ++ e ∷ range (cells a.array) i (a.size - i)
unfolding contents
contents-shift_up a e i h =
    let f = cells (shift_up a e i).array in
    let before : range f 0 i ≡ range (cells a.array) 0 i =
      range-same f (cells a.array) 0 0 i (λ k lt. ground arith) in
    let here : f i ≡ e = ground arith in
    let size : a.size + 1 - i - 1 ≡ a.size - i = omega arith in
    let shifted : (k : ℕ) → k < a.size - i → f (i + 1 + k) ≡ cells a.array (i + k) = λ k lt.
      let same : i + (i + 1 + k - (i + 1)) ≡ i + k = omega arith in
      ground (arith, ap (cells a.array) same) in
    let after : range f (i + 1) (a.size - i) ≡ range (cells a.array) i (a.size - i) =
      range-same f (cells a.array) (i + 1) i (a.size - i) shifted in
    range-around f i (a.size + 1) (omega arith) ∙ rw (before, here, size, after)

contents-split :
    (a : PtrArray) (i : ℕ)
    → i ≤ a.size
    → contents a ≡ range (cells a.array) 0 i ++ range (cells a.array) i (a.size - i)
unfolding contents
contents-split a i h =
    let e : a.size ≡ i + (a.size - i) = omega arith in
    let e' : 0 + i ≡ i = omega arith in
    ap (range (cells a.array) 0) e ∙ range-split (cells a.array) 0 i (a.size - i) ∙ rw e'

-- The array b is a with the element e at the index i, or at the end where a has no such index: the elements before it
-- and those after it are the ones of a, in their order.
abbrev pub IsInserted : PtrArray → ℕ → ℕ → PtrArray → Type 0
IsInserted a e i b =
    (xs : List ℕ) × (ys : List ℕ) × (contents a ≡ xs ++ ys)
    × (length xs ≡ min i a.size)
    × (contents b ≡ xs ++ e ∷ ys)
    × IsSound b

module _ (mem : ℕ → Bool) (fresh : ℕ → ℕ) (granted : (n : ℕ) → mem n ≡ true) (a : PtrArray)
    (sound : IsSound a) (fits : a.size + 1 < 2 ^ 64) where
  room :
      ((reserve_extra_size mem fresh a 1).0 ≡ true) × Holds a 1 (reserve_extra_size mem fresh a 1).1
  room = elim (reserve_extra_size_lem mem fresh a 1 sound fits) [
    | inl r ↦ r
    | inr (e, (m, refused)) ↦ let given = granted m in cc
  ]

  append_lem :
      (e i : ℕ)
      → a.size ≤ i
      → ((append mem fresh a e).0 ≡ true) × IsInserted a e i (append mem fresh a e).1
  unfolding append
  append_lem e i h =
      let (ok, (size, capacity, small, same)) = room in
      let b = (reserve_extra_size mem fresh a 1).1 in
      rw ok (
        refl,
        (
          contents a,
          [],
          sym (append-nil (contents a)),
          length-contents a ∙ omega arith,
          contents-push b e ∙ rw same,
          (omega arith, small),
        ),
      )

  -- Where talloc grants the memory, and the array is sound and one element more fits a `size_t`, `PtrArray_InsertAt`
  -- returns true and puts the element at the index, or at the end where the array has no such index; the
  -- others stay, in their order, and the array stays sound.
  pub insert_at_lem :
      (e i : ℕ)
      → ((insert_at mem fresh a e i).0 ≡ true) × IsInserted a e i (insert_at mem fresh a e i).1
  unfolding insert_at
  insert_at_lem e i =
      let (ok, (size, capacity, small, same)) = room in
      let b = (reserve_extra_size mem fresh a 1).1 in
      elim (Bool-cases (leb a.size i)) [
        | inl end ↦ rw end (append_lem e i (ground arith))
        | inr inside ↦
            rw (inside, ok)
              (
                refl,
                (
                  range (cells b.array) 0 i,
                  range (cells b.array) i (b.size - i),
                  sym same ∙ contents-split b i (ground arith),
                  length-range _ _ _ ∙ ground arith,
                  contents-shift_up b e i (ground arith),
                  (omega arith, small),
                ),
              )
      ]
