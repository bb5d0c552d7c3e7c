-- ===== src/PtrArray/Growth.antt =====
-- The room of an array and how it grows (djmount/ptr_array.c).
use djmount.Base.{
  ℕ, ◌+◌, ◌%◌, ◌^◌, ◌≤◌, ◌<◌, Bool, true, false, ◌≡◌, refl, none, ◌⊎◌, inl, inr, arith,
}
use djmount.Base.Tests.{ltb, Bool-cases}
use djmount.PtrArray.{PtrArray, cells, moved, grown_capacity, reserve_extra_size, size_mod}
use djmount.PtrArray.Contents.{contents, range, range-same}

-- The elements are inside the memory of the array, and the capacity is a `size_t`.
abbrev pub IsSound : PtrArray → Type 0
IsSound a = (a.size ≤ a.capacity) × (a.capacity < 2 ^ 64)

abbrev pub lost : PtrArray
lost = record { array = none; capacity = 0; size = 0 }

-- There is room for n elements more, and the elements are the old ones.
abbrev pub Holds : PtrArray → ℕ → PtrArray → Type 0
Holds a n b =
    (b.size ≡ a.size)
    × (a.size + n ≤ b.capacity)
    × (b.capacity < 2 ^ 64)
    × (contents b ≡ contents a)

grown_capacity-le :
    (capacity size : ℕ)
    → size < 2 ^ 64
    → (size ≤ grown_capacity capacity size) × (grown_capacity capacity size < 2 ^ 64)
unfolding grown_capacity
grown_capacity-le capacity size h = ground arith

-- For a sound array and a total that fits a `size_t`, making room for more elements keeps the elements, or it fails,
-- which happens only where an allocation is refused, and then leaves an empty array.
pub reserve_extra_size_lem :
    (mem : ℕ → Bool) (fresh : ℕ → ℕ) (a : PtrArray) (n : ℕ)
    → IsSound a
    → a.size + n < 2 ^ 64
    → (((reserve_extra_size mem fresh a n).0 ≡ true)
        × Holds a n (reserve_extra_size mem fresh a n).1)
      ⊎ ((reserve_extra_size mem fresh a n ≡ (false, lost)) × ((m : ℕ) × (mem m ≡ false)))
unfolding reserve_extra_size contents
reserve_extra_size_lem mem fresh a n sound fits =
    let size : (a.size + n) % size_mod ≡ a.size + n = omega arith in
    let grown = grown_capacity-le a.capacity (a.size + n) fits in
    elim (Bool-cases (ltb a.capacity (a.size + n))) [
      | inr e ↦ rw (size, e) (inl (refl, (refl, ground arith, sound.1, refl)))
      | inl e ↦ elim (Bool-cases (mem (grown_capacity a.capacity (a.size + n)))) [
        | inr no_room ↦ rw (size, e, no_room) (inr (refl, (_, no_room)))
        | inl room ↦ rw (size, e, room) (inl (refl, (refl, grown.0, grown.1, kept)))
      ]
    ]
  where
    kept : range (moved fresh a.array a.capacity) 0 a.size ≡ range (cells a.array) 0 a.size
    kept =
        range-same (moved fresh a.array a.capacity) (cells a.array) 0 0 a.size
          (λ k lt. ground arith)
