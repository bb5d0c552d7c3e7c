-- ===== src/PtrArray.antt =====
-- djmount/ptr_array.c: arrays of pointers that grow, on a 64-bit target. A pointer is a number, and 0 is NULL.
pub mod Contents
pub mod Growth
pub mod Insert
pub mod Remove
mod Tests
use djmount.Base.{
  ℕ, zero, suc, ◌+◌, ◌-◌, ◌*◌, ◌%◌, ◌^◌, Bool, true, false, not, ◌&&◌, ◌||◌, Option, none, some,
}
use djmount.Base.Tests.{ltb, leb, ◌==◌, if◌then◌else◌}
use djmount.Base.Int.{ℤ, pos, negsuc}

-- `size_t`
abbrev pub size_mod : ℕ
size_mod = 2 ^ 64

abbrev pub default_init_capacity : ℕ
default_init_capacity = 16

-- The memory of the array is a function from the index; `none` is NULL.
pub record PtrArray : Type 0 where
  pub array : Option (ℕ → ℕ)
  pub capacity : ℕ
  pub size : ℕ

-- The element at an index, which is inside the array wherever the code reads one.
abbrev pub cells : Option (ℕ → ℕ) → ℕ → ℕ
cells none k = 0
cells (some f) k = f k

-- `PtrArray_Create`
pub create : PtrArray
create = record { array = none; capacity = 0; size = 0 }

-- The new capacity: twice the old one or 16, and at least the size that is needed.
pub grown_capacity : ℕ → ℕ → ℕ
grown_capacity capacity size =
    let doubled = if ltb 0 capacity then capacity * 2 % size_mod else default_init_capacity in
    if ltb doubled size then size else doubled

-- Memory as `talloc_realloc` leaves it: the old cells, and any content in the others.
abbrev pub moved : (ℕ → ℕ) → Option (ℕ → ℕ) → ℕ → ℕ → ℕ
moved fresh array capacity k = if ltb k capacity then cells array k else fresh k

-- `self->_array [self->_size++] = element`
abbrev pub push : PtrArray → ℕ → PtrArray
push self element = record self {
  array = some (λ k. if k == self.size then element else cells self.array k);
  size = self.size + 1;
}

-- `memmove (array + to, array + from, n * sizeof (PtrArray_Element))`
abbrev pub memmove : ℕ → ℕ → ℕ → (ℕ → ℕ) → ℕ → ℕ
memmove to from n f k = if leb to k && ltb k (to + n) then f (from + (k - to)) else f k

-- What `PtrArray_InsertAt` does once there is room.
abbrev pub shift_up : PtrArray → ℕ → ℕ → PtrArray
shift_up self element i =
    let f = memmove (i + 1) i (self.size - i) (cells self.array) in
    record self { array = some (λ k. if k == i then element else f k); size = self.size + 1 }

-- The loop of `PtrArray_GetElementIndex`, from index i on with n elements left.
pub index_from : (ℕ → ℕ) → ℕ → ℕ → ℕ → ℤ
index_from f element i zero = negsuc 0
index_from f element i (suc n) =
    let rest = index_from f element (i + 1) n in if f i == element then pos i else rest

-- `PtrArray_GetElementIndex`
pub get_element_index : PtrArray → ℕ → ℤ
unfolding index_from
get_element_index self element = index_from (cells self.array) element 0 self.size

-- `PtrArray_RemoveAt`
pub remove_at : PtrArray → ℕ → ℕ × PtrArray
remove_at self i =
    let nb = self.size - i - 1 in
    let f = memmove i (i + 1) nb (cells self.array) in
    let shifted = if ltb 0 nb then some f else self.array in
    if leb self.size i
    then (0, self)
    else (cells self.array i, record self { array = shifted; size = self.size - 1 })

-- `PtrArray_RemoveAtReorder`
pub remove_at_reorder : PtrArray → ℕ → ℕ × PtrArray
remove_at_reorder self i =
    let f = cells self.array in
    if leb self.size i then (0, self) else (
      f i,
      record self {
        array = some (λ k. if k == i then f (self.size - 1) else f k);
        size = self.size - 1;
      },
    )

module _ (mem : ℕ → Bool) (fresh : ℕ → ℕ) where
  -- `PtrArray_ReserveExtraSize`, for an array that is not NULL. `mem n` tells whether talloc has room for n elements,
  -- and `fresh` is what new memory holds.
  pub reserve_extra_size : PtrArray → ℕ → Bool × PtrArray
  unfolding grown_capacity
  reserve_extra_size self extra_size =
      let size = (self.size + extra_size) % size_mod in
      let capacity = grown_capacity self.capacity size in
      if ltb self.capacity size
      then (if mem capacity
          then (
            true,
            record {
              array = some (moved fresh self.array self.capacity);
              capacity = capacity;
              size = self.size;
            },
          )
          else (false, record { array = none; capacity = 0; size = 0 }))
      else (true, self)

  -- `PtrArray_Append`
  pub append : PtrArray → ℕ → Bool × PtrArray
  unfolding reserve_extra_size
  append self element =
      let (ok, a) = reserve_extra_size self 1 in if ok then (true, push a element) else (false, a)

  -- `PtrArray_InsertAt`
  pub insert_at : PtrArray → ℕ → ℕ → Bool × PtrArray
  unfolding append
  insert_at self element i =
      let (ok, a) = reserve_extra_size self 1 in
      if leb self.size i
      then append self element
      else if not ok
      then (false, a)
      else (true, shift_up a element i)

  -- `PtrArray_CreateWithCapacity`
  pub create_with_capacity : ℕ → PtrArray
  unfolding create reserve_extra_size
  create_with_capacity capacity = (reserve_extra_size create capacity).1
