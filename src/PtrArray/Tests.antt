-- ===== src/PtrArray/Tests.antt =====
-- Examples for djmount/ptr_array.c: an array of three elements.
use djmount.Base.{
  ℕ, Bool, true, false, ◌≡◌, ◌≢◌, refl, List, [], ◌∷◌, ◌++◌, some, ◌⊎◌, arith, ◌+◌, ◌<◌, ◌≤◌,
}
use djmount.Base.Int.{pos, negsuc}
use djmount.Base.Lists.{length, All}
use djmount.PtrArray.{
  PtrArray, reserve_extra_size, insert_at, remove_at, remove_at_reorder, get_element_index,
}
use djmount.PtrArray.Contents.{contents}
use djmount.PtrArray.Growth.{Holds, lost, reserve_extra_size_lem}
use djmount.PtrArray.Insert.{IsInserted, insert_at_lem}
use djmount.PtrArray.Remove.{IsRemoved, remove_at_lem, remove_at_reorder_lem, get_element_index_lem}

abbrev three : PtrArray
three = record { array = some (λ k. k + 7); capacity = 3; size = 3 }

abbrev fresh : ℕ → ℕ
fresh k = 0

abbrev grants : ℕ → Bool
grants n = true

insert_at_lem_example :
    ((insert_at grants fresh three 1 1).0 ≡ true)
    × IsInserted three 1 1 (insert_at grants fresh three 1 1).1
insert_at_lem_example =
    insert_at_lem grants fresh (λ n. refl) three (omega arith, omega arith) (omega arith) 1 1

remove_at_lem_example :
    (1 < 3 → IsRemoved three 1 (remove_at three 1)) × (3 ≤ 1 → remove_at three 1 ≡ (0, three))
remove_at_lem_example = remove_at_lem three 1

remove_at_reorder_lem_test :
    (xs : List ℕ) × (ys : List ℕ) × (contents three ≡ xs ++ (remove_at_reorder three 0).0 ∷ ys)
    × (length xs ≡ 0)
    × (((ys ≡ []) × (contents (remove_at_reorder three 0).1 ≡ xs))
        ⊎ ((zs : List ℕ) × (l : ℕ) × (ys ≡ zs ++ l ∷ [])
            × (contents (remove_at_reorder three 0).1 ≡ xs ++ l ∷ zs)))
remove_at_reorder_lem_test = remove_at_reorder_lem three 0 (omega arith)

get_element_index_lem_test :
    ((get_element_index three 8 ≡ negsuc 0) × All (λ x. x ≢ 8) (contents three))
    ⊎ ((xs : List ℕ) × (ys : List ℕ) × (contents three ≡ xs ++ 8 ∷ ys)
        × (get_element_index three 8 ≡ pos (length xs))
        × All (λ x. x ≢ 8) xs)
get_element_index_lem_test = get_element_index_lem three 8

reserve_extra_size_lem_example :
    (((reserve_extra_size grants fresh three 2).0 ≡ true)
      × Holds three 2 (reserve_extra_size grants fresh three 2).1)
    ⊎ ((reserve_extra_size grants fresh three 2 ≡ (false, lost)) × ((m : ℕ) × (grants m ≡ false)))
reserve_extra_size_lem_example =
    reserve_extra_size_lem grants fresh three 2 (omega arith, omega arith) (omega arith)
