-- ===== src/Vfs/Lookup.antt =====
-- What one block of a browse function does, at the end of the path and at a name (djmount/vfs_p.h).
use djmount.Base.{ℕ, true, false, ◌≡◌, refl, [], ◌∷◌, some, ap, inl, inr}
use djmount.Base.Lists.{Bytes, bytes_eq}
use djmount.Base.Int.{ℤ, pos, negsuc, neg}
use djmount.Base.Tests.{==_iff, Bool-cases, Option-cases, if◌then◌else◌}
use djmount.Vfs.{
  Query, Found, Status, goes_on, cleanup, DType, dt_dir, Entry, is_zero, is_empty, dir_add_entry,
  dir_begin, file_begin, enotdir, fill,
}
use djmount.Vfs.Macros.{Block, dir_block, file_block, dir_end}
use djmount.Vfs.Match.{IsName, Names, AreNames, spelled, match_start_of_path-spelled}
use djmount.Vfs.Tree.{IsAccepting}

pub is_zero_sound : (z : ℤ) → is_zero z ≡ true → z ≡ pos 0
is_zero_sound (pos n) h = ap pos ((==_iff n 0).0 h)
is_zero_sound (negsuc n) h = cc

pub is_empty-spelled :
    (c : Bytes) (n : ℕ) (xs : Names) → IsName c → is_empty (spelled ((c, n) ∷ xs)) ≡ false
unfolding spelled
is_empty-spelled [] n xs h = absurd (h.0 refl)
is_empty-spelled (b ∷ bs) n [] h = refl
is_empty-spelled (b ∷ bs) n (x ∷ xs) h = refl

pub spelled-nil : spelled [] ≡ []
unfolding spelled
spelled-nil = refl

name_full : (name : Bytes) → IsName name → is_empty name ≡ false
name_full [] h = absurd (h.0 refl)
name_full (c ∷ cs) h = refl

fill-IsAccepting :
    (q : Query) (e : Entry) (found : Found) → IsAccepting q → (fill q e found).0 ≡ pos 0
unfolding fill
fill-IsAccepting q e found h = elim (Option-cases q.filler) [
  | inl k ↦ rw (k) refl
  | inr f ↦ rw (f.1) (h (f.0) (f.1) found.calls e)
]

dir_add_entry-IsAccepting :
    (q : Query) (name : Bytes) (d_type : DType) (found : Found)
    → IsAccepting q
    → (dir_add_entry q name d_type found).0 ≡ pos 0
unfolding dir_add_entry
dir_add_entry-IsAccepting q name d_type found h = fill-IsAccepting q _ _ h

abbrev pub at : Bytes → Found → Status
at ptr found = record { rc = pos 0; ptr = ptr; found = found }

module _ (q : Query) (accepting : IsAccepting q) (name : Bytes) (is_name : IsName name) where
  pub dir_block-listed :
      (body : Block) (found : Found)
      → dir_block q (some name) false body (at [] found)
        ≡ goes_on (at [] (dir_add_entry q name dt_dir found).1)
  unfolding dir_block
  dir_block-listed body found =
      rw (name_full name is_name, dir_add_entry-IsAccepting q name dt_dir found accepting)

  pub file_block-listed :
      (d_type : DType) (body : Query → Found → Found) (found : Found)
      → file_block q d_type (some name) body (at [] found)
        ≡ goes_on (at [] (dir_add_entry q name d_type found).1)
  unfolding file_block
  file_block-listed d_type body found =
      rw (name_full name is_name, dir_add_entry-IsAccepting q name d_type found accepting)

-- A directory or file of another name is passed over.
module _ (q : Query) (name : Bytes) (is_name : IsName name) (c : Bytes) (n : ℕ) (xs : Names)
    (names : AreNames ((c, n) ∷ xs)) where
  abbrev path : Bytes
  path = spelled ((c, n) ∷ xs)

  pub dir_block-other :
      (body : Block) (found : Found)
      → bytes_eq name c ≡ false
      → dir_block q (some name) false body (at path found) ≡ goes_on (at path found)
  unfolding dir_block
  dir_block-other body found ne =
      let m = match_start_of_path-spelled name c n xs is_name names in
      rw (name_full name is_name, is_empty-spelled c n xs (names.0), m, ne)

  pub file_block-other :
      (d_type : DType) (body : Query → Found → Found) (found : Found)
      → bytes_eq name c ≡ false
      → file_block q d_type (some name) body (at path found) ≡ goes_on (at path found)
  unfolding file_block
  file_block-other d_type body found ne =
      let m = match_start_of_path-spelled name c n xs is_name names in
      rw (name_full name is_name, is_empty-spelled c n xs (names.0), m, ne)

-- The first name is that of a directory or of a file.
module _ (q : Query) (name : Bytes) (is_name : IsName name) (c : Bytes)
    (same : bytes_eq name c ≡ true) where
  pub dir_block-deeper :
      (n : ℕ) (x : Bytes × ℕ) (xs : Names) (body : Block) (found : Found)
      → AreNames ((c, n) ∷ (x ∷ xs))
      → dir_block q (some name) false body (at (spelled ((c, n) ∷ (x ∷ xs))) found)
        ≡ dir_end (body (at (spelled (x ∷ xs)) found))
  unfolding dir_block
  dir_block-deeper n x xs body found names =
      let m = match_start_of_path-spelled name c n (x ∷ xs) is_name names in
      let some_left = is_empty-spelled (x.0) (x.1) xs (names.1.0) in
      rw (name_full name is_name, is_empty-spelled c n (x ∷ xs) (names.0), m, same, some_left)

  pub dir_block-reached :
      (n : ℕ) (body : Block) (found : Found)
      → IsName c
      → dir_block q (some name) false body (at (spelled ((c, n) ∷ [])) found) ≡ (
          if is_zero (dir_begin q found).0
          then dir_end (
              body (record { rc = (dir_begin q found).0; ptr = []; found = (dir_begin q found).1 }))
          else cleanup
              (record { rc = (dir_begin q found).0; ptr = []; found = (dir_begin q found).1 }))
  unfolding dir_block
  dir_block-reached n body found is_c =
      let m = match_start_of_path-spelled name c n [] is_name (is_c, tt) in
      let nothing : spelled [] ≡ [] = spelled-nil in
      rw (name_full name is_name, is_empty-spelled c n [] is_c, m, same, nothing)

  pub file_block-deeper :
      (n : ℕ) (x : Bytes × ℕ) (xs : Names) (d_type : DType) (body : Query → Found → Found)
      (found : Found)
      → AreNames ((c, n) ∷ (x ∷ xs))
      → file_block q d_type (some name) body (at (spelled ((c, n) ∷ (x ∷ xs))) found)
        ≡ cleanup (record { rc = neg enotdir; ptr = spelled (x ∷ xs); found = found })
  unfolding file_block
  file_block-deeper n x xs d_type body found names =
      let m = match_start_of_path-spelled name c n (x ∷ xs) is_name names in
      let some_left = is_empty-spelled (x.0) (x.1) xs (names.1.0) in
      rw (name_full name is_name, is_empty-spelled c n (x ∷ xs) (names.0), m, same, some_left)

  pub file_block-reached :
      (n : ℕ) (d_type : DType) (body : Query → Found → Found) (found : Found)
      → IsName c
      → file_block q d_type (some name) body (at (spelled ((c, n) ∷ [])) found)
        ≡ cleanup (
            if is_zero (file_begin d_type q found).0
            then record {
              rc = (file_begin d_type q found).0;
              ptr = [];
              found = body q (file_begin d_type q found).1;
            }
            else record {
              rc = (file_begin d_type q found).0;
              ptr = [];
              found = (file_begin d_type q found).1;
            })
  unfolding file_block
  file_block-reached n d_type body found is_c =
      let m = match_start_of_path-spelled name c n [] is_name (is_c, tt) in
      let nothing : spelled [] ≡ [] = spelled-nil in
      elim (Bool-cases (is_zero (file_begin d_type q found).0)) [
        | inl z ↦ rw (name_full name is_name, is_empty-spelled c n [] is_c, m, same, nothing, z)
        | inr z ↦ rw (name_full name is_name, is_empty-spelled c n [] is_c, m, same, nothing, z)
      ]
