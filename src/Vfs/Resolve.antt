-- ===== src/Vfs/Resolve.antt =====
-- What the pieces of a browse function describe (djmount/vfs_p.h): each macro from what its parts describe.
use djmount.Base.{true, false, ◌||◌, ◌≡◌, refl, [], ◌∷◌, some, inl, inr, ℕ, arith}
use djmount.Base.Lists.{Bytes, bytes_eq}
use djmount.Base.Tests.{Bool-cases, if◌then◌else◌}
use djmount.Vfs.{
  Query, Found, Flow, goes_on, cleanup, DType, is_zero, is_empty, dir_begin, file_begin,
}
use djmount.Vfs.Macros.{
  Block, BrowseFunction, then_block, dir_block, file_block, dir_end, call_block, sub_block,
  browse_block,
}
use djmount.Vfs.Match.{IsName, Names, AreNames, spelled}
use djmount.Vfs.Tree.{
  Tree, end, dir, leaf, absent, at_dir, resolve, listed, outcome, IsAccepting, Cleans, Ends,
  Describes, has_entry, append,
}
use djmount.Vfs.Lookup.{
  at, is_zero_sound, is_empty-spelled, dir_block-listed, file_block-listed, dir_block-other,
  file_block-other, dir_block-deeper, dir_block-reached, file_block-deeper, file_block-reached,
}

resolve-absent :
    (t : Tree) (c : Bytes) (xs : Names) → has_entry t c ≡ false → resolve t c xs ≡ absent
unfolding has_entry resolve
resolve-absent end c xs h = refl
resolve-absent (dir name children rest) c [] h = ground (arith, resolve-absent rest c [])
resolve-absent (dir name children rest) c (x ∷ xs) h =
    ground (arith, resolve-absent rest c (x ∷ xs))
resolve-absent (leaf name d_type body rest) c [] h = ground (arith, resolve-absent rest c [])
resolve-absent (leaf name d_type body rest) c (x ∷ xs) h =
    ground (arith, resolve-absent rest c (x ∷ xs))

has_entry-append :
    (t u : Tree) (c : Bytes) → has_entry (append t u) c ≡ has_entry t c || has_entry u c
unfolding has_entry append
has_entry-append end u c = refl
has_entry-append (dir name children rest) u c = ground (arith, has_entry-append rest u c)
has_entry-append (leaf name d_type body rest) u c = ground (arith, has_entry-append rest u c)

resolve-append :
    (t u : Tree) (c : Bytes) (xs : Names)
    → resolve (append t u) c xs ≡ (if has_entry t c then resolve t c xs else resolve u c xs)
unfolding has_entry resolve append
resolve-append end u c xs = refl
resolve-append (dir name children rest) u c [] = ground (arith, resolve-append rest u c [])
resolve-append (dir name children rest) u c (x ∷ xs) =
    ground (arith, resolve-append rest u c (x ∷ xs))
resolve-append (leaf name d_type body rest) u c [] = ground (arith, resolve-append rest u c [])
resolve-append (leaf name d_type body rest) u c (x ∷ xs) =
    ground (arith, resolve-append rest u c (x ∷ xs))

listed-append :
    (q : Query) (t u : Tree) (found : Found)
    → listed q (append t u) found ≡ listed q u (listed q t found)
unfolding listed append
listed-append q end u found = refl
listed-append q (dir name children rest) u found = listed-append q rest u _
listed-append q (leaf name d_type body rest) u found = listed-append q rest u _

-- Nothing, for an empty directory.
pub goes_on-Describes : (q : Query) → Describes q goes_on end
unfolding listed has_entry
goes_on-Describes q = record {
  lists = λ found. refl;
  finds = λ c n xs found names. inl (refl, refl);
}

-- One piece after another, for the entries of both.
pub then_block-Describes :
    (q : Query) (a b : Block) (t u : Tree)
    → Describes q a t
    → Describes q b u
    → Describes q (then_block a b) (append t u)
unfolding then_block
then_block-Describes q a b t u da db = record {
  lists = λ found. rw (da.lists found, listed-append q t u found) (db.lists (listed q t found));
  finds = λ c n xs found names. elim (da.finds c n xs found names) [
    | inl (e, other) ↦
        rw (e, has_entry-append t u c, resolve-append t u c xs, other) (db.finds c n xs found names)
    | inr ((s, e, final, result), here) ↦
        rw (e, has_entry-append t u c, resolve-append t u c xs, here)
          (inr ((s, refl, final, result), refl))
  ];
}

-- A directory that the path names, at the end of the path and before it.
module _ (q : Query) where
  pub dir_end-reached :
      (body : Block) (children : Tree) (found : Found)
      → Describes q body children
      → Cleans q (at_dir children) found (
          if is_zero (dir_begin q found).0
          then dir_end (
              body (record { rc = (dir_begin q found).0; ptr = []; found = (dir_begin q found).1 }))
          else cleanup
              (record { rc = (dir_begin q found).0; ptr = []; found = (dir_begin q found).1 }))
  unfolding dir_end outcome
  dir_end-reached body children found d = elim (Bool-cases (is_zero (dir_begin q found).0)) [
    | inl z ↦
        rw (is_zero_sound (dir_begin q found).0 z, d.lists (dir_begin q found).1)
          (_, refl, inl refl, refl)
    | inr z ↦ rw z (_, refl, inl refl, refl)
  ]

  pub dir_end-deeper :
      (children : Tree) (c : Bytes) (n : ℕ) (xs : Names) (found : Found) (flow : Flow)
      → IsName c
      → Ends q children c n xs found flow
      → Cleans q (resolve children c xs) found (dir_end flow)
  unfolding dir_end outcome
  dir_end-deeper children c n xs found flow is_c (inl (e, other)) =
      rw (e, resolve-absent children c xs other, is_empty-spelled c n xs is_c)
        (_, refl, inr refl, refl)
  dir_end-deeper children c n xs found flow is_c (inr ((s, e, final, result), here)) =
      rw e (s, refl, final, result)

-- A directory whose body describes its entries.
module _ (q : Query) (accepting : IsAccepting q) (name : Bytes) (is_name : IsName name) where
  dir_block-Cleans :
      (body : Block) (children : Tree) (c : Bytes) (n : ℕ) (xs : Names) (found : Found)
      → Describes q body children
      → AreNames ((c, n) ∷ xs)
      → bytes_eq name c ≡ true
      → Cleans q
          (resolve (dir name children end) c xs)
          found
          (dir_block q (some name) false body (at (spelled ((c, n) ∷ xs)) found))
  unfolding resolve
  dir_block-Cleans body children c n [] found d names eq =
      rw (dir_block-reached q name is_name c eq n body found (names.0), eq)
        (dir_end-reached q body children found d)
  dir_block-Cleans body children c n (x ∷ xs) found d names eq =
      rw (dir_block-deeper q name is_name c eq n x xs body found names, eq)
        (dir_end-deeper q children (x.0) (x.1) xs found (body (at (spelled (x ∷ xs)) found))
          (names.1.0) (d.finds (x.0) (x.1) xs found (names.1)))

  -- For a callback that takes every entry, the directory macro around a body that describes some entries describes
  -- one directory with those entries: it is listed where the path has ended, and a path through it is
  -- looked up in the body.
  pub dir_block-Describes :
      (body : Block) (children : Tree)
      → Describes q body children
      → Describes q (dir_block q (some name) false body) (dir name children end)
  unfolding has_entry listed
  dir_block-Describes body children d = record {
    lists = λ found. dir_block-listed q accepting name is_name body found;
    finds = λ c n xs found names. elim (Bool-cases (bytes_eq name c)) [
      | inr ne ↦ inl (dir_block-other q name is_name c n xs names body found ne, rw ne)
      | inl eq ↦ inr (dir_block-Cleans body children c n xs found d names eq, rw eq)
    ];
  }

  file_block-Cleans :
      (d_type : DType) (body : Query → Found → Found) (c : Bytes) (n : ℕ) (xs : Names)
      (found : Found)
      → AreNames ((c, n) ∷ xs)
      → bytes_eq name c ≡ true
      → Cleans q
          (resolve (leaf name d_type body end) c xs)
          found
          (file_block q d_type (some name) body (at (spelled ((c, n) ∷ xs)) found))
  unfolding resolve outcome
  file_block-Cleans d_type body c n [] found names eq =
      elim (Bool-cases (is_zero (file_begin d_type q found).0)) [
        | inl z ↦
            rw
              (
                file_block-reached q name is_name c eq n d_type body found (names.0),
                eq,
                is_zero_sound (file_begin d_type q found).0 z,
              )
              (_, refl, inl refl, refl)
        | inr z ↦
            rw (file_block-reached q name is_name c eq n d_type body found (names.0), eq, z)
              (_, refl, inl refl, refl)
      ]
  file_block-Cleans d_type body c n (x ∷ xs) found names eq =
      rw (file_block-deeper q name is_name c eq n x xs d_type body found names, eq)
        (_, refl, inr refl, refl)

  pub file_block-Describes :
      (d_type : DType) (body : Query → Found → Found)
      → Describes q (file_block q d_type (some name) body) (leaf name d_type body end)
  unfolding has_entry listed
  file_block-Describes d_type body = record {
    lists = λ found. file_block-listed q accepting name is_name d_type body found;
    finds = λ c n xs found names. elim (Bool-cases (bytes_eq name c)) [
      | inr ne ↦ inl (file_block-other q name is_name c n xs names d_type body found ne, rw ne)
      | inl eq ↦ inr (file_block-Cleans d_type body c n xs found names eq, rw eq)
    ];
  }

-- A browse function called with `BROWSE_SUB`, for the entries that its own blocks describe.
pub call_block-Describes :
    (q : Query) (function : BrowseFunction) (body : Block) (t : Tree)
    → ((path : Bytes) (found : Found) → function q path found ≡ browse_block path body found)
    → Describes q body t
    → Describes q (call_block (some function) q) t
unfolding call_block sub_block browse_block
call_block-Describes q function body t same d = record {
  lists = λ found. rw (same [] found, d.lists found);
  finds = λ c n xs found names.
      let full = is_empty-spelled c n xs (names.0) in
      elim (d.finds c n xs found names) [
        | inl (e, other) ↦ inl (rw (same (spelled ((c, n) ∷ xs)) found, e, full) refl, other)
        | inr ((s, e, inl nil, result), here) ↦
            inr (
              (s, rw (same (spelled ((c, n) ∷ xs)) found, e, full, nil) refl, inl nil, result),
              here,
            )
        | inr ((s, e, inr error, result), here) ↦ elim (Bool-cases (is_empty s.ptr)) [
          | inl z ↦ inr (
            (s, rw (same (spelled ((c, n) ∷ xs)) found, e, full, z) refl, inr error, result),
            here,
          )
          | inr z ↦ inr (
            (s, rw (same (spelled ((c, n) ∷ xs)) found, e, full, z, error) refl, inr error, result),
            here,
          )
        ]
      ];
}
