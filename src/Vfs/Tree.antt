-- ===== src/Vfs/Tree.antt =====
-- A browse function of directories and files that are nested (djmount/vfs_p.h), and what a path names in it.
use djmount.Base.{ℕ, Bool, true, false, ◌≡◌, List, [], ◌∷◌, ◌||◌, some, ◌⊎◌}
use djmount.Base.Lists.{Bytes, bytes_eq}
use djmount.Base.Int.{ℤ, pos, neg}
use djmount.Base.Tests.{if◌then◌else◌}
use djmount.Vfs.{
  Query, Found, Status, Flow, goes_on, cleanup, DType, dt_dir, Entry, is_zero, dir_add_entry,
  dir_begin, file_begin, enoent, enotdir,
}
use djmount.Vfs.Macros.{Block}
use djmount.Vfs.Match.{Names, AreNames, spelled}

-- The directories and files of a directory, in the order in which the code has them: the first, and the rest.
-- A file has the code that sets its results.
pub data Tree : Type 0 where
  end : Tree
  dir : Bytes → Tree → Tree → Tree
  leaf : Bytes → DType → (Query → Found → Found) → Tree → Tree

-- What a path can name. `past_leaf` is a path that goes on after a file.
pub data Answer : Type 0 where
  absent past_leaf : Answer
  at_dir : Tree → Answer
  at_leaf : DType → (Query → Found → Found) → Answer

-- The first directory or file with the path's first name decides. The numbers of slashes play no part.
unfoldable pub resolve : Tree → Bytes → Names → Answer
resolve end c xs = absent
resolve (dir name children rest) c [] =
    if bytes_eq name c then at_dir children else resolve rest c []
resolve (dir name children rest) c (x ∷ xs) =
    let deeper = resolve children (x.0) xs in
    if bytes_eq name c then deeper else resolve rest c (x ∷ xs)
resolve (leaf name d_type body rest) c [] =
    if bytes_eq name c then at_leaf d_type body else resolve rest c []
resolve (leaf name d_type body rest) c (x ∷ xs) =
    if bytes_eq name c then past_leaf else resolve rest c (x ∷ xs)

-- The entries of a directory.
unfoldable pub entries : Tree → List Entry
entries end = []
entries (dir name children rest) = (name, dt_dir) ∷ entries rest
entries (leaf name d_type body rest) = (name, d_type) ∷ entries rest

-- Whether an entry has the name.
unfoldable pub has_entry : Tree → Bytes → Bool
has_entry end c = false
has_entry (dir name children rest) c = bytes_eq name c || has_entry rest c
has_entry (leaf name d_type body rest) c = bytes_eq name c || has_entry rest c

-- One directory's entries after another's.
unfoldable pub append : Tree → Tree → Tree
append end u = u
append (dir name children rest) u = dir name children (append rest u)
append (leaf name d_type body rest) u = leaf name d_type body (append rest u)

-- A directory's entries are added one after another.
unfoldable pub listed : Query → Tree → Found → Found
listed q end found = found
listed q (dir name children rest) found = listed q rest (dir_add_entry q name dt_dir found).1
listed q (leaf name d_type body rest) found = listed q rest (dir_add_entry q name d_type found).1

-- The result for what the path names.
unfoldable pub outcome : Query → Answer → Found → ℤ × Found
unfolding listed
outcome q absent found = (neg enoent, found)
outcome q past_leaf found = (neg enotdir, found)
outcome q (at_dir children) found =
    let (rc, begun) = dir_begin q found in
    if is_zero rc then (pos 0, listed q children begun) else (rc, begun)
outcome q (at_leaf d_type body) found =
    let (rc, begun) = file_begin d_type q found in
    if is_zero rc then (pos 0, body q begun) else (rc, begun)

-- The callback takes every entry.
abbrev pub IsAccepting : Query → Type 0
IsAccepting q =
    (f : List Entry → Entry → ℤ)
    → q.filler ≡ some f
    → (es : List Entry) (e : Entry) → f es e ≡ pos 0

-- A status at the label `cleanup` has used up the path, or it is an error.
abbrev pub IsFinal : Status → Type 0
IsFinal s = (s.ptr ≡ []) ⊎ (is_zero s.rc ≡ false)

-- A browse function jumps to the label, with the result for what the path names.
abbrev pub Cleans : Query → Answer → Found → Flow → Type 0
Cleans q answer found flow =
    (s : Status) × (flow ≡ cleanup s) × IsFinal s × ((s.rc, s.found) ≡ outcome q answer found)

-- How a browse function ends on a path that is not at its end: past all of it where no entry has the path's first
-- name, else at the label.
abbrev pub Ends : Query → Tree → Bytes → ℕ → Names → Found → Flow → Type 0
Ends q t c n xs found flow =
    ((flow ≡ goes_on (record { rc = pos 0; ptr = spelled ((c, n) ∷ xs); found = found }))
      × (has_entry t c ≡ false))
    ⊎ (Cleans q (resolve t c xs) found flow × (has_entry t c ≡ true))

-- A piece of a browse function describes a tree: it lists it at the end of a path, and it finds in it what the
-- path names otherwise.
pub record Describes (q : Query) (block : Block) (t : Tree) : Type 0 where
  pub lists :
      (found : Found)
      → block (record { rc = pos 0; ptr = []; found = found })
        ≡ goes_on (record { rc = pos 0; ptr = []; found = listed q t found })
  pub finds :
      (c : Bytes) (n : ℕ) (xs : Names) (found : Found)
      → AreNames ((c, n) ∷ xs)
      → Ends q t c n xs found
          (block (record { rc = pos 0; ptr = spelled ((c, n) ∷ xs); found = found }))
