-- ===== src/Vfs/Listing.antt =====
-- Listing a directory with `VFS_Browse`, and looking up what was listed (djmount/vfs.c).
use djmount.Base.{
  Bool, ◌≡◌, ◌≢◌, refl, List, [], ◌∷◌, ◌++◌, some, none, ap, ◌∙◌, sym, inl, inr, ℕ, append_assoc,
  append-nil,
}
use djmount.Base.Lists.{Bytes, All, All-mono, bytes_eq, bytes_eq_refl}
use djmount.Base.Int.{ℤ, pos}
use djmount.Base.Tests.{Bool-cases, if◌then◌else◌}
use djmount.Base.Text.{codes}
use djmount.Vfs.{
  Query, Found, Entry, DType, dt_dir, dt_reg, dt_lnk, fill, dir_begin, dir_add_entry, set_time,
}
use djmount.Vfs.Macros.{Block, BrowseFunction, browse_block, DebugTexts, vfs_browse}
use djmount.Vfs.Match.{Names, AreNames}
use djmount.Vfs.Tree.{
  Tree, end, dir, leaf, Answer, absent, past_leaf, at_dir, at_leaf, resolve, entries, listed,
  outcome, IsAccepting, Describes,
}
use djmount.Vfs.Root.{vfs_of, root_tree, absolute, answer, finished, vfs_browse-outcome}

add-calls :
    (q : Query) (f : List Entry → Entry → ℤ) (name : Bytes) (d_type : DType) (found : Found)
    → q.filler ≡ some f
    → (dir_add_entry q name d_type found).1.calls ≡ found.calls ++ (name, d_type) ∷ []
unfolding dir_add_entry fill
add-calls q f name dt_dir found e = rw e
add-calls q f name dt_reg found e = rw e
add-calls q f name dt_lnk found e = rw e

listed-calls :
    (q : Query) (f : List Entry → Entry → ℤ) (t : Tree) (found : Found)
    → q.filler ≡ some f
    → (listed q t found).calls ≡ found.calls ++ entries t
unfolding listed entries
listed-calls q f end found e = sym (append-nil found.calls)
listed-calls q f (dir name children rest) found e =
    listed-calls q f rest (dir_add_entry q name dt_dir found).1 e
    ∙ rw (add-calls q f name dt_dir found e)
        (append_assoc found.calls ((name, dt_dir) ∷ []) (entries rest))
listed-calls q f (leaf name d_type body rest) found e =
    listed-calls q f rest (dir_add_entry q name d_type found).1 e
    ∙ rw (add-calls q f name d_type found e)
        (append_assoc found.calls ((name, d_type) ∷ []) (entries rest))

dir_begin-calls :
    (q : Query) (f : List Entry → Entry → ℤ) (found : Found)
    → q.filler ≡ some f
    → q.lnk_bufsiz ≡ none
    → IsAccepting q
    → ((dir_begin q found).0 ≡ pos 0)
      × ((dir_begin q found).1.calls
          ≡ found.calls ++ (codes ".", dt_dir) ∷ ((codes "..", dt_dir) ∷ []))
unfolding dir_begin fill set_time
dir_begin-calls q f found e no_link h =
    rw
      (
        e,
        no_link,
        h f e found.calls (codes ".", dt_dir),
        h f e (found.calls ++ (codes ".", dt_dir) ∷ []) (codes "..", dt_dir),
      )
      (refl, append_assoc found.calls ((codes ".", dt_dir) ∷ []) ((codes "..", dt_dir) ∷ []))

outcome-at_dir :
    (q : Query) (f : List Entry → Entry → ℤ) (t : Tree) (found : Found)
    → q.filler ≡ some f
    → q.lnk_bufsiz ≡ none
    → IsAccepting q
    → ((outcome q (at_dir t) found).0 ≡ pos 0)
      × ((outcome q (at_dir t) found).1.calls
          ≡ found.calls ++ (codes ".", dt_dir) ∷ ((codes "..", dt_dir) ∷ entries t))
unfolding outcome
outcome-at_dir q f t found e no_link h =
    let (ok, dots) = dir_begin-calls q f found e no_link h in
    rw (ok, listed-calls q f t (dir_begin q found).1 e, dots)
      (
        refl,
        append_assoc found.calls ((codes ".", dt_dir) ∷ ((codes "..", dt_dir) ∷ [])) (entries t),
      )

later :
    (name : Bytes) (rest : Tree) (a : Answer) (e : Entry)
    → a ≢ absent
    → resolve rest (e.0) [] ≢ absent
    → (if bytes_eq name (e.0) then a else resolve rest (e.0) []) ≢ absent
later name rest a e ha h = elim (Bool-cases (bytes_eq name (e.0))) [
  | inl z ↦ rw z ha
  | inr z ↦ rw z h
]

-- Every entry of a directory has an answer there.
entries-resolve : (t : Tree) → All (λ e. resolve t (e.0) [] ≢ absent) (entries t)
unfolding entries resolve
entries-resolve end = tt
entries-resolve (dir name children rest) = (
  rw (bytes_eq_refl name) (λ e. cc),
  All-mono _ (λ e h. later name rest (at_dir children) e (λ k. cc) h) (entries rest)
      (entries-resolve rest),
)
entries-resolve (leaf name d_type body rest) = (
  rw (bytes_eq_refl name) (λ e. cc),
  All-mono _ (λ e h. later name rest (at_leaf d_type body) e (λ k. cc) h) (entries rest)
      (entries-resolve rest),
)

abbrev tree_of : Answer → Tree
tree_of absent = end
tree_of past_leaf = end
tree_of (at_dir t) = t
tree_of (at_leaf d_type body) = end

resolve-deeper :
    (t children : Tree) (c : Bytes) (xs : Names) (d : Bytes) (n : ℕ)
    → resolve t c xs ≡ at_dir children
    → resolve t c (xs ++ (d, n) ∷ []) ≡ resolve children d []
unfolding resolve
resolve-deeper end children c xs d n e = cc
resolve-deeper (dir name ch rest) children c [] d n e = elim (Bool-cases (bytes_eq name c)) [
  | inl z ↦ rw z (ap (λ t. resolve (tree_of t) d []) (rw z at e))
  | inr z ↦ rw z (resolve-deeper rest children c [] d n (rw z at e))
]
resolve-deeper (dir name ch rest) children c (x ∷ xs) d n e = elim (Bool-cases (bytes_eq name c)) [
  | inl z ↦ rw z (resolve-deeper ch children (x.0) xs d n (rw z at e))
  | inr z ↦ rw z (resolve-deeper rest children c (x ∷ xs) d n (rw z at e))
]
resolve-deeper (leaf name d_type body rest) children c [] d n e =
    elim (Bool-cases (bytes_eq name c)) [
      | inl z ↦ let bad = rw z at e in cc
      | inr z ↦ rw z (resolve-deeper rest children c [] d n (rw z at e))
    ]
resolve-deeper (leaf name d_type body rest) children c (x ∷ xs) d n e =
    elim (Bool-cases (bytes_eq name c)) [
      | inl z ↦ let bad = rw z at e in cc
      | inr z ↦ rw z (resolve-deeper rest children c (x ∷ xs) d n (rw z at e))
    ]

answer-deeper :
    (t children : Tree) (names : Names) (d : Bytes) (n : ℕ)
    → answer t names ≡ at_dir children
    → answer t (names ++ (d, n) ∷ []) ≡ resolve children d []
unfolding answer
answer-deeper t children [] d n e = ap (λ a. resolve (tree_of a) d []) e
answer-deeper t children (x ∷ xs) d n e = resolve-deeper t children (x.0) xs d n e

-- Listing a directory of the file system with a callback that takes every entry: there is no error, and the calls of
-- the callback are the two dots and then each entry that the code has there, in its order, with its
-- type. Each of these entries can then be looked up: the path with its name added names a file or a
-- directory.
pub vfs_browse-entries :
    (q : Query) (accepting : IsAccepting q) (root : BrowseFunction) (body : Block) (t : Tree)
    (written : (path : Bytes) (found : Found) → root q path found ≡ browse_block path body found)
    (describes : Describes q body t) (texts : DebugTexts) (shown : Bool) (k : ℕ) (names : Names)
    (found : Found) (f : List Entry → Entry → ℤ) (children : Tree)
    → AreNames names
    → q.filler ≡ some f
    → q.lnk_bufsiz ≡ none
    → answer (root_tree t texts shown) names ≡ at_dir children
    → ((vfs_browse (vfs_of root texts shown) (some q) (some (absolute k names)) found).0 ≡ pos 0)
      × ((vfs_browse (vfs_of root texts shown) (some q) (some (absolute k names)) found).1.calls
          ≡ found.calls ++ (codes ".", dt_dir) ∷ ((codes "..", dt_dir) ∷ entries children))
      × All
          (λ e. answer (root_tree t texts shown) (names ++ (e.0, 0) ∷ []) ≢ absent)
          (entries children)
unfolding finished
vfs_browse-entries q accepting root body t written describes texts shown k names found f children h
      e no_link here =
    let result =
      vfs_browse-outcome q accepting root body t written describes texts shown k names found h in
    let (ok, calls) = outcome-at_dir q f children found e no_link accepting in
    rw (result, here, ok)
      (
        refl,
        calls,
        All-mono _
            (λ x hx. rw (answer-deeper (root_tree t texts shown) children names (x.0) 0 here) hx)
            (entries children) (entries-resolve children),
      )
