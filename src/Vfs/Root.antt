-- ===== src/Vfs/Root.antt =====
-- `VFS_Browse` of djmount/vfs.c: the file system that a root browse function and the debug directory make up.
use djmount.Base.{
  Bool, true, false, not, ◌&&◌, ◌≡◌, refl, [], ◌∷◌, ◌++◌, some, ap, ◌∙◌, inl, inr, ℕ, Option, ◌+◌,
  ◌/◌,
}
use djmount.Base.Lists.{Bytes}
use djmount.Base.Int.{ℤ, pos, neg}
use djmount.Base.Tests.{Bool-cases, if◌then◌else◌}
use djmount.Base.Text.{codes}
use djmount.Vfs.{
  Query, Found, Status, goes_on, dt_reg, is_zero, is_empty, enoent, change_stat,
  match_start_of_path, skip_slashes, file_set_string,
}
use djmount.Vfs.Macros.{
  Block, BrowseFunction, then_block, dir_block, text_block, call_block, browse_block, browse_debug,
  DebugTexts, Vfs, root_block, vfs_browse,
}
use djmount.Vfs.Match.{
  Names, AreNames, spelled, slashes, has_no_slash, cons-IsName, skip_slashes_append,
  skip_slashes-spelled,
}
use djmount.Vfs.Tree.{
  Tree, end, dir, leaf, Answer, at_dir, resolve, outcome, IsAccepting, IsFinal, Cleans, Describes,
  append,
}
use djmount.Vfs.Lookup.{is_empty-spelled, spelled-nil}
use djmount.Vfs.Resolve.{
  goes_on-Describes, then_block-Describes, dir_block-Describes, file_block-Describes,
  call_block-Describes, dir_end-reached, dir_end-deeper,
}

text_leaf : Bytes → Option Bytes → Tree
text_leaf name text = leaf name dt_reg (file_set_string text) end

-- The files of the debug directory.
unfoldable pub debug_tree : DebugTexts → Tree
unfolding append text_leaf
debug_tree texts = append (text_leaf (codes "uname") texts.uname) (
    append (text_leaf (codes "talloc_total") texts.talloc_total) (
      append (text_leaf (codes "talloc_report") texts.talloc_report)
        (text_leaf (codes "talloc_report_full") texts.talloc_report_full)))

-- The root directory: the entries of the root function, then the debug directory if it is shown.
unfoldable pub root_tree : Tree → DebugTexts → Bool → Tree
unfolding append debug_tree
root_tree t texts true = append t (dir (codes ".debug") (debug_tree texts) end)
root_tree t texts false = append t end

-- The file system object with a root function and with the debug function of the code.
unfoldable pub vfs_of : BrowseFunction → DebugTexts → Bool → Vfs
vfs_of root texts shown = record {
  browse_root = some root;
  browse_debug = some (browse_debug texts);
  show_debug_dir = shown;
}

browse_debug-Describes :
    (texts : DebugTexts) (q : Query)
    → IsAccepting q
    → Describes q (call_block (some (browse_debug texts)) q) (debug_tree texts)
unfolding has_no_slash debug_tree browse_debug text_block text_leaf
browse_debug-Describes texts q h =
    let uname =
      file_block-Describes q h (codes "uname") (cons-IsName _ _ refl) dt_reg
        (file_set_string texts.uname) in
    let total =
      file_block-Describes q h (codes "talloc_total") (cons-IsName _ _ refl) dt_reg
        (file_set_string texts.talloc_total) in
    let report =
      file_block-Describes q h (codes "talloc_report") (cons-IsName _ _ refl) dt_reg
        (file_set_string texts.talloc_report) in
    let report_full =
      file_block-Describes q h (codes "talloc_report_full") (cons-IsName _ _ refl) dt_reg
        (file_set_string texts.talloc_report_full) in
    call_block-Describes q (browse_debug texts) _ _ (λ path found. refl)
      (then_block-Describes q _ _ _ _ uname
        (then_block-Describes q _ _ _ _ total (then_block-Describes q _ _ _ _ report report_full)))

-- What a path names, as its names: the root where there are none.
unfoldable pub answer : Tree → Names → Answer
unfolding resolve
answer t [] = at_dir t
answer t ((c, n) ∷ xs) = resolve t c xs

module _ (q : Query) (accepting : IsAccepting q) (root : BrowseFunction) (body : Block) (t : Tree)
    (written : (path : Bytes) (found : Found) → root q path found ≡ browse_block path body found)
    (describes : Describes q body t) (texts : DebugTexts) where
  contents : Bool → Block
  contents shown = then_block (call_block (some root) q) (
      if shown
      then dir_block q (some (codes ".debug")) false (call_block (some (browse_debug texts)) q)
      else goes_on)

  contents-Describes : (shown : Bool) → Describes q (contents shown) (root_tree t texts shown)
  unfolding contents root_tree has_no_slash
  contents-Describes true =
      then_block-Describes q _ _ t _ (call_block-Describes q root body t written describes) (
        dir_block-Describes q accepting (codes ".debug") (cons-IsName _ _ refl) _ (debug_tree texts)
          (browse_debug-Describes texts q accepting))
  contents-Describes false =
      then_block-Describes q _ _ t end (call_block-Describes q root body t written describes)
        (goes_on-Describes q)

-- Any number of slashes and then names.
abbrev pub absolute : ℕ → Names → Bytes
absolute k names = b'/' ∷ (slashes k ++ spelled names)

match_root :
    (k : ℕ) (names : Names)
    → AreNames names
    → match_start_of_path (absolute k names) [] ≡ some (spelled names)
unfolding match_start_of_path skip_slashes
match_root k names h =
    ap some (skip_slashes_append k (spelled names) ∙ skip_slashes-spelled names h)

-- The block of the root directory, around any contents.
root-Cleans :
    (q : Query) (inner : Block) (t : Tree) (k : ℕ) (names : Names) (found : Found)
    → Describes q inner t
    → AreNames names
    → Cleans q (answer t names) found (
        dir_block q
          (some [])
          true
          inner
          (record { rc = pos 0; ptr = absolute k names; found = found }))
unfolding dir_block answer
root-Cleans q inner t k [] found d h =
    rw (match_root k [] h, spelled-nil) (dir_end-reached q inner t found d)
root-Cleans q inner t k ((c, n) ∷ xs) found d h =
    rw (match_root k ((c, n) ∷ xs) h, is_empty-spelled c n xs (h.0))
      (dir_end-deeper q t c n xs found _ (h.0) (d.finds c n xs found h))

-- `st_blocks`, set where there is no error.
unfoldable pub finished : ℤ × Found → ℤ × Found
finished (rc, found) = (
  rc,
  if is_zero rc
      then change_stat (λ b. record b { st_blocks = (b.st_size + 511) / 512 }) found
      else found,
)

finish-IsFinal :
    (s : Status)
    → IsFinal s
    → (if not (is_empty s.ptr) && is_zero s.rc then neg enoent else s.rc) ≡ s.rc
finish-IsFinal s (inl nil) = rw nil
finish-IsFinal s (inr error) = elim (Bool-cases (is_empty s.ptr)) [
  | inl z ↦ rw z
  | inr z ↦ rw (z, error)
]

-- `VFS_Browse` gives what the path names in the tree that the root function describes, with the debug directory
-- after it if it is shown, where the callback takes every entry: for a path that names nothing, ENOENT, and for
-- one that goes on after a file, ENOTDIR, and the results are left alone; for a directory, its own
-- entries and those that it contains, or the error of reading it as a link; for a file, its results,
-- or the error of listing it or of reading it as a link. Repeated slashes play no part.
pub vfs_browse-outcome :
    (q : Query) (accepting : IsAccepting q) (root : BrowseFunction) (body : Block) (t : Tree)
    (written : (path : Bytes) (found : Found) → root q path found ≡ browse_block path body found)
    (describes : Describes q body t) (texts : DebugTexts) (shown : Bool) (k : ℕ) (names : Names)
    (found : Found)
    → AreNames names
    → vfs_browse (vfs_of root texts shown) (some q) (some (absolute k names)) found
      ≡ finished (outcome q (answer (root_tree t texts shown) names) found)
unfolding vfs_browse vfs_of root_block browse_block contents finished
vfs_browse-outcome q accepting root body t written describes texts shown k names found h =
    let d = contents-Describes q accepting root body t written describes texts shown in
    let (s, e, final, result) =
      root-Cleans q (contents q accepting root body t written describes texts shown)
        (root_tree t texts shown) k names found d h in
    rw (e, finish-IsFinal s final, ← result)
