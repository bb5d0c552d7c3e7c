-- ===== src/Vfs/Tests.antt =====
-- Examples for djmount/vfs.c: a file system with one directory, `music`, that has one file, `a`.
use djmount.Base.{true, false, ◌≡◌, ◌≢◌, refl, List, [], ◌∷◌, ◌++◌, none, some, Option, ap, sym}
use djmount.Base.Lists.{All, bytes_eq}
use djmount.Base.Int.{ℤ, pos}
use djmount.Base.Text.{codes}
use djmount.Base.Tests.{if◌then◌else◌}
use djmount.Vfs.{Query, Found, Entry, dt_dir, dt_reg, file_set_string, match_start_of_path}
use djmount.Vfs.Macros.{
  Block, BrowseFunction, DebugTexts, dir_block, file_block, browse_block, vfs_browse,
}
use djmount.Vfs.Match.{IsName, spelled, has_no_slash, cons-IsName, match_start_of_path-spelled}
use djmount.Vfs.Tree.{Tree, end, dir, leaf, entries, outcome, IsAccepting, Describes, absent}
use djmount.Vfs.Resolve.{dir_block-Describes, file_block-Describes}
use djmount.Vfs.Root.{vfs_of, root_tree, absolute, answer, finished, vfs_browse-outcome}
use djmount.FileBuffer.{read}
use djmount.FileBuffer.Tests.{server}
use djmount.Vfs.Content.{open_query, open_query-IsAccepting, stat_size, vfs_browse-read}
use djmount.Vfs.Listing.{vfs_browse-entries}

abbrev accept : List Entry → Entry → ℤ
accept es e = pos 0

abbrev query : Query
query = record { filler = some accept; has_file = false; lnk_bufsiz = none }

abbrev call : Option (List Entry → Entry → ℤ) → List Entry → Entry → ℤ
call none es e = pos 0
call (some f) es e = f es e

query-IsAccepting : IsAccepting query
query-IsAccepting f e es x = ap (λ o. call o es x) (sym e)

abbrev empty : Found
empty = record { stbuf = none; calls = []; file = none; lnk_buf = [] }

abbrev texts : DebugTexts
texts = record {
  uname = none;
  talloc_total = none;
  talloc_report = none;
  talloc_report_full = none;
}

abbrev music_files : Tree
music_files = leaf (codes "a") dt_reg (file_set_string (some (codes "x"))) end

abbrev tree : Tree
tree = dir (codes "music") music_files end

abbrev music : Query → Block
music q = file_block q dt_reg (some (codes "a")) (file_set_string (some (codes "x")))

abbrev body : Query → Block
body q = dir_block q (some (codes "music")) false (music q)

abbrev root : BrowseFunction
root q path found = browse_block path (body q) found

music-IsName : IsName (codes "music")
unfolding has_no_slash
music-IsName = cons-IsName _ _ refl

a-IsName : IsName (codes "a")
unfolding has_no_slash
a-IsName = cons-IsName _ _ refl

body-Describes : (q : Query) → IsAccepting q → Describes q (body q) tree
body-Describes q h =
    dir_block-Describes q h (codes "music") music-IsName (music q) music_files
      (file_block-Describes q h (codes "a") a-IsName dt_reg (file_set_string (some (codes "x"))))

dir_block-Describes_example : Describes query (body query) tree
dir_block-Describes_example =
    dir_block-Describes query query-IsAccepting (codes "music") music-IsName (music query)
      music_files
      (file_block-Describes query query-IsAccepting (codes "a") a-IsName dt_reg
        (file_set_string (some (codes "x"))))

match_start_of_path-spelled_example :
    match_start_of_path (spelled ((codes "music", 1) ∷ ((codes "a", 0) ∷ []))) (codes "music") ≡ (
      if bytes_eq (codes "music") (codes "music")
      then some (spelled ((codes "a", 0) ∷ []))
      else none)
match_start_of_path-spelled_example =
    match_start_of_path-spelled (codes "music") (codes "music") 1 ((codes "a", 0) ∷ []) music-IsName
      (music-IsName, (a-IsName, tt))

vfs_browse-outcome_example :
    vfs_browse
      (vfs_of root texts true)
      (some query)
      (some (absolute 1 ((codes "music", 0) ∷ ((codes "a", 1) ∷ []))))
      empty
    ≡ finished (
        outcome query
          (answer (root_tree tree texts true) ((codes "music", 0) ∷ ((codes "a", 1) ∷ [])))
          empty)
vfs_browse-outcome_example =
    vfs_browse-outcome query query-IsAccepting root (body query) tree (λ path found. refl)
      (body-Describes query query-IsAccepting) texts true 1
      ((codes "music", 0) ∷ ((codes "a", 1) ∷ [])) empty (music-IsName, (a-IsName, tt))

vfs_browse-entries_example :
    ((vfs_browse
        (vfs_of root texts true)
        (some query)
        (some (absolute 0 ((codes "music", 0) ∷ [])))
        empty).0
      ≡ pos 0)
    × ((vfs_browse
          (vfs_of root texts true)
          (some query)
          (some (absolute 0 ((codes "music", 0) ∷ [])))
          empty).1.calls
        ≡ (codes ".", dt_dir) ∷ ((codes "..", dt_dir) ∷ ((codes "a", dt_reg) ∷ [])))
    × All
        (λ (e : Entry).
          answer (root_tree tree texts true) (((codes "music", 0) ∷ []) ++ (e.0, 0) ∷ []) ≢ absent)
        ((codes "a", dt_reg) ∷ [])
unfolding entries answer root_tree
vfs_browse-entries_example =
    vfs_browse-entries query query-IsAccepting root (body query) tree (λ path found. refl)
      (body-Describes query query-IsAccepting) texts true 0 ((codes "music", 0) ∷ []) empty accept
      music_files (music-IsName, tt) refl refl refl

vfs_browse-read_example :
    ((vfs_browse
        (vfs_of root texts true)
        (some open_query)
        (some (absolute 0 ((codes "music", 0) ∷ ((codes "a", 0) ∷ []))))
        empty).0
      ≡ pos 0)
    × (read server
          (vfs_browse
            (vfs_of root texts true)
            (some open_query)
            (some (absolute 0 ((codes "music", 0) ∷ ((codes "a", 0) ∷ []))))
            empty).1.file
          true
          10
          0
        ≡ some (pos 1, codes "x"))
    × (stat_size
          (vfs_browse
            (vfs_of root texts true)
            (some open_query)
            (some (absolute 0 ((codes "music", 0) ∷ ((codes "a", 0) ∷ []))))
            empty).1
        ≡ none)
unfolding answer root_tree
vfs_browse-read_example =
    vfs_browse-read server root (body open_query) tree (λ path found. refl)
      (body-Describes open_query open_query-IsAccepting) texts true 0
      ((codes "music", 0) ∷ ((codes "a", 0) ∷ [])) empty (codes "x") 10 0
      (music-IsName, (a-IsName, tt)) refl
