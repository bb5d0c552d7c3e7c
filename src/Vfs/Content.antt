-- ===== src/Vfs/Content.antt =====
-- From a path to the content of the file that it names: `VFS_Browse` of djmount/vfs.c, and then reads of
-- djmount/file_buffer.c.
use djmount.Base.{Bool, true, ◌≡◌, refl, some, none, ℕ, min, Option, inl, inr, ◌-◌}
use djmount.Base.Lists.{Bytes, length, take, drop}
use djmount.Base.Int.{pos}
use djmount.Base.Tests.{Option-cases}
use djmount.FileBuffer.{Http, create_from_string, read}
use djmount.FileBuffer.Memory.{read-create_from_string}
use djmount.Vfs.{Query, Found, dt_reg, file_begin, file_set_string, set_time}
use djmount.Vfs.Macros.{Block, BrowseFunction, browse_block, DebugTexts, vfs_browse}
use djmount.Vfs.Match.{Names, AreNames}
use djmount.Vfs.Tree.{Tree, at_leaf, outcome, IsAccepting, Describes}
use djmount.Vfs.Root.{vfs_of, root_tree, absolute, answer, finished, vfs_browse-outcome}

-- The size that `stat` gives, where it is asked for.
abbrev pub stat_size : Found → Option ℕ
stat_size found = elim (found.stbuf) [ none ↦ none | some s ↦ some s.st_size ]

abbrev pub asked_size : Found → ℕ → Option ℕ
asked_size found n = elim (found.stbuf) [ none ↦ none | some s ↦ some n ]

-- A query to open a file: no listing and no link.
abbrev pub open_query : Query
open_query = record { filler = none; has_file = true; lnk_bufsiz = none }

pub open_query-IsAccepting : IsAccepting open_query
open_query-IsAccepting f e es x = cc

outcome-text :
    (s : Bytes) (found : Found)
    → ((finished (outcome open_query (at_leaf dt_reg (file_set_string (some s))) found)).0 ≡ pos 0)
      × ((finished (outcome open_query (at_leaf dt_reg (file_set_string (some s))) found)).1.file
          ≡ some (create_from_string (some s)))
      × (stat_size
            (finished (outcome open_query (at_leaf dt_reg (file_set_string (some s))) found)).1
          ≡ asked_size found (length s))
unfolding finished outcome file_begin set_time file_set_string
outcome-text s found = elim (Option-cases found.stbuf) [
  | inl e ↦ (refl, refl, rw e refl)
  | inr st ↦ (refl, refl, rw (st.1) refl)
]

-- Opening a path that names a text file of the file system and reading from the buffer that it gives delivers the
-- bytes of that text: there is no error, every read returns those from its offset on, as many as asked for
-- or as the text has left, and the size that `stat` gives, if it is asked for, is the length of the text.
pub vfs_browse-read :
    (http : Http) (root : BrowseFunction) (body : Block) (t : Tree)
    (written : (path : Bytes) (found : Found)
      → root open_query path found ≡ browse_block path body found)
    (describes : Describes open_query body t) (texts : DebugTexts) (shown : Bool) (k : ℕ)
    (names : Names) (found : Found) (s : Bytes) (size offset : ℕ)
    → AreNames names
    → answer (root_tree t texts shown) names ≡ at_leaf dt_reg (file_set_string (some s))
    → ((vfs_browse (vfs_of root texts shown) (some open_query) (some (absolute k names)) found).0
        ≡ pos 0)
      × (read http
            (vfs_browse
              (vfs_of root texts shown)
              (some open_query)
              (some (absolute k names))
              found).1.file
            true
            size
            offset
          ≡ some (pos (min size (length s - offset)), take size (drop offset s)))
      × (stat_size
            (vfs_browse
              (vfs_of root texts shown)
              (some open_query)
              (some (absolute k names))
              found).1
          ≡ asked_size found (length s))
vfs_browse-read http root body t written describes texts shown k names found s size offset h here =
    let result =
      vfs_browse-outcome open_query open_query-IsAccepting root body t written describes texts shown
        k names found h in
    let (ok, opened, sized) = outcome-text s found in
    rw (result, here, ok, opened, sized) (refl, read-create_from_string http s size offset, refl)
