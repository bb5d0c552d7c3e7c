-- ===== src/Djfs/Paths.antt =====
-- djmount/djfs.c with djmount/vfs.c: what a path names in the file system of the devices.
use djmount.Base.{ℕ, ◌≤◌, false, true, ◌≡◌, ap, ◌∙◌, refl, Option, some}
use djmount.Base.Lists.{Bytes, length}
use djmount.Vfs.{Query, Found}
use djmount.Vfs.Macros.{Block, DebugTexts, vfs_browse}
use djmount.Vfs.Match.{Names, AreNames}
use djmount.Vfs.Tree.{Tree, IsAccepting, Describes, outcome}
use djmount.Vfs.Root.{vfs_of, absolute, answer, finished, root_tree, vfs_browse-outcome}
use djmount.DidlObject.{DidlObject}
use djmount.Djfs.{Network, Djfs, browse_root_at, browse_root_block}
use djmount.Djfs.Trees.{djfs_tree}
use djmount.Djfs.Describes.{browse_root_block-Describes}
use djmount.Djfs.Pieces.{IsNamed}
use djmount.Djfs.Depth.{answer-djfs_tree}

-- A path in the file system of the devices, without the debug directory, where no name that it gives has a slash,
-- the callback takes every entry and, if there is a search history, the directories for searches describe trees:
-- VFS_Browse gives what the path names in the tree of the devices and their objects, cut at as many directories as
-- the path has names, whatever fuel of at least that number BrowseRoot has.
pub vfs_browse-djfs_tree :
    (q : Query) (net : Network) (self : Djfs)
    (search_dir : Query → Bytes → DidlObject → Option Bytes → Block)
    (search_tree : Bytes → DidlObject → Option Bytes → Tree) (texts : DebugTexts) (fuel k : ℕ)
    (names : Names) (found : Found)
    → IsAccepting q
    → IsNamed net self
    → (self.search_hist ≡ true
        → (dev : Bytes) (parent : DidlObject) (c : Option Bytes)
        → Describes q (search_dir q dev parent c) (search_tree dev parent c))
    → AreNames names
    → length names ≤ fuel
    → vfs_browse
        (vfs_of (browse_root_at net self search_dir fuel) texts false)
        (some q)
        (some (absolute k names))
        found
      ≡ finished (outcome q (answer (djfs_tree net self search_tree (length names)) names) found)
unfolding browse_root_at root_tree
vfs_browse-djfs_tree q net self search_dir search_tree texts fuel k names found accepts named d are
      le =
    vfs_browse-outcome q accepts (browse_root_at net self search_dir fuel)
      (browse_root_block net self search_dir fuel q) (djfs_tree net self search_tree fuel)
      (λ path results. refl)
      (browse_root_block-Describes q accepts net self named search_dir search_tree d fuel) texts
      false k names found are
    ∙ ap finished (answer-djfs_tree net self search_tree q found names fuel le)
