-- ===== src/Djfs/Trees.antt =====
-- djmount/djfs.c: the directories and files that the file system of the devices has, as trees.
use djmount.Base.{ℕ, zero, suc, Bool, ◌&&◌, List, [], ◌∷◌, ◌++◌, Option, none, some}
use djmount.Base.Lists.{Bytes}
use djmount.Base.Tests.{if◌then◌else◌}
use djmount.Base.Text.{codes}
use djmount.Vfs.{Query, Found, DType, dt_reg, dt_lnk, file_set_string, symlink_set_path}
use djmount.Vfs.Tree.{Tree, end, dir, leaf, append}
use djmount.DidlObject.{DidlObject}
use djmount.ContentDir.{metadata, direct_children}
use djmount.Djfs.{
  Network, Djfs, FileEntry, head_of, names_or_none, lines, can_search, media_entry, metadata_entry,
  is_null,
}

-- An entry with a name, and none where the name is NULL or empty.
unfoldable pub leaf_of : DType → Option Bytes → (Query → Found → Found) → Tree
leaf_of d_type none body = end
leaf_of d_type (some []) body = end
leaf_of d_type (some (c ∷ cs)) body = leaf (c ∷ cs) d_type body end

unfoldable pub dir_of : Bytes → Tree → Tree
dir_of [] children = end
dir_of (c ∷ cs) children = dir (c ∷ cs) children end

unfoldable pub all_of : {A : Type 0} → (A → Tree) → List A → Tree
unfolding append
all_of t [] = end
all_of t (x ∷ xs) = append (t x) (all_of t xs)

abbrev pub entry_tree : FileEntry → Tree
entry_tree e = leaf_of dt_reg (e.0) (e.1)

module _ (net : Network) (self : Djfs)
    (search_tree : Bytes → DidlObject → Option Bytes → Tree) where
  unfoldable pub metadata_tree : List DidlObject → Tree
  unfolding all_of leaf_of
  metadata_tree [] = end
  metadata_tree (o ∷ os) =
      if self.show_metadata
      then dir (codes ".metadata") (all_of (λ x. entry_tree (metadata_entry net self x)) (o ∷ os))
          end
      else end

  -- "_search" where this is no search, and "_and" and "_or" in the results of one.
  unfoldable pub searches : Bytes → DidlObject → Bool → Option Bytes → Tree
  unfolding append
  searches dev parent searchable criteria =
      if searchable && parent.searchable
      then elim criteria [
        | none ↦ dir (codes "_search") (search_tree dev parent none) end
        | some c ↦
            append
              (dir (codes "_and")
                (search_tree dev parent (some (codes "(" ++ c ++ codes ") and ("))) end)
              (dir (codes "_or") (search_tree dev parent (some (codes "(" ++ c ++ codes ") or (")))
                end)
      ]
      else end

  unfoldable pub object_tree : Bytes → (DidlObject → List DidlObject → Tree) → DidlObject → Tree
  unfolding dir_of leaf_of
  object_tree dev below o =
      let sub : Tree = elim (net.browse dev o.id direct_children) [
        | none ↦ end
        | some os ↦ below o os
      ] in
      let file : Tree = elim (media_entry net self o) [ none ↦ end | some e ↦ entry_tree e ] in
      if o.is_container then dir_of o.basename sub else file

  -- A container is a directory with its children; another object is a file, if it has media. The tree is cut at a depth.
  unfoldable pub children_tree :
      ℕ → Bytes → Bool → Option Bytes → DidlObject → List DidlObject → Tree
  unfolding object_tree metadata_tree searches all_of append
  children_tree zero dev searchable criteria parent os = end
  children_tree (suc depth) dev searchable criteria parent os =
      let below = children_tree depth dev (searchable && is_null criteria) none in
      append (all_of (object_tree dev below) os)
        (append (metadata_tree os) (searches dev parent searchable criteria))

  unfoldable pub contents_tree : ℕ → Bytes → Tree
  unfolding children_tree
  contents_tree depth dev = elim (net.browse dev (codes "0") metadata) [
    | none ↦ end
    | some roots ↦ elim (head_of roots) [
      | none ↦ end
      | some root ↦ elim (net.browse dev (codes "0") direct_children) [
        | none ↦ end
        | some os ↦
            children_tree depth dev
              (can_search self.search_hist (net.capabilities dev) root.searchable) none root os
      ]
    ]
  ]

  unfoldable pub status_tree : Bytes → Tree
  unfolding leaf_of
  status_tree dev =
      if self.show_debug
      then leaf_of dt_lnk (some (codes ".status"))
          (symlink_set_path (some (codes "../.debug/" ++ dev ++ codes "/status")))
      else end

  unfoldable pub device_tree : ℕ → Bytes → Tree
  unfolding dir_of append status_tree contents_tree
  device_tree depth dev = dir_of dev (append (status_tree dev) (contents_tree depth dev))

  abbrev pub set_devices : Query → Found → Found
  set_devices q results = elim (net.names) [
    | none ↦ results
    | some ns ↦ file_set_string (some (lines ns)) q results
  ]

  -- The file "devices", and a directory for each device.
  unfoldable pub djfs_tree : ℕ → Tree
  unfolding append leaf_of all_of device_tree
  djfs_tree depth =
      append (leaf_of dt_reg (some (codes "devices")) set_devices)
        (all_of (device_tree depth) (names_or_none net.names))
