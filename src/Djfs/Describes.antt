-- ===== src/Djfs/Describes.antt =====
-- djmount/djfs.c: the browse functions have the trees of Djfs/Trees, for a callback that takes every entry.
use djmount.Base.{
  ℕ, zero, suc, Bool, true, false, ◌&&◌, ◌≡◌, refl, subst, List, [], ◌∷◌, ◌++◌, Option, none, some,
}
use djmount.Base.Lists.{Bytes, All}
use djmount.Base.Text.{codes}
use djmount.Vfs.{Query, dt_reg, dt_lnk}
use djmount.Vfs.Macros.{Block, dir_block}
use djmount.Vfs.Match.{IsName, cons-IsName, has_no_slash}
use djmount.Vfs.Tree.{Tree, end, dir, IsAccepting, Describes}
use djmount.Vfs.Resolve.{goes_on-Describes, then_block-Describes, dir_block-Describes}
use djmount.DidlObject.{DidlObject}
use djmount.ContentDir.{metadata, direct_children}
use djmount.Djfs.{
  Network, Djfs, head_of, names_or_none, can_search, media_entry, metadata_entry, metadata_block,
  search_block, object_block, children_block, contents_block, status_block, device_block,
  browse_root_block, browse_sub, entry_block, is_null,
}
use djmount.Djfs.Trees.{
  entry_tree, metadata_tree, searches, object_tree, children_tree, contents_tree, status_tree,
  device_tree, djfs_tree,
}
use djmount.Djfs.Pieces.{
  IsNameIfAny, EntryHasName, HasNames, IsNamed, file-Describes, directory-Describes, each-Describes,
  option-Describes, if-Describes, when-Describes, browse_sub-Describes,
}

and_left : (a b : Bool) → a && b ≡ true → a ≡ true
and_left true b h = refl
and_left false b h = h

can_search_hist :
    (hist : Bool) (caps : Option Bytes) (searchable : Bool)
    → can_search hist caps searchable ≡ true
    → hist ≡ true
can_search_hist true caps searchable h = refl
can_search_hist false caps searchable h = h

module _ (q : Query) (accepting : IsAccepting q) where
  module _ (net : Network) (self : Djfs) (named : IsNamed net self)
      (search_dir : Query → Bytes → DidlObject → Option Bytes → Block)
      (search_tree : Bytes → DidlObject → Option Bytes → Tree)
      (searched : self.search_hist ≡ true
        → (dev : Bytes) (parent : DidlObject) (c : Option Bytes)
        → Describes q (search_dir q dev parent c) (search_tree dev parent c)) where
    metadata_block-Describes :
        (os : List DidlObject)
        → All (HasNames net self) os
        → Describes q (metadata_block net self q os) (metadata_tree net self search_tree os)
    unfolding metadata_block metadata_tree has_no_slash
    metadata_block-Describes [] h = goes_on-Describes q
    metadata_block-Describes (o ∷ os) h =
        when-Describes q accepting self.show_metadata _ _ (λ shown.
          dir_block-Describes q accepting (codes ".metadata") (cons-IsName _ _ refl) _ _ (
            each-Describes q accepting (HasNames net self)
              (λ x. entry_block net self q (metadata_entry net self x))
              (λ x. entry_tree (metadata_entry net self x))
              (λ x names.
                file-Describes q accepting dt_reg ((metadata_entry net self x).0)
                  ((metadata_entry net self x).1) (names.2))
              (o ∷ os) h))

    search_directory-Describes :
        (dev : Bytes) (parent : DidlObject) (start : Option Bytes) (name : Bytes)
        → IsName name
        → self.search_hist ≡ true
        → Describes q
            (dir_block q (some name) false (browse_sub net self q (search_dir q dev parent start)))
            (dir name (search_tree dev parent start) end)
    search_directory-Describes dev parent start name is_name hist =
        dir_block-Describes q accepting name is_name _ _
          (browse_sub-Describes q accepting net self _ _ (searched hist dev parent start))

    search_block-Describes :
        (dev : Bytes) (parent : DidlObject) (searchable : Bool) (c : Option Bytes)
        → (searchable ≡ true → self.search_hist ≡ true)
        → Describes q
            (search_block net self search_dir q dev parent searchable c)
            (searches net self search_tree dev parent searchable c)
    unfolding search_block searches has_no_slash
    search_block-Describes dev parent searchable none hist =
        when-Describes q accepting (searchable && parent.searchable) _ _ (λ on.
          search_directory-Describes dev parent none (codes "_search") (cons-IsName _ _ refl)
            (hist (and_left searchable parent.searchable on)))
    search_block-Describes dev parent searchable (some c) hist =
        when-Describes q accepting (searchable && parent.searchable) _ _ (λ on.
          let kept = hist (and_left searchable parent.searchable on) in
          then_block-Describes q _ _ _ _
            (search_directory-Describes dev parent (some (codes "(" ++ c ++ codes ") and ("))
              (codes "_and") (cons-IsName _ _ refl) kept)
            (search_directory-Describes dev parent (some (codes "(" ++ c ++ codes ") or ("))
              (codes "_or") (cons-IsName _ _ refl) kept))

    object_block-Describes :
        (dev : Bytes) (below : DidlObject → List DidlObject → Block)
        (below_tree : DidlObject → List DidlObject → Tree)
        → ((o : DidlObject) (os : List DidlObject)
            → All (HasNames net self) os
            → Describes q (below o os) (below_tree o os))
        → (o : DidlObject) → HasNames net self o
        → Describes q
            (object_block net self search_dir q dev below o)
            (object_tree net self search_tree dev below_tree o)
    unfolding object_block object_tree
    object_block-Describes dev below below_tree d o (name, entry, xml) =
        let given = net.browse dev o.id direct_children in
        if-Describes q accepting o.is_container _ _ _ _
          (directory-Describes q accepting o.basename _ _ name (
            option-Describes q accepting given (λ os. browse_sub net self q (below o os))
              (below_tree o)
              (λ os e.
                browse_sub-Describes q accepting net self _ _
                  (d o os (named.objects dev o.id direct_children os e)))))
          (option-Describes q accepting (media_entry net self o) (entry_block net self q) entry_tree
            (λ e at. file-Describes q accepting dt_reg (e.0) (e.1) (subst EntryHasName at entry)))

    children_block-Describes :
        (fuel : ℕ) (dev : Bytes) (searchable : Bool) (c : Option Bytes) (parent : DidlObject)
        (os : List DidlObject)
        → (searchable ≡ true → self.search_hist ≡ true)
        → All (HasNames net self) os
        → Describes q
            (children_block net self search_dir fuel q dev searchable c parent os)
            (children_tree net self search_tree fuel dev searchable c parent os)
    unfolding children_block children_tree
    children_block-Describes zero dev searchable c parent os hist h = goes_on-Describes q
    children_block-Describes (suc fuel) dev searchable c parent os hist h =
        then_block-Describes q _ _ _ _
          (each-Describes q accepting (HasNames net self) _ _
            (object_block-Describes dev _ _ (λ o' os' h'.
              children_block-Describes fuel dev (searchable && is_null c) none o' os'
                (λ on. hist (and_left searchable (is_null c) on)) h'))
            os h)
          (then_block-Describes q _ _ _ _ (metadata_block-Describes os h)
            (search_block-Describes dev parent searchable c hist))

    contents_block-Describes :
        (fuel : ℕ) (dev : Bytes)
        → Describes q
            (contents_block net self search_dir fuel q dev)
            (contents_tree net self search_tree fuel dev)
    unfolding contents_block contents_tree
    contents_block-Describes fuel dev =
        option-Describes q accepting (net.browse dev (codes "0") metadata) _ _ (λ roots e.
          option-Describes q accepting (head_of roots) _ _ (λ root e'.
            option-Describes q accepting (net.browse dev (codes "0") direct_children) _ _
              (λ os given. browse_sub-Describes q accepting net self _ _ (
                children_block-Describes fuel dev
                  (can_search self.search_hist (net.capabilities dev) root.searchable) none root os
                  (can_search_hist self.search_hist (net.capabilities dev) root.searchable)
                  (named.objects dev (codes "0") direct_children os given)))))

    device_block-Describes :
        (fuel : ℕ) (dev : Bytes)
        → IsNameIfAny (some dev)
        → Describes q
            (device_block net self search_dir fuel q dev)
            (device_tree net self search_tree fuel dev)
    unfolding device_block device_tree status_block status_tree has_no_slash
    device_block-Describes fuel dev name = directory-Describes q accepting dev _ _ name (
        then_block-Describes q _ _ _ _
          (when-Describes q accepting self.show_debug _ _ (λ shown.
            file-Describes q accepting dt_lnk (some (codes ".status")) _ (cons-IsName _ _ refl)))
          (contents_block-Describes fuel dev))

    -- What BrowseRoot does describes the tree of the devices.
    pub browse_root_block-Describes :
        (fuel : ℕ)
        → Describes q
            (browse_root_block net self search_dir fuel q)
            (djfs_tree net self search_tree fuel)
    unfolding browse_root_block djfs_tree has_no_slash
    browse_root_block-Describes fuel =
        then_block-Describes q _ _ _ _
          (file-Describes q accepting dt_reg (some (codes "devices")) _ (cons-IsName _ _ refl))
          (each-Describes q accepting (λ n. IsNameIfAny (some n)) _ _ (device_block-Describes fuel)
            (names_or_none net.names) named.devices)
