-- ===== src/Djfs/Pieces.antt =====
-- djmount/djfs.c: pieces of its browse functions, each with the tree that it describes.
use djmount.Base.{Bool, true, false, ◌≡◌, refl, List, [], ◌∷◌, Option, none, some}
use djmount.Base.Lists.{Bytes, All}
use djmount.Base.Tests.{if◌then◌else◌}
use djmount.Vfs.{Query, Found, DType, goes_on}
use djmount.Vfs.Macros.{Block, dir_block, file_block, browse_block}
use djmount.Vfs.Match.{IsName}
use djmount.Vfs.Tree.{Tree, end, IsAccepting, Describes}
use djmount.Vfs.Resolve.{
  goes_on-Describes, then_block-Describes, dir_block-Describes, file_block-Describes,
  call_block-Describes,
}
use djmount.DidlObject.{DidlObject}
use djmount.ContentDir.{BrowseFlag}
use djmount.Djfs.{
  Network, Djfs, FileEntry, each, names_or_none, media_entry, metadata_entry, browse_sub,
}
use djmount.Djfs.Trees.{leaf_of, dir_of, all_of}

-- A name that is not NULL and not empty has no slash.
abbrev pub IsNameIfAny : Option Bytes → Type 0
IsNameIfAny none = Unit
IsNameIfAny (some []) = Unit
IsNameIfAny (some (c ∷ cs)) = IsName (c ∷ cs)

abbrev pub EntryHasName : Option FileEntry → Type 0
EntryHasName none = Unit
EntryHasName (some e) = IsNameIfAny (e.0)

-- The names that the file system gives to an object have no slash.
abbrev pub HasNames : Network → Djfs → DidlObject → Type 0
HasNames net self o =
    IsNameIfAny (some o.basename)
    × EntryHasName (media_entry net self o)
    × IsNameIfAny ((metadata_entry net self o).0)

-- So have those of all objects that the devices give, and of the devices.
pub record IsNamed (net : Network) (self : Djfs) : Type 0 where
  pub devices : All (λ n. IsNameIfAny (some n)) (names_or_none net.names)
  pub objects :
      (dev id : Bytes) (flag : BrowseFlag) (os : List DidlObject)
      → net.browse dev id flag ≡ some os
      → All (HasNames net self) os

module _ (q : Query) (accepting : IsAccepting q) where
  pub file-Describes :
      (d_type : DType) (name : Option Bytes) (body : Query → Found → Found)
      → IsNameIfAny name
      → Describes q (file_block q d_type name body) (leaf_of d_type name body)
  unfolding file_block leaf_of
  file-Describes d_type none body h = goes_on-Describes q
  file-Describes d_type (some []) body h = goes_on-Describes q
  file-Describes d_type (some (c ∷ cs)) body h =
      file_block-Describes q accepting (c ∷ cs) h d_type body

  pub directory-Describes :
      (name : Bytes) (body : Block) (t : Tree)
      → IsNameIfAny (some name)
      → Describes q body t
      → Describes q (dir_block q (some name) false body) (dir_of name t)
  unfolding dir_block dir_of
  directory-Describes [] body t h d = goes_on-Describes q
  directory-Describes (c ∷ cs) body t h d = dir_block-Describes q accepting (c ∷ cs) h body t d

  pub each-Describes :
      {A : Type 0} (P : A → Type 0) (b : A → Block) (t : A → Tree)
      → ((x : A) → P x → Describes q (b x) (t x))
      → (xs : List A) → All P xs
      → Describes q (each b xs) (all_of t xs)
  unfolding each all_of
  each-Describes P b t d [] h = goes_on-Describes q
  each-Describes P b t d (x ∷ xs) h =
      then_block-Describes q (b x) (each b xs) (t x) (all_of t xs) (d x h.0)
        (each-Describes P b t d xs h.1)

  -- For a value that may be missing, and for a test.
  pub option-Describes :
      {A : Type 0} (x : Option A) (b : A → Block) (t : A → Tree)
      → ((a : A) → x ≡ some a → Describes q (b a) (t a))
      → Describes q
          (elim x [ none ↦ goes_on | some a ↦ b a ])
          (elim x [ none ↦ end | some a ↦ t a ])
  option-Describes none b t d = goes_on-Describes q
  option-Describes (some a) b t d = d a refl

  pub if-Describes :
      (c : Bool) (b b' : Block) (t t' : Tree)
      → Describes q b t
      → Describes q b' t'
      → Describes q (if c then b else b') (if c then t else t')
  if-Describes true b b' t t' d d' = d
  if-Describes false b b' t t' d d' = d'

  pub when-Describes :
      (c : Bool) (b : Block) (t : Tree)
      → (c ≡ true → Describes q b t)
      → Describes q (if c then b else goes_on) (if c then t else end)
  when-Describes true b t d = d refl
  when-Describes false b t d = goes_on-Describes q

  pub browse_sub-Describes :
      (net : Network) (self : Djfs) (b : Block) (t : Tree)
      → Describes q b t
      → Describes q (browse_sub net self q b) t
  browse_sub-Describes net self b t d =
      call_block-Describes q (λ q' path results. browse_block path b results) b t
        (λ path results. refl) d
