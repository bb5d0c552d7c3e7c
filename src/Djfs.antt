-- ===== src/Djfs.antt =====
-- djmount/djfs.c: the file system of the devices, written with the browse macros.
--
-- What the devices and the XML library answer during a call of `VFS_Browse` is the record `Network`. The directories for
-- searches, `BrowseSearchDir`, are a parameter. `BrowseSearchDir` also makes a directory for any criteria that are
-- looked up; without a search history it is not called.
pub mod Trees
pub mod Pieces
pub mod Describes
pub mod Depth
pub mod Names
pub mod Paths
mod Tests
use djmount.Base.{
  ℕ, zero, suc, Bool, true, false, not, ◌&&◌, ◌||◌, List, [], ◌∷◌, ◌++◌, Option, none, some,
}
use djmount.Base.Lists.{Bytes}
use djmount.Base.Int.{ℤ, pos, negsuc}
use djmount.Base.Tests.{ltb, if◌then◌else◌}
use djmount.Base.Text.{codes}
use djmount.FileBuffer.{max_content_length}
use djmount.Vfs.{
  Query, Found, DType, dt_reg, dt_lnk, file_set_string, file_set_url, symlink_set_path, goes_on,
}
use djmount.Vfs.Macros.{
  Block, BrowseFunction, then_block, dir_block, file_block, call_block, browse_block,
}
use djmount.DidlObject.{DidlObject}
use djmount.ContentDir.{BrowseFlag, metadata, direct_children}
use djmount.MediaFile.{
  Resource, MediaFile, not_found, overrun, found, get_preferred, get_name, get_res_size,
}
use djmount.MediaFile.Playlist.{get_playlist_content}

-- The names of `DeviceList_GetDevicesNames`; the objects that `ContentDir_Browse` gives for a device, an identifier and
-- a flag, `none` where there are none; the search capabilities of a device; the <res> elements of an object, the
-- duration of one, and the text of an object's element.
pub record Network : Type 0 where
  pub names : Option (List Bytes)
  pub browse : Bytes → Bytes → BrowseFlag → Option (List DidlObject)
  pub capabilities : Bytes → Option Bytes
  pub resources : DidlObject → Option (List Resource)
  pub duration : Resource → Option Bytes
  pub element_string : DidlObject → Bytes

-- The fields of `DJFS`: its flags, and whether there is a search history.
pub record Djfs : Type 0 where
  pub show_debug : Bool
  pub use_playlists : Bool
  pub show_metadata : Bool
  pub search_hist : Bool

-- `PTR_ARRAY_FOR_EACH_PTR`, with a piece of a browse function as the body.
pub each : {A : Type 0} → (A → Block) → List A → Block
unfolding then_block
each b [] = goes_on
each b (x ∷ xs) = then_block (b x) (each b xs)

-- A text that is not NULL and not empty.
abbrev pub not_blank : Option Bytes → Bool
not_blank none = false
not_blank (some []) = false
not_blank (some (c ∷ cs)) = true

-- `res_size < 0 || res_size > FILE_BUFFER_MAX_CONTENT_LENGTH`
abbrev pub out_of_range : ℤ → Bool
out_of_range (pos n) = ltb max_content_length n
out_of_range (negsuc n) = true

abbrev pub is_null : Option Bytes → Bool
is_null none = true
is_null (some c) = false

-- The name of an entry, and the code that sets its results.
abbrev pub FileEntry : Type 0
FileEntry = Option Bytes × (Query → Found → Found)

abbrev pub head_of : {A : Type 0} → List A → Option A
head_of [] = none
head_of (x ∷ xs) = some x

abbrev pub names_or_none : Option (List Bytes) → List Bytes
names_or_none none = []
names_or_none (some ns) = ns

-- The names of devices, each on a line.
pub lines : List Bytes → Bytes
lines [] = []
lines (n ∷ ns) = n ++ 10 ∷ lines ns

-- Whether the capabilities of a searchable root are to be asked for, and if so whether there are any.
abbrev pub can_search : Bool → Option Bytes → Bool → Bool
can_search hist caps root_searchable = if hist && root_searchable then not_blank caps else hist

module _ (net : Network) (self : Djfs) where
  -- A file with a playlist that is to be used.
  pub playlist_entry : DidlObject → MediaFile → Bytes → FileEntry
  playlist_entry o file playlist = (
    get_name (some o.basename) (some playlist),
    file_set_string (get_playlist_content o.title (net.duration file.res) playlist file),
  )

  -- A file that is read over HTTP.
  pub url_entry : DidlObject → MediaFile → FileEntry
  url_entry o file = (
    get_name (some o.basename) (some file.extension),
    file_set_url (some file.uri) (get_res_size file),
  )

  -- The entry for a media file: its playlist, if it has one that is to be used.
  pub file_entry : DidlObject → MediaFile → FileEntry
  unfolding playlist_entry url_entry
  file_entry o file = elim (file.playlist) [
    | none ↦ url_entry o file
    | some playlist ↦
        if self.use_playlists || out_of_range (get_res_size file)
        then playlist_entry o file playlist
        else url_entry o file
  ]

  -- The entry for an object that is not a container, if it has a media file; none where `MediaFile_GetPreferred` would read
  -- past the end of a text.
  pub media_entry : DidlObject → Option FileEntry
  unfolding file_entry
  media_entry o = elim (get_preferred (net.resources o)) [
    | not_found ↦ none
    | overrun ↦ none
    | found file ↦ some (file_entry o file)
  ]

  -- The entry of an object in the directory .metadata.
  pub metadata_entry : DidlObject → FileEntry
  metadata_entry o = (
    get_name (some o.basename) (some (codes "xml")),
    file_set_string
        (some (codes "<?xml version=\"1.0\" encoding=\"UTF-8\"?>\n" ++ net.element_string o)),
  )

  -- `FILE_BEGIN … FILE_END`
  abbrev pub entry_block : Query → FileEntry → Block
  entry_block q e = file_block q dt_reg (e.0) (e.1)

  -- `DIR_BEGIN (".metadata") … DIR_END`, for objects that are there
  pub metadata_block : Query → List DidlObject → Block
  unfolding each metadata_entry
  metadata_block q [] = goes_on
  metadata_block q (o ∷ os) =
      if self.show_metadata
      then dir_block q (some (codes ".metadata")) false
          (each (λ x. entry_block q (metadata_entry x)) (o ∷ os))
      else goes_on

  -- `BROWSE_SUB`, of a browse function with the body b
  abbrev pub browse_sub : Query → Block → Block
  browse_sub q b = call_block (some (λ q' path results. browse_block path b results)) q

  module _ (search_dir : Query → Bytes → DidlObject → Option Bytes → Block) where
    -- The directories for searches; `BrowseSearchDir` has the start of the criteria that it extends.
    pub search_block : Query → Bytes → DidlObject → Bool → Option Bytes → Block
    search_block q dev parent searchable criteria =
        if searchable && parent.searchable
        then elim criteria [
          | none ↦
              dir_block q (some (codes "_search")) false
                (browse_sub q (search_dir q dev parent none))
          | some c ↦
              then_block
                (dir_block q (some (codes "_and")) false (
                  browse_sub q
                    (search_dir q dev parent (some (codes "(" ++ c ++ codes ") and (")))))
                (dir_block q (some (codes "_or")) false (
                  browse_sub q (search_dir q dev parent (some (codes "(" ++ c ++ codes ") or (")))))
        ]
        else goes_on

    -- The body of the loop of `BrowseChildren` for an object, with `BrowseChildren` for the directories below.
    pub object_block : Query → Bytes → (DidlObject → List DidlObject → Block) → DidlObject → Block
    unfolding media_entry
    object_block q dev below o =
        let sub : Block = elim (net.browse dev o.id direct_children) [
          | none ↦ goes_on
          | some os ↦ browse_sub q (below o os)
        ] in
        let file : Block = elim (media_entry o) [ none ↦ goes_on | some e ↦ entry_block q e ] in
        if o.is_container then dir_block q (some o.basename) false sub else file

    -- What `BrowseChildren` does between `BROWSE_BEGIN` and `BROWSE_END`. A directory deeper than the fuel has no
    -- entries; the path gets shorter with each directory, so that its length is enough.
    pub children_block :
        ℕ → Query → Bytes → Bool → Option Bytes → DidlObject → List DidlObject → Block
    unfolding object_block metadata_block search_block each
    children_block zero q dev searchable criteria parent os = goes_on
    children_block (suc fuel) q dev searchable criteria parent os =
        let below = children_block fuel q dev (searchable && is_null criteria) none in
        then_block (each (object_block q dev below) os)
          (then_block (metadata_block q os) (search_block q dev parent searchable criteria))

    -- What the directory of a device has beside its status.
    pub contents_block : ℕ → Query → Bytes → Block
    unfolding children_block
    contents_block fuel q dev = elim (net.browse dev (codes "0") metadata) [
      | none ↦ goes_on
      | some roots ↦ elim (head_of roots) [
        | none ↦ goes_on
        | some root ↦ elim (net.browse dev (codes "0") direct_children) [
          | none ↦ goes_on
          | some os ↦
              let searchable = can_search self.search_hist (net.capabilities dev) root.searchable in
              browse_sub q (children_block fuel q dev searchable none root os)
        ]
      ]
    ]

    -- `SYMLINK_BEGIN (".status") … SYMLINK_END`
    pub status_block : Query → Bytes → Block
    status_block q dev =
        if self.show_debug
        then file_block q dt_lnk (some (codes ".status"))
            (symlink_set_path (some (codes "../.debug/" ++ dev ++ codes "/status")))
        else goes_on

    pub device_block : ℕ → Query → Bytes → Block
    unfolding status_block contents_block
    device_block fuel q dev =
        dir_block q (some dev) false (then_block (status_block q dev) (contents_block fuel q dev))

    -- What `BrowseRoot` does between `BROWSE_BEGIN` and `BROWSE_END`.
    pub browse_root_block : ℕ → Query → Block
    unfolding device_block lines each
    browse_root_block fuel q =
        then_block
          (file_block q dt_reg (some (codes "devices")) (λ q' results. elim (net.names) [
            | none ↦ results
            | some ns ↦ file_set_string (some (lines ns)) q' results
          ]))
          (each (device_block fuel q) (names_or_none net.names))

    -- `BrowseRoot`, for directories no deeper than the fuel
    unfoldable pub browse_root_at : ℕ → BrowseFunction
    unfolding browse_root_block
    browse_root_at fuel q path results = browse_block path (browse_root_block fuel q) results
