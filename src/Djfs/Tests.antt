-- ===== src/Djfs/Tests.antt =====
-- Examples for djmount/djfs.c: a device whose every container has the same two objects, a container and a song.
use djmount.Base.{Bool, true, false, ◌≡◌, refl, subst, [], ◌∷◌, Option, none, some, arith}
use djmount.Base.Lists.{Bytes, All, length}
use djmount.Base.Text.{codes}
use djmount.Base.Int.{pos}
use djmount.Vfs.{Query, Found, goes_on, dt_reg, file_set_url}
use djmount.Vfs.Macros.{Block, DebugTexts, vfs_browse}
use djmount.Vfs.Match.{Names, cons-IsName, has_no_slash}
use djmount.Vfs.Tree.{end, at_leaf, outcome}
use djmount.Vfs.Root.{vfs_of, absolute, answer, finished}
use djmount.Vfs.Resolve.{goes_on-Describes}
use djmount.Strings.{
  clean_file_name, strip_spaces, skip_spaces, to_boolean, to_integer, strtoimax, signed_number,
  number, scan_digits, clamp,
}
use djmount.DidlObject.{Element, DidlObject, create_object, object_of, basename_of}
use djmount.MediaFile.{
  Resource, get_preferred, preferred, usable, scan_mimetype, mime_chars, find_format, extension_of,
  get_res_size, get_name, after_last_dot,
}
use djmount.MediaFile.Formats.{mimes, mime}
use djmount.Djfs.{Network, Djfs, browse_root_at, media_entry}
use djmount.Djfs.Trees.{djfs_tree}
use djmount.Djfs.Pieces.{HasNames, IsNamed}
use djmount.Djfs.Names.{create_object-HasNames}
use djmount.Djfs.Paths.{vfs_browse-djfs_tree}

abbrev titled : Bytes → Bytes → Element
titled id title = record {
  id = some id;
  searchable = none;
  dc_title = some title;
  upnp_class = none;
}

abbrev object : Bool → Bytes → Bytes → DidlObject
object container id title = record {
  is_container = container;
  id = id;
  title = title;
  cds_class = [];
  searchable = false;
  element = titled id title;
  basename = title;
}

abbrev music : DidlObject
music = object true (codes "1") (codes "Music")

abbrev song : DidlObject
song = object false (codes "2") (codes "song")

music_made : create_object (some (titled (codes "1") (codes "Music"))) true ≡ some music
unfolding create_object object_of basename_of clean_file_name strip_spaces skip_spaces to_boolean
music_made = refl

song_made : create_object (some (titled (codes "2") (codes "song"))) false ≡ some song
unfolding create_object object_of basename_of clean_file_name strip_spaces skip_spaces to_boolean
song_made = refl

abbrev mp3 : Resource
mp3 = record {
  protocol_info = some (codes "http-get:*:audio/mpeg:*");
  value = some (codes "http://tv/2");
  res_size = some (codes "5");
}

abbrev tv : Network
tv = record {
  names = some (codes "tv" ∷ []);
  browse = λ dev id flag. some (music ∷ song ∷ []);
  capabilities = λ dev. none;
  resources = λ o. some (mp3 ∷ []);
  duration = λ r. none;
  element_string = λ o. [];
}

abbrev plain_files : Djfs
plain_files = record {
  show_debug = false;
  use_playlists = false;
  show_metadata = true;
  search_hist = false;
}

create_object-HasNames_example : HasNames tv plain_files song
create_object-HasNames_example =
    create_object-HasNames tv plain_files (titled (codes "2") (codes "song")) false song song_made
      (omega arith)

tv-IsNamed : IsNamed tv plain_files
unfolding has_no_slash
tv-IsNamed = record {
  devices = (cons-IsName _ _ refl, tt);
  objects = λ dev id flag os e.
      (let same : music ∷ song ∷ [] ≡ os = cc in
        subst (All (HasNames tv plain_files)) same (
          create_object-HasNames tv plain_files (titled (codes "1") (codes "Music")) true music
              music_made (omega arith),
          (
            create_object-HasNames tv plain_files (titled (codes "2") (codes "song")) false song
                song_made (omega arith),
            tt,
          ),
        ));
}

abbrev no_search : Query → Bytes → DidlObject → Option Bytes → Block
no_search q dev parent c = goes_on

abbrev texts : DebugTexts
texts = record {
  uname = none;
  talloc_total = none;
  talloc_report = none;
  talloc_report_full = none;
}

abbrev opening : Query
opening = record { filler = none; has_file = true; lnk_bufsiz = none }

abbrev nothing : Found
nothing = record { stbuf = none; calls = []; file = none; lnk_buf = [] }

abbrev path : Names
path = (codes "tv", 0) ∷ (codes "Music", 0) ∷ (codes "Music", 1) ∷ (codes "song.mp3", 0) ∷ []

vfs_browse-djfs_tree_example :
    vfs_browse
      (vfs_of (browse_root_at tv plain_files no_search 20) texts false)
      (some opening)
      (some (absolute 0 path))
      nothing
    ≡ finished (
        outcome opening
          (answer (djfs_tree tv plain_files (λ dev parent c. end) (length path)) path)
          nothing)
unfolding has_no_slash
vfs_browse-djfs_tree_example =
    vfs_browse-djfs_tree opening tv plain_files no_search (λ dev parent c. end) texts 20 0 path
      nothing (λ f e es x. cc) tv-IsNamed (λ hist dev parent c. goes_on-Describes opening)
      (
        cons-IsName _ _ refl,
        (cons-IsName _ _ refl, (cons-IsName _ _ refl, (cons-IsName _ _ refl, tt))),
      )
      (omega arith)

-- The song is found in the second container, below the same one, and read from its URI.
song_path_test :
    answer (djfs_tree tv plain_files (λ dev parent c. end) 4) path
    ≡ at_leaf dt_reg (file_set_url (some (codes "http://tv/2")) (pos 5))
unfolding answer djfs_tree media_entry get_preferred preferred usable scan_mimetype mime_chars
    find_format mimes mime extension_of get_res_size get_name after_last_dot to_integer strtoimax
    signed_number number skip_spaces scan_digits clamp
song_path_test = refl
