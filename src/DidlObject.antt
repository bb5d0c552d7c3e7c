-- ===== src/DidlObject.antt =====
-- djmount/didl_object.c: the objects of a content directory. What the XML library gives for an element is the record
-- `Element`; talloc is taken to succeed.
pub mod FileNames
mod Tests
use djmount.Base.{ℕ, Bool, true, false, ◌||◌, List, [], ◌∷◌, ◌++◌, Option, none, some}
use djmount.Base.Lists.{Bytes}
use djmount.Base.Tests.{◌==◌, if◌then◌else◌}
use djmount.Base.Text.{codes}
use djmount.Strings.{clean_file_name, strip_spaces, to_boolean}

-- An element <item> or <container>: the attributes id and searchable, and the values of its first <dc:title> and
-- <upnp:class>.
pub record Element : Type 0 where
  pub id : Option Bytes
  pub searchable : Option Bytes
  pub dc_title : Option Bytes
  pub upnp_class : Option Bytes

-- `DIDLObject`
pub record DidlObject : Type 0 where
  pub is_container : Bool
  pub id : Bytes
  pub title : Bytes
  pub cds_class : Bytes
  pub searchable : Bool
  pub element : Element
  pub basename : Bytes

-- An empty text for NULL.
abbrev pub or_blank : Option Bytes → Bytes
or_blank none = []
or_blank (some s) = s

-- The basename from the title after `String_CleanFileName`, and the identifier.
unfoldable pub basename_of : Bytes → Bytes → Bytes
basename_of [] id = codes "-id-" ++ id
basename_of (c ∷ cs) id = if c == b'.' || c == b'_' then b'-' ∷ cs else c ∷ cs

-- `DIDLObject_Create` for an element with an identifier that is not empty.
unfoldable pub object_of : Element → Bool → Bytes → DidlObject
unfolding basename_of
object_of e container id =
    let title = or_blank e.dc_title in
    record {
      is_container = container;
      id = id;
      title = title;
      cds_class = or_blank (strip_spaces e.upnp_class);
      searchable = to_boolean e.searchable false;
      element = e;
      basename = basename_of (or_blank (clean_file_name (some title))) id;
    }

abbrev pub with_id : Element → Bool → Option Bytes → Option DidlObject
unfolding object_of
with_id e container none = none
with_id e container (some []) = none
with_id e container (some (c ∷ cs)) = some (object_of e container (c ∷ cs))

-- `DIDLObject_Create`
unfoldable pub create_object : Option Element → Bool → Option DidlObject
unfolding object_of
create_object none container = none
create_object (some e) container = with_id e container e.id
