-- ===== src/DidlObject/Tests.antt =====
-- Examples for djmount/didl_object.c.
use djmount.Base.{false, ◌≡◌, refl, [], none, some, arith}
use djmount.Base.Lists.{Bytes}
use djmount.Base.Text.{codes}
use djmount.Strings.{clean_file_name, strip_spaces, skip_spaces, to_boolean}
use djmount.MediaFile.{get_name}
use djmount.DidlObject.{Element, DidlObject, create_object, object_of, basename_of}
use djmount.DidlObject.FileNames.{IsFileName, create_object-IsFileName}

abbrev hidden : Element
hidden = record {
  id = some (codes "7");
  searchable = none;
  dc_title = some (codes " .tune/1 ");
  upnp_class = none;
}

abbrev tune : DidlObject
tune = record {
  is_container = false;
  id = codes "7";
  title = codes " .tune/1 ";
  cds_class = [];
  searchable = false;
  element = hidden;
  basename = codes "-tune_1";
}

made : create_object (some hidden) false ≡ some tune
unfolding create_object object_of basename_of clean_file_name strip_spaces skip_spaces to_boolean
made = refl

create_object-IsFileName_example :
    IsFileName tune.basename
    × ((n : Bytes) × (get_name (some tune.basename) (some (codes "mp3")) ≡ some n) × IsFileName n)
create_object-IsFileName_example =
    create_object-IsFileName hidden false tune b'm' (codes "p3") made (omega arith, tt)
      (omega arith, (omega arith, (omega arith, tt)))
      (omega arith, (omega arith, (omega arith, tt)))

-- An identifier with a slash and no title: the name cannot be a component of a path.
slash_test : basename_of [] (codes "0/1") ≡ codes "-id-0/1"
unfolding basename_of
slash_test = refl
