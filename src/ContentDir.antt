-- ===== src/ContentDir.antt =====
-- djmount/content_dir.c: browsing and searching a Content Directory.
--
-- The service and its XML documents are the record `Server`, whose state w is the service's own. What a pointer array
-- holds is a list, and talloc is taken to succeed. Lists are in memory, so that no sum of two lengths overflows.
pub mod Service
pub mod Action
pub mod Whole
pub mod Requests
pub mod Pages
pub mod Keys
pub mod References
pub mod Counts
pub mod Results
pub mod Through
pub mod Held
pub mod Live
mod Tests
use djmount.Base.{
  ℕ, zero, suc, ◌+◌, ◌-◌, ◌%◌, ◌^◌, Bool, true, false, not, ◌&&◌, ◌||◌, List, [], ◌∷◌, ◌++◌, Option,
  none, some,
}
use djmount.Base.Lists.{Bytes, length, get_elem?}
use djmount.Base.Tests.{ltb, ◌==◌, if◌then◌else◌}
use djmount.Base.Text.{codes}
use djmount.Base.Int.{ℤ, pos, negsuc}
use djmount.Base.Decimal.{decimal}
use djmount.Strings.{to_integer}
use djmount.DidlObject.{Element, DidlObject, create_object}
use djmount.Cache
use djmount.Cache.{HashTable, Cache, Entry, set_data}

-- `criteria`: one of the two special pointers, or the text of a search.
pub data Criteria : Type 0 where
  browse_metadata browse_children : Criteria
  search_for : Bytes → Criteria

-- `ContentDir_BrowseFlag`
pub data BrowseFlag : Type 0 where
  metadata direct_children : BrowseFlag

-- The text that `criteria` points to.
abbrev pub criteria_text : Criteria → Bytes
criteria_text browse_metadata = codes "BrowseMetadata"
criteria_text browse_children = codes "BrowseDirectChildren"
criteria_text (search_for s) = s

-- `is_browse`
abbrev pub is_browse : Criteria → Bool
is_browse browse_metadata = true
is_browse browse_children = true
is_browse (search_for s) = false

-- `ContentDir_Count` and `ContentDir_Index`, on a 64-bit target
abbrev pub count_mod : ℕ
count_mod = 2 ^ 64

-- A count as an `intmax_t`.
abbrev pub to_intmax : ℕ → ℤ
to_intmax n = if ltb n (2 ^ 63) then pos n else negsuc (count_mod - 1 - n)

-- An `intmax_t` as a count; a negative one equals the count that it becomes, and is kept.
abbrev pub to_count : ℤ → ℕ
to_count (pos n) = n % count_mod
to_count (negsuc n) = (count_mod - 1 - n) % count_mod

-- `int_to_string`
pub int_to_string : ℤ → Bytes
int_to_string (pos n) = decimal n
int_to_string (negsuc n) = b'-' ∷ decimal (suc n)

-- What libupnp gives: `Service_SendActionVa` with the name of the action and its arguments, which returns the code
-- and the document, `none` for NULL; the value of the first element of a name, as `XMLUtil_FindFirstElementValue`
-- gives it; `ixmlParseBuffer`; and the elements of a name in a document.
pub record Server (W D : Type 0) : Type 0 where
  pub send_action : Bytes → List (Bytes × Bytes) → W → (ℤ × Option D) × W
  pub first_value : D → Bytes → Option Bytes
  pub parse_buffer : Bytes → Option D
  pub elements : D → Bytes → List Element

-- What `BrowseOrSearchAction` sets and returns.
pub record Answer (W : Type 0) : Type 0 where
  pub rc : ℤ
  pub nb_matched : ℕ
  pub nb_returned : ℕ
  pub objects : List DidlObject
  pub world : W

-- UPNP_E_BAD_RESPONSE
abbrev pub bad_response : ℤ
bad_response = negsuc 112

abbrev pub is_success : ℤ → Bool
is_success (pos n) = n == 0
is_success (negsuc n) = false

-- `PtrArray_Append`, for an object that is not NULL.
abbrev pub append_object : List DidlObject → Option DidlObject → List DidlObject
append_object objects none = objects
append_object objects (some o) = objects ++ o ∷ []

-- The object that round i of the loop over the answer makes.
pub object_at : List Element → List Element → ℕ → Option DidlObject
object_at containers items i =
    let nb_containers = length containers in
    let is_container = ltb i nb_containers in
    create_object
      (if is_container then get_elem? containers i else get_elem? items (i - nb_containers))
      is_container

-- That loop from round i on, with n rounds left.
pub append_objects : List Element → List Element → ℕ → ℕ → List DidlObject → List DidlObject
unfolding object_at
append_objects containers items i zero objects = objects
append_objects containers items i (suc n) objects =
    append_objects containers items (suc i) n (append_object objects (object_at containers items i))

module _ {W D : Type 0} (s : Server W D) where
  -- The arguments of the action.
  abbrev pub arguments : Bytes → Criteria → ℕ → ℕ → List (Bytes × Bytes)
  arguments object_id criteria starting_index requested_count =
      let browse = is_browse criteria in
      ((if browse then codes "ObjectID" else codes "ContainerID"), object_id)
      ∷ ((if browse then codes "BrowseFlag" else codes "SearchCriteria"), criteria_text criteria)
      ∷ (codes "Filter", codes "*")
      ∷ (codes "StartingIndex", int_to_string (to_intmax starting_index))
      ∷ (codes "RequestedCount", int_to_string (to_intmax requested_count))
      ∷ (codes "SortCriteria", [])
      ∷ []

  -- `BrowseOrSearchAction` where it ends with an error.
  abbrev pub failed : ℤ → List DidlObject → W → Answer W
  failed rc objects w = record {
    rc = rc;
    nb_matched = 0;
    nb_returned = 0;
    objects = objects;
    world = w;
  }

  -- What `BrowseOrSearchAction` does with the parsed result. The number of results is corrected, and so is not used.
  pub read_result : ℕ → D → List DidlObject → W → Answer W
  unfolding append_objects
  read_result nb_matched subdoc objects w =
      let containers = s.elements subdoc (codes "container") in
      let items = s.elements subdoc (codes "item") in
      let nb_returned = length containers + length items in
      record {
        rc = pos 0;
        nb_matched = nb_matched;
        nb_returned = nb_returned;
        objects = append_objects containers items 0 nb_returned objects;
        world = w;
      }

  -- `BrowseOrSearchAction`, once the action is done.
  pub read_answer : (ℤ × Option D) × W → List DidlObject → Answer W
  unfolding read_result
  read_answer ((rc, none), w) objects =
      failed (if is_success rc then bad_response else rc) objects w
  read_answer ((rc, some doc), w) objects =
      let nb_matched = to_count (to_integer (s.first_value doc (codes "TotalMatches")) (pos 0)) in
      if not (is_success rc)
      then failed rc objects w
      else elim (s.first_value doc (codes "Result")) [
        | none ↦ failed bad_response objects w
        | some resstr ↦ elim (s.parse_buffer resstr) [
          | none ↦ failed bad_response objects w
          | some subdoc ↦ read_result nb_matched subdoc objects w
        ]
      ]

  -- `BrowseOrSearchAction`; its callers pass no NULL.
  pub browse_or_search_action : Bytes → Criteria → ℕ → ℕ → List DidlObject → W → Answer W
  unfolding read_answer int_to_string
  browse_or_search_action object_id criteria starting_index requested_count objects w =
      let action = if is_browse criteria then codes "Browse" else codes "Search" in
      read_answer
        (s.send_action action (arguments object_id criteria starting_index requested_count) w)
        objects

  -- The loop of `BrowseOrSearchAll`, with the number of retries that are left.
  pub retry_loop : Bytes → Criteria → ℕ → ℕ → List DidlObject → W → List DidlObject × W
  unfolding browse_or_search_action
  retry_loop object_id criteria zero nb_matched objects w = (objects, w)
  retry_loop object_id criteria (suc retries) nb_matched objects w =
      let size = length objects in
      let a = browse_or_search_action object_id criteria size (nb_matched - size) objects w in
      let rest = retry_loop object_id criteria retries a.nb_matched a.objects a.world in
      if not (ltb size nb_matched)
      then (objects, w)
      else if not (is_success a.rc) || a.nb_returned == 0
      then (a.objects, a.world)
      else rest

  -- `BrowseOrSearchAll`: the objects of the children, or NULL.
  pub browse_or_search_all : Bytes → Criteria → W → Option (List DidlObject) × W
  unfolding retry_loop
  browse_or_search_all object_id criteria w =
      let a = browse_or_search_action object_id criteria 0 0 [] w in
      let (objects, w') = retry_loop object_id criteria 2 a.nb_matched a.objects a.world in
      if is_success a.rc then (some objects, w') else (none, a.world)
