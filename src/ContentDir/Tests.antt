-- ===== src/ContentDir/Tests.antt =====
-- Examples for djmount/content_dir.c: a service with four items that gives one in each answer.
use djmount.Base.{
  ℕ, zero, suc, ◌+◌, ◌*◌, ◌≤◌, ◌<◌, true, false, ◌≡◌, refl, ap, subst, ◌⊎◌, List, [], ◌∷◌, ◌++◌,
  Option, none, some, arith, map,
}
use mathlib.Core.Option
use djmount.Base.Lists.{Bytes, length, take, drop, All, bytes_eq}
use djmount.Base.Tests.{if◌then◌else◌}
use djmount.Base.Int.{ℤ, pos, negsuc}
use djmount.Base.Text.{codes}
use djmount.Base.Decimal.{decimal, digits}
use djmount.Strings.{to_integer, strtoimax, signed_number, number, skip_spaces, scan_digits, clamp}
use djmount.DidlObject.{Element, DidlObject, create_object, object_of}
use djmount.Cache.{Cache, Entry, create_cache, get}
use djmount.Cache.Tidy.{Holds}
use djmount.Cache.Assoc.{Table, assoc, assoc-Laws}
use djmount.Cache.Create.{MakesEmpty}
use djmount.ContentDir.{
  browse_children, browse_metadata, search_for, Server, Answer, is_success, browse_or_search_action,
  browse_or_search_all, int_to_string, to_intmax, direct_children,
}
use djmount.ContentDir.Service.{
  cache_key, ContentDir, browse_or_search_with_cache, create_content_dir, browse,
}
use djmount.ContentDir.Action.{created}
use djmount.ContentDir.Whole.{response, browse_or_search_all_lem}
use djmount.ContentDir.Pages.{Serves, page_length, browse_or_search_all-pages}
use djmount.ContentDir.Requests.{browse_or_search_all-sent}
use djmount.ContentDir.Keys.{Confused, cache_key_injective}
use djmount.ContentDir.References.{IsCounted}
use djmount.ContentDir.Through.{IsFound, browse_or_search_with_cache_lem}
use djmount.ContentDir.Live.{Reach-results}
use djmount.ContentDir.Held.{new_service, then_step, request, add_held}

abbrev song : Bytes → Element
song id = record {
  id = some id;
  searchable = none;
  dc_title = some (codes "song");
  upnp_class = none;
}

abbrev songs : List Element
songs = song (codes "1") ∷ song (codes "2") ∷ song (codes "3") ∷ song (codes "4") ∷ []

abbrev as_count : ℤ → ℕ
as_count (pos n) = n
as_count (negsuc n) = 0

-- The number that one of the arguments spells.
abbrev argument : ℕ → List (Bytes × Bytes) → ℕ
argument i [] = 0
argument zero ((name, value) ∷ rest) = as_count (to_integer (some value) (pos 0))
argument (suc i) (a ∷ rest) = argument i rest

abbrev value_of : ℕ × ℕ → Bytes → Option Bytes
value_of (start, count) tag =
    if bytes_eq tag (codes "TotalMatches") then some (codes "4") else some (start ∷ count ∷ [])

abbrev parse : Bytes → Option (ℕ × ℕ)
parse (start ∷ count ∷ rest) = some (start, count)
parse other = none

abbrev answered : ℕ × ℕ → Bytes → List Element
answered (start, count) tag =
    if bytes_eq tag (codes "item") then take (page_length 1 count) (drop start songs) else []

-- Its state is the number of requests that it had.
abbrev one_by_one : Server ℕ (ℕ × ℕ)
one_by_one = record {
  send_action =
      λ action arguments w. ((pos 0, some (argument 3 arguments, argument 4 arguments)), suc w);
  first_value = value_of;
  parse_buffer = parse;
  elements = answered;
}

abbrev objects : List DidlObject
objects = created songs false

-- A number up to 4 that is sent is read again.
spelled : (n : ℕ) → n ≤ 4 → to_integer (some (int_to_string (to_intmax n))) (pos 0) ≡ pos n
unfolding to_integer strtoimax signed_number number skip_spaces scan_digits clamp int_to_string
    decimal digits
spelled zero h = refl
spelled (suc zero) h = refl
spelled (suc (suc zero)) h = refl
spelled (suc (suc (suc zero))) h = refl
spelled (suc (suc (suc (suc zero)))) h = refl
spelled (suc (suc (suc (suc (suc n))))) h = absurd (omega arith)

one_page : (count : ℕ) → page_length 1 count ≡ 1
one_page count = ground arith

one_song : (i : ℕ) → i ≤ 4 → created (take 1 (drop i songs)) false ≡ take 1 (drop i objects)
unfolding created create_object object_of
one_song zero h = refl
one_song (suc zero) h = refl
one_song (suc (suc zero)) h = refl
one_song (suc (suc (suc zero))) h = refl
one_song (suc (suc (suc (suc zero)))) h = refl
one_song (suc (suc (suc (suc (suc n))))) h = absurd (omega arith)

one_number : (i : ℕ) → i ≤ 4 → length (take 1 (drop i songs)) ≡ length (take 1 (drop i objects))
unfolding created create_object object_of
one_number zero h = refl
one_number (suc zero) h = refl
one_number (suc (suc zero)) h = refl
one_number (suc (suc (suc zero))) h = refl
one_number (suc (suc (suc (suc zero)))) h = refl
one_number (suc (suc (suc (suc (suc n))))) h = absurd (omega arith)

four : length objects ≡ 4
unfolding created create_object object_of
four = refl

total : to_integer (some (codes "4")) (pos 0) ≡ pos 4
unfolding to_integer strtoimax signed_number number skip_spaces scan_digits clamp
total = refl

one_by_one-answers :
    (i n w : ℕ)
    → i ≤ 4
    → n ≤ 4
    → (response one_by_one (codes "0") browse_children i n w).0 ≡ (pos 0, some (i, n))
one_by_one-answers i n w low few =
    let first : as_count (to_integer (some (int_to_string (to_intmax i))) (pos 0)) ≡ i =
      ap as_count (spelled i low) in
    let second : as_count (to_integer (some (int_to_string (to_intmax n))) (pos 0)) ≡ n =
      ap as_count (spelled n few) in
    cc

one_by_one-Serves : Serves one_by_one (codes "0") browse_children objects 1
unfolding created
one_by_one-Serves = record {
  page = λ i n. (i, n);
  result = λ i n. i ∷ n ∷ [];
  didl = λ i n. (i, n);
  answers = λ i n w low few.
      one_by_one-answers i n w (omega (arith, low, four)) (omega (arith, few, four));
  matches = λ i n. rw (total, four) refl;
  results = λ i n. refl;
  parses = λ i n. refl;
  children = λ i n low. rw (one_page n) (one_song i (omega (arith, four, low)));
  numbers = λ i n low. rw (one_page n) (omega (arith, one_number i (omega (arith, four, low))));
}

browse_or_search_all-pages_example :
    (browse_or_search_all one_by_one (codes "0") browse_children 7).0 ≡ some (take (3 * 1) objects)
browse_or_search_all-pages_example =
    browse_or_search_all-pages one_by_one (codes "0") browse_children objects 1 (omega arith)
      one_by_one-Serves 7

browse_or_search_all-sent_example :
    (8 ≤ (browse_or_search_all one_by_one (codes "0") browse_children 7).1)
    × ((browse_or_search_all one_by_one (codes "0") browse_children 7).1 ≤ 7 + 3)
browse_or_search_all-sent_example =
    browse_or_search_all-sent one_by_one (λ w. w) (λ action arguments w. refl) (codes "0")
      browse_children 7

browse_or_search_all_lem_example :
    ((is_success
          (Answer.rc (browse_or_search_action one_by_one (codes "0") browse_children 0 0 [] 7))
        ≡ false)
      × ((browse_or_search_all one_by_one (codes "0") browse_children 7).0 ≡ none))
    ⊎ ((os : List DidlObject) × (is_success
            (Answer.rc (browse_or_search_action one_by_one (codes "0") browse_children 0 0 [] 7))
          ≡ true)
        × ((browse_or_search_all one_by_one (codes "0") browse_children 7).0 ≡ some os)
        × ((more : List DidlObject) × (os
              ≡ Answer.objects
                  (browse_or_search_action one_by_one (codes "0") browse_children 0 0 [] 7)
                ++ more)))
browse_or_search_all_lem_example = browse_or_search_all_lem one_by_one (codes "0") browse_children 7

cache_key_injective_example :
    (codes "0" ≡ codes "0")
    × ((browse_metadata ≡ search_for (codes "BrowseMetadata"))
        ⊎ Confused browse_metadata (search_for (codes "BrowseMetadata")))
unfolding cache_key
cache_key_injective_example =
    cache_key_injective (codes "0") (codes "0") browse_metadata
      (search_for (codes "BrowseMetadata")) (omega arith) (omega arith) refl

assoc-MakesEmpty : MakesEmpty assoc
assoc-MakesEmpty size hasher comparator t e k =
    let same : [] ≡ t = cc in subst (λ x. assoc.hash_lookup k x ≡ none) same refl

abbrev blank : ℕ → Entry
blank p = record { key = []; rip = 0; cached_data = 0 }

abbrev new_cache : Cache Table
new_cache = record {
  size = 1024;
  max_age = 60;
  next_clean = 0;
  table = [];
  free_expired_data = true;
  nr_access = 0;
  nr_hit = 0;
  nr_expired = 0;
  entries = blank;
  next = 0;
  freed = [];
}

abbrev opened : ContentDir Table ℕ
opened = record {
  search_caps = none;
  cache = some new_cache;
  children = λ p. [];
  refs = λ p. 0;
  next = 1;
  world = 7;
}

create_content_dir_test : create_content_dir assoc 0 blank 7 ≡ some opened
unfolding create_content_dir create_cache
create_content_dir_test = refl

-- What the root has at 100 seconds.
abbrev at_100 : Option ℕ × ContentDir Table ℕ
at_100 =
    browse_or_search_with_cache assoc one_by_one (some (codes "0")) (some browse_children) 100
      opened

Reach-results_example :
    All (λ r. (0 < (at_100.1).refs (r.0)) × ((at_100.1).children (r.0) ≡ r.1)) (add_held [] at_100)
Reach-results_example =
    Reach-results assoc assoc-Laws one_by_one assoc-MakesEmpty (at_100.1) (add_held [] at_100) (
      then_step (new_service 0 blank 7 opened create_content_dir_test)
        (request (codes "0") browse_children 100 opened []))

no_key : (a : ℕ) (k : Bytes) → Holds assoc new_cache a k → ⊥
no_key a k (p, there, data_at) = cc

opened-IsCounted : IsCounted assoc (λ a. 0) new_cache opened
opened-IsCounted = record {
  cached = refl;
  sound = λ k p there. (let none_there : none ≡ some p = there in cc);
  empty = refl;
  unique = λ a k k' n x y. absurd (no_key a k x);
  owned = λ a k n x. absurd (no_key a k x);
  enough = λ a n. omega arith;
  below = λ a k n x. absurd (no_key a k x);
  unused = λ a low. refl;
  positive = omega arith;
}

browse_or_search_with_cache_lem_example :
    IsFound assoc assoc-Laws one_by_one (codes "0") browse_children 100 new_cache opened at_100
browse_or_search_with_cache_lem_example =
    browse_or_search_with_cache_lem assoc assoc-Laws one_by_one (codes "0") browse_children 100
      (λ a. 0) new_cache opened opened-IsCounted

-- Sixty seconds later nothing is asked of the service.
browse_again_test :
    (browse assoc one_by_one (some (codes "0")) direct_children 160 (at_100.1)).0 ≡ some 1
unfolding browse browse_or_search_with_cache get
browse_again_test = refl

browse_later_test :
    (browse assoc one_by_one (some (codes "0")) direct_children 161 (at_100.1)).1.world ≡ 13
unfolding browse browse_or_search_with_cache get to_integer decimal digits skip_spaces strtoimax
    scan_digits clamp create_object
browse_later_test = refl

-- A service that always gives three items from the start asked for, the second of which has no identifier.
abbrev three : List Element
three = song (codes "1") ∷ (record (song (codes "2")) { id = none }) ∷ song (codes "3") ∷ []

abbrev with_nameless : Server ℕ (ℕ × ℕ)
with_nameless = record one_by_one {
  first_value =
      λ d tag. if bytes_eq tag (codes "TotalMatches") then some (codes "3") else value_of d tag;
  elements = λ d tag. if bytes_eq tag (codes "item") then drop (d.0) three else [];
}

-- The retry asks for the objects from the second on, and gets the third one again.
third_again_test :
    Option.map
      (λ os. map DidlObject.id os)
      (browse_or_search_all with_nameless (codes "0") browse_children 0).0
    ≡ some (codes "1" ∷ codes "3" ∷ codes "3" ∷ [])
unfolding browse_or_search_all to_integer decimal digits skip_spaces strtoimax scan_digits clamp
    create_object
third_again_test = refl
