-- ===== src/ContentDir/Service.antt =====
-- djmount/content_dir.c: the results that share their children through the cache.
use djmount.Base.{ℕ, suc, ◌+◌, ◌-◌, true, not, List, [], ◌∷◌, ◌++◌, Option, none, some}
use djmount.Base.Lists.{Bytes}
use djmount.Base.Tests.{◌==◌, if◌then◌else◌}
use djmount.Base.Text.{codes}
use djmount.DidlObject.{DidlObject}
use djmount.Cache
use djmount.Cache.{HashTable, Cache, Entry, set_data}
use djmount.ContentDir.{
  Criteria, browse_metadata, browse_children, search_for, BrowseFlag, metadata, direct_children,
  criteria_text, is_success, Server, browse_or_search_all,
}

-- A `ContentDir` with the memory of `Children`: an address that is not 0 leads to objects, and to the number of
-- references that keep them. `next` is the next free address, and `world` the state of the service.
pub record ContentDir (T W : Type 0) : Type 0 where
  pub search_caps : Option Bytes
  pub cache : Option (Cache T)
  pub children : ℕ → List DidlObject
  pub refs : ℕ → ℕ
  pub next : ℕ
  pub world : W

-- The key of an object and a criteria in the cache.
unfoldable pub cache_key : Bytes → Criteria → Bytes
cache_key object_id browse_children = object_id
cache_key object_id browse_metadata = object_id ++ 9 ∷ criteria_text browse_metadata
cache_key object_id (search_for c) = object_id ++ 9 ∷ c

-- A function with one value replaced.
abbrev pub at {ℓ} : {A : Type ℓ} → (ℕ → A) → ℕ → A → ℕ → A
at f p v q = if p == q then v else f q

module _ {T W : Type 0} where
  -- `talloc_free` of a child, which gives up one reference; NULL is left alone.
  abbrev pub talloc_free : ℕ → ContentDir T W → ContentDir T W
  talloc_free p cds = if p == 0 then cds else record cds { refs = at cds.refs p (cds.refs p - 1) }

  -- `talloc_increase_ref_count`
  abbrev pub add_ref : ℕ → ContentDir T W → ContentDir T W
  add_ref p cds = record cds { refs = at cds.refs p (cds.refs p + 1) }

  -- `cache_free_expired_data`, for each of its calls
  unfoldable pub free_expired : List (Bytes × ℕ) → ContentDir T W → ContentDir T W
  free_expired [] cds = cds
  free_expired ((key, p) ∷ ps) cds = talloc_free p (free_expired ps cds)

  -- `DestroyResult`, of the result with the children p
  unfoldable pub destroy_result : ℕ → ContentDir T W → ContentDir T W
  destroy_result p cds = talloc_free p cds

  -- New children, with one reference.
  abbrev pub new_children : List DidlObject → ContentDir T W → ContentDir T W
  new_children objects cds = record cds {
    children = at cds.children cds.next objects;
    refs = at cds.refs cds.next 1;
    next = suc cds.next;
  }

  -- The children for what `BrowseOrSearchAll` returned, 0 for NULL.
  abbrev pub allocate : Option (List DidlObject) × W → ContentDir T W → ℕ × ContentDir T W
  allocate (none, w) cds = (0, record cds { world = w })
  allocate (some objects, w) cds = (cds.next, new_children objects (record cds { world = w }))

module _ {T W D : Type 0} (h : HashTable T) (s : Server W D) where
  -- `BrowseOrSearchAll` with the allocation of its result.
  unfoldable pub browse_new : Bytes → Criteria → ContentDir T W → ℕ × ContentDir T W
  unfolding browse_or_search_all
  browse_new object_id criteria cds =
      allocate (browse_or_search_all s object_id criteria cds.world) cds

  -- What `BrowseOrSearchWithCache` does with the entry p of its cache c.
  unfoldable pub use_entry : Bytes → Criteria → ℕ → Cache T → ContentDir T W → ℕ × ContentDir T W
  unfolding browse_new
  use_entry object_id criteria p c cds =
      let hit = Entry.cached_data (c.entries p) in
      let (children, cds') = browse_new object_id criteria cds in
      if not (hit == 0)
      then (hit, cds)
      else (children, record cds' { cache = some (set_data p children c) })

  -- The reference to the children that are returned, if there are any; `none` is NULL.
  unfoldable pub referenced : ℕ × ContentDir T W → Option ℕ × ContentDir T W
  referenced (p, cds) = if p == 0 then (none, cds) else (some p, add_ref p cds)

  -- `BrowseOrSearchWithCache`, after `Cache_Get` with the callbacks that it made.
  unfoldable pub with_entry :
      Bytes → Criteria → Option ℕ × Cache T → ContentDir T W → Option ℕ × ContentDir T W
  unfolding use_entry referenced free_expired
  with_entry object_id criteria (cp, c) cds =
      let c' = record c { freed = [] } in
      let settled = record (free_expired c.freed cds) { cache = some c' } in
      elim cp [
        | none ↦ (none, settled)
        | some p ↦ referenced (use_entry object_id criteria p c' settled)
      ]

  -- `BrowseOrSearchWithCache`, with or without a cache. Without one the result owns its children alone.
  unfoldable pub through :
      Option (Cache T) → Bytes → Criteria → ℕ → ContentDir T W → Option ℕ × ContentDir T W
  unfolding with_entry browse_new cache_key
  through none object_id criteria now cds =
      let (p, cds') = browse_new object_id criteria cds in
      if p == 0 then (none, cds') else (some p, cds')
  through (some c) object_id criteria now cds =
      with_entry object_id criteria (Cache.get h (some (cache_key object_id criteria)) now c) cds

  -- `BrowseOrSearchWithCache` at the time now: the children of the result, or NULL.
  unfoldable pub browse_or_search_with_cache :
      Option Bytes → Option Criteria → ℕ → ContentDir T W → Option ℕ × ContentDir T W
  unfolding through
  browse_or_search_with_cache none criteria now cds = (none, cds)
  browse_or_search_with_cache (some object_id) none now cds = (none, cds)
  browse_or_search_with_cache (some object_id) (some criteria) now cds =
      through cds.cache object_id criteria now cds

  -- `ContentDir_Browse`
  unfoldable pub browse : Option Bytes → BrowseFlag → ℕ → ContentDir T W → Option ℕ × ContentDir T W
  unfolding browse_or_search_with_cache
  browse object_id flag now cds =
      let criteria : Criteria = elim flag [
        | metadata ↦ browse_metadata
        | direct_children ↦ browse_children
      ] in
      browse_or_search_with_cache object_id (some criteria) now cds

  -- `ContentDir_Search`
  pub search_objects : Option Bytes → Option Bytes → ℕ → ContentDir T W → Option ℕ × ContentDir T W
  unfolding browse_or_search_with_cache
  search_objects object_id none now cds = browse_or_search_with_cache object_id none now cds
  search_objects object_id (some c) now cds =
      browse_or_search_with_cache object_id (some (search_for c)) now cds

  -- `ContentDir_GetSearchCapabilities`
  unfoldable pub get_search_capabilities : ContentDir T W → Option Bytes × ContentDir T W
  get_search_capabilities cds = elim (cds.search_caps) [
    | some caps ↦ (some caps, cds)
    | none ↦
        let ((rc, doc), w) = s.send_action (codes "GetSearchCapabilities") [] cds.world in
        let caps : Option Bytes = elim doc [
          | none ↦ none
          | some d ↦ if is_success rc then s.first_value d (codes "SearchCaps") else none
        ] in
        (caps, record cds { search_caps = caps; world = w })
  ]

-- `CACHE_SIZE` and `CACHE_TIMEOUT`
abbrev pub cache_size : ℕ
cache_size = 1024

abbrev pub cache_timeout : ℕ
cache_timeout = 60

-- `ContentDir_Create`, of a service that could be created; `next` and `entries` are the free memory of the cache.
unfoldable pub create_content_dir :
    {T W : Type 0} → HashTable T → ℕ → (ℕ → Entry) → W → Option (ContentDir T W)
create_content_dir h next entries w =
    elim (Cache.create_cache h cache_size cache_timeout true next entries) [
      | none ↦ none
      | some c ↦ some (record {
        search_caps = none;
        cache = some c;
        children = λ p. [];
        refs = λ p. 0;
        next = 1;
        world = w;
      })
    ]
