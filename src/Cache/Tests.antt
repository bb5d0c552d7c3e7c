-- ===== src/Cache/Tests.antt =====
-- Examples for djmount/cache.c: the hash table is an association list that takes every entry.
use djmount.Base.{ℕ, true, ◌≡◌, refl, ◌⊎◌, inl, inr, [], ◌∷◌, none, some, arith}
use mathlib.Core.Option
use djmount.Base.Lists.{bytes_eq, bytes_eq_sound}
use djmount.Base.Tests.{Bool-cases}
use djmount.Base.Text.{codes}
use djmount.Cache.{
  Entry, Cache, set_data, cache_expire_entries, get, got, cache_get, get_hit, create_cache,
  get_nr_entries, purge_expired_entries, expire_loop, expire_entry, free_data,
}
use djmount.Cache.Rounds.{IsSound}
use djmount.Cache.Expire.{unless_expired, cache_expire_entries-lookup}
use djmount.Cache.View.{IsGot}
use djmount.Cache.Get.{get_lem, get-set_data}
use djmount.Cache.Assoc.{Table, assoc, assoc-Laws, lookup}

-- One entry, for "a", that expires at 20.
abbrev one_entry : Cache Table
one_entry = record {
  size = 100;
  max_age = 10;
  next_clean = 5;
  table = (codes "a", 0) ∷ [];
  free_expired_data = true;
  nr_access = 1;
  nr_hit = 0;
  nr_expired = 0;
  entries = λ p. record { key = codes "a"; rip = 20; cached_data = 7 };
  next = 1;
  freed = [];
}

one_entry-IsSound : IsSound assoc one_entry
one_entry-IsSound k p e = elim (Bool-cases (bytes_eq (codes "a") k)) [
  | inl same ↦
      let at : some 0 ≡ some p = rw same at e in
      let zero : 0 ≡ p = cc in (bytes_eq_sound (codes "a") k same, omega arith)
  | inr other ↦ let never : none ≡ some p = rw other at e in cc
]

get_lem_example :
    (((get assoc (some (codes "b")) 30 one_entry).0 ≡ none)
      × (lookup (codes "b") one_entry.table ≡ none)
      × (assoc.hash_insert (codes "b") 1 one_entry.table ≡ none))
    ⊎ ((p : ℕ) × ((get assoc (some (codes "b")) 30 one_entry).0 ≡ some p)
        × IsGot assoc (codes "b") 30 one_entry p (get assoc (some (codes "b")) 30 one_entry).1)
get_lem_example = get_lem assoc assoc-Laws (codes "b") 30 one_entry one_entry-IsSound

cache_expire_entries-lookup_example :
    lookup (codes "a") (cache_expire_entries assoc 21 one_entry).table
    ≡ unless_expired 21 one_entry (lookup (codes "a") one_entry.table)
cache_expire_entries-lookup_example =
    cache_expire_entries-lookup assoc assoc-Laws 21 one_entry one_entry-IsSound (codes "a")

get-set_data_example :
    ((get assoc
        (some (codes "a"))
        12
        (set_data 0 9 (get assoc (some (codes "a")) 11 one_entry).1)).0
      ≡ some 0)
    × (Entry.cached_data (
          (get assoc
              (some (codes "a"))
              12
              (set_data 0 9 (get assoc (some (codes "a")) 11 one_entry).1)).1.entries
            0)
        ≡ 9)
unfolding get got cache_get get_hit
get-set_data_example =
    get-set_data assoc assoc-Laws (codes "a") 11 12 9 0 one_entry one_entry-IsSound refl refl

create_cache_test :
    Option.map (get_nr_entries assoc) (create_cache assoc 100 10 true 0 one_entry.entries) ≡ some 0
unfolding create_cache get_nr_entries
create_cache_test = refl

create_cache_empty_test : create_cache assoc 0 10 true 0 one_entry.entries ≡ none
unfolding create_cache
create_cache_empty_test = refl

purge_expired_entries_test : (purge_expired_entries assoc 21 one_entry).freed ≡ (codes "a", 7) ∷ []
unfolding purge_expired_entries cache_expire_entries expire_loop expire_entry free_data
purge_expired_entries_test = refl
