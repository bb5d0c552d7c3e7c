-- ===== src/Cache/Create.antt =====
-- djmount/cache.c: a new cache.
use djmount.Base.{ℕ, Bool, ◌≡◌, refl, subst, inl, inr, [], none, some}
use djmount.Base.Lists.{Bytes}
use djmount.Base.Tests.{ltb, Bool-cases, Option-cases}
use djmount.Cache.{Entry, HashTable, Cache, cache_hasher, cache_comparator, create_cache}

-- A hash table that is made holds nothing.
abbrev pub MakesEmpty : {T : Type 0} → HashTable T → Type 0
MakesEmpty h =
    (size : ℕ) (hasher : Entry → ℕ → ℕ) (comparator : Entry → Entry → Bool) (t : _)
    → h.hash_initialize size hasher comparator ≡ some t
    → (k : Bytes) → h.hash_lookup k t ≡ none

-- A new cache has no entry, and has freed nothing.
pub create_cache-empty :
    {T : Type 0} (h : HashTable T)
    → MakesEmpty h
    → (size max_age : ℕ) (free : Bool) (next : ℕ) (entries : ℕ → Entry) (c : Cache T)
    → create_cache h size max_age free next entries ≡ some c
    → ((k : Bytes) → h.hash_lookup k c.table ≡ none) × (c.freed ≡ []) × (c.max_age ≡ max_age)
unfolding create_cache
create_cache-empty h fresh size max_age free next entries c e =
    elim (Option-cases (h.hash_initialize size cache_hasher cache_comparator)) [
      | inl refused ↦ let never : none ≡ some c = rw (refused, create_cache) at e in cc
      | inr (t, made) ↦ elim (Bool-cases (ltb size 1)) [
        | inl small ↦ let never : none ≡ some c = rw (made, small, create_cache) at e in cc
        | inr large ↦
            let filled : Cache _ = record {
              size = size;
              max_age = max_age;
              next_clean = 0;
              table = t;
              free_expired_data = free;
              nr_access = 0;
              nr_hit = 0;
              nr_expired = 0;
              entries = entries;
              next = next;
              freed = [];
            } in
            let new : some filled ≡ some c = rw (made, large, create_cache) at e in
            let same : filled ≡ c = cc in
            let IsNew : Cache _ → Type 0 = λ x.
              ((k : Bytes) → h.hash_lookup k x.table ≡ none)
              × (x.freed ≡ [])
              × (x.max_age ≡ max_age) in
            subst IsNew same (fresh size cache_hasher cache_comparator t made, refl, refl)
      ]
    ]
