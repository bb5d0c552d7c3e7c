-- ===== src/Cache.antt =====
-- djmount/cache.c with CACHE_FIXED_SIZE 0: a cache over a hash table, whose entries expire.
--
-- An entry is known by its address, a number, and the memory of the entries is a function from it. Times are in
-- seconds, and a `time_t` holds all of them. The cache is not NULL, and talloc is taken to succeed; the hash
-- table may refuse an entry.
pub mod Rounds
pub mod Expire
pub mod View
pub mod Hit
pub mod New
pub mod Get
pub mod Tidy
pub mod Freed
pub mod Create
pub mod Assoc
mod Tests
use djmount.Base.{
  ℕ, suc, ◌+◌, ◌-◌, ◌%◌, ◌^◌, Bool, true, false, ◌&&◌, ◌||◌, ◌≡◌, List, [], ◌∷◌, Option, none, some,
}
use mathlib.Core.List.{Memᴰ}
use djmount.Base.Lists.{Bytes, length, bytes_eq}
use djmount.Base.Tests.{ltb, leb, ◌==◌, if◌then◌else◌}
use djmount.Strings.{hash}

-- `CACHE_CLEAN_PERIOD`
abbrev pub cache_clean_period : ℕ
cache_clean_period = 10

-- `Entry`; its `data` is `cached_data`, where 0 is NULL.
pub record Entry : Type 0 where
  pub key : Bytes
  pub rip : ℕ
  pub cached_data : ℕ

-- `cache_hasher`
pub cache_hasher : Entry → ℕ → ℕ
cache_hasher ce table_size = hash ce.key % table_size

-- `cache_comparator`
pub cache_comparator : Entry → Entry → Bool
cache_comparator ce1 ce2 = bytes_eq ce1.key ce2.key

-- gnulib's hash table, of the addresses of entries. It tells two entries apart by their keys, as `cache_hasher` and
-- `cache_comparator` do, and so the key stands for the entry that is searched, inserted or deleted.
pub record HashTable (T : Type 0) : Type 0 where
  pub hash_initialize : ℕ → (Entry → ℕ → ℕ) → (Entry → Entry → Bool) → Option T
  pub hash_lookup : Bytes → T → Option ℕ
  -- none where there is no memory
  pub hash_insert : Bytes → ℕ → T → Option T
  -- the entry that was deleted, if there was one
  pub hash_delete : Bytes → T → Option ℕ × T
  pub hash_get_entries : T → List ℕ

-- What the documentation of the hash table promises.
pub record Laws {T : Type 0} (h : HashTable T) : Type 0 where
  pub lookup-insert :
      (key : Bytes) (p : ℕ) (t t' : T)
      → h.hash_lookup key t ≡ none
      → h.hash_insert key p t ≡ some t'
      → (k : Bytes) → h.hash_lookup k t' ≡ (if bytes_eq key k then some p else h.hash_lookup k t)
  pub lookup-delete :
      (key : Bytes) (t : T) (k : Bytes)
      → h.hash_lookup k (h.hash_delete key t).1
        ≡ (if bytes_eq key k then none else h.hash_lookup k t)
  pub deleted : (key : Bytes) (t : T) → (h.hash_delete key t).0 ≡ h.hash_lookup key t
  pub listed :
      (key : Bytes) (t : T) (p : ℕ) → h.hash_lookup key t ≡ some p → Memᴰ p (h.hash_get_entries t)
  pub found :
      (t : T) (p : ℕ)
      → Memᴰ p (h.hash_get_entries t)
      → (key : Bytes) × (h.hash_lookup key t ≡ some p)

-- `struct _Cache`, with the memory of the entries, the next free address, and what `free_expired_data` was called with,
-- the last call first.
pub record Cache (T : Type 0) : Type 0 where
  pub size : ℕ
  pub max_age : ℕ
  pub next_clean : ℕ
  pub table : T
  -- whether `free_expired_data` is set
  pub free_expired_data : Bool
  pub nr_access : ℕ
  pub nr_hit : ℕ
  pub nr_expired : ℕ
  pub entries : ℕ → Entry
  pub next : ℕ
  pub freed : List (Bytes × ℕ)

abbrev pub store : (ℕ → Entry) → ℕ → Entry → ℕ → Entry
store f p e q = if p == q then e else f q

-- An `int` that goes up by one.
abbrev pub count : ℕ → ℕ
count n = (n + 1) % 2 ^ 32

module _ {T : Type 0} where
  -- `if (cache->free_expired_data) cache->free_expired_data (ce->key, ce->data);`
  pub free_data : Entry → Cache T → Cache T
  free_data ce c =
      if c.free_expired_data then record c { freed = (ce.key, ce.cached_data) ∷ c.freed } else c

  -- A store through the pointer that `Cache_Get` returned.
  abbrev pub set_data : ℕ → ℕ → Cache T → Cache T
  set_data p v c = record c {
    entries = store c.entries p (record (c.entries p) { cached_data = v });
  }

module _ {T : Type 0} (h : HashTable T) where
  -- `cache_get`: whether it is a hit, and the address of the entry. A new entry holds its key, and else what the memory
  -- held.
  pub cache_get : Bytes → Cache T → Option (Bool × ℕ) × Cache T
  cache_get key c =
      let p = c.next in
      let made = record c {
        entries = store c.entries p (record (c.entries p) { key = key });
        next = suc p;
      } in
      elim (h.hash_lookup key c.table) [
        | some ce ↦ (some (true, ce), c)
        | none ↦ elim (h.hash_insert key p c.table) [
          | none ↦ (none, made)
          | some t ↦ (some (false, p), record made { table = t })
        ]
      ]

  -- A round of the loop of `cache_expire_entries`; the memory of an entry that is freed is left alone.
  pub expire_entry : ℕ → ℕ → Cache T → Cache T
  unfolding free_data
  expire_entry now p c =
      let ce = c.entries p in
      let (gone, t) = h.hash_delete ce.key c.table in
      if ltb ce.rip now
      then elim gone [
        | none ↦ record c { table = t }
        | some q ↦ free_data (c.entries q) (record c { table = t })
      ]
      else c

  -- The loop of `cache_expire_entries` over the entries that it got first.
  pub expire_loop : ℕ → List ℕ → Cache T → Cache T
  unfolding expire_entry
  expire_loop now [] c = c
  expire_loop now (p ∷ ps) c = expire_loop now ps (expire_entry now p c)

  -- `cache_expire_entries`
  pub cache_expire_entries : ℕ → Cache T → Cache T
  unfolding expire_loop
  cache_expire_entries now c =
      if ltb 0 c.max_age && ltb c.next_clean now
      then record (expire_loop now (h.hash_get_entries c.table) c) {
        next_clean = now + cache_clean_period;
      }
      else c

  -- `ce->rip = now + cache->max_age; ce->data = NULL;`
  abbrev pub renew : ℕ → ℕ → Cache T → Cache T
  renew now p c =
      let ce = record (c.entries p) { rip = now + c.max_age; cached_data = 0 } in
      record c { entries = store c.entries p ce }

  -- `Cache_Get` for an entry that was in the table.
  pub get_hit : ℕ → ℕ → Cache T → Cache T
  unfolding free_data
  get_hit now p c =
      let ce = c.entries p in
      if c.max_age == 0 || leb now ce.rip
      then record c { nr_hit = count c.nr_hit }
      else renew now p (free_data ce (record c { nr_expired = count c.nr_expired }))

  -- `Cache_Get`, once `cache_get` has given an entry.
  pub got : ℕ → Option (Bool × ℕ) × Cache T → Option ℕ × Cache T
  unfolding get_hit cache_expire_entries
  got now (none, c) = (none, c)
  got now (some (true, p), c) = (some p, get_hit now p c)
  got now (some (false, p), c) = (some p, cache_expire_entries now (renew now p c))

  -- `Cache_Get` at the time now: the address of the entry whose data the caller may read and set.
  unfoldable pub get : Option Bytes → ℕ → Cache T → Option ℕ × Cache T
  unfolding cache_get got
  get none now c = (none, c)
  get (some key) now c = got now (cache_get key (record c { nr_access = count c.nr_access }))

  -- `Cache_GetNrEntries`
  pub get_nr_entries : Cache T → ℕ
  get_nr_entries c = length (h.hash_get_entries c.table)

  -- `_Cache_PurgeExpiredEntries` at the time now, which is past 0
  pub purge_expired_entries : ℕ → Cache T → Cache T
  unfolding cache_expire_entries
  purge_expired_entries now c = cache_expire_entries now (record c { next_clean = now - 1 })

  -- `Cache_Create`; `next` and `entries` are the free memory.
  unfoldable pub create_cache : ℕ → ℕ → Bool → ℕ → (ℕ → Entry) → Option (Cache T)
  unfolding cache_hasher cache_comparator
  create_cache size max_age free next entries =
      elim (h.hash_initialize size cache_hasher cache_comparator) [
        | none ↦ none
        | some t ↦
            if ltb size 1
            then none
            else some (record {
              size = size;
              max_age = max_age;
              next_clean = 0;
              table = t;
              free_expired_data = free;
              nr_access = 0;
              nr_hit = 0;
              nr_expired = 0;
              entries = entries;
              next = next;
              freed = [];
            })
      ]
