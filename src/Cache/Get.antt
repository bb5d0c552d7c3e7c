-- ===== src/Cache/Get.antt =====
-- djmount/cache.c: what `Cache_Get` finds.
use djmount.Base.{
  ℕ, suc, true, false, ◌||◌, ◌≡◌, refl, sym, ap, ◌∙◌, subst, ◌⊎◌, inl, inr, Option, none, some,
}
use djmount.Base.Lists.{Bytes}
use djmount.Base.Tests.{leb, ◌==◌, Option-cases}
use djmount.Cache.{
  Entry, HashTable, Laws, Cache, store, count, renew, cache_get, get_hit, cache_expire_entries, got,
  get, set_data,
}
use djmount.Cache.Rounds.{IsSound}
use djmount.Cache.View.{store_at, store_key, IsGot}
use djmount.Cache.Hit.{get_hit-IsGot}
use djmount.Cache.New.{new-IsGot}

module _ {T : Type 0} (h : HashTable T) (laws : Laws h) where
  pub get_found :
      (key : Bytes) (now : ℕ) (c : Cache T) (p : ℕ)
      → h.hash_lookup key c.table ≡ some p
      → get h (some key) now c
        ≡ (some p, get_hit h now p (record c { nr_access = count c.nr_access }))
  unfolding get got cache_get
  get_found key now c p there =
      let c1 = record c { nr_access = count c.nr_access } in
      let run : cache_get h key c1 ≡ (some (true, p), c1) = rw (there, cache_get) refl in
      ap (got h now) run

  -- The memory of a new entry.
  abbrev pub made : Bytes → Cache T → Cache T
  made key c = record c {
    nr_access = count c.nr_access;
    entries = store c.entries c.next (record (c.entries c.next) { key = key });
    next = suc c.next;
  }

  pub get_refused :
      (key : Bytes) (now : ℕ) (c : Cache T)
      → h.hash_lookup key c.table ≡ none
      → h.hash_insert key c.next c.table ≡ none
      → get h (some key) now c ≡ (none, made key c)
  unfolding get got cache_get
  get_refused key now c missing refused =
      let c1 = record c { nr_access = count c.nr_access } in
      let run : cache_get h key c1 ≡ (none, made key c) = rw (missing, refused, cache_get) refl in
      ap (got h now) run

  pub get_new :
      (key : Bytes) (now : ℕ) (c : Cache T) (t : T)
      → h.hash_lookup key c.table ≡ none
      → h.hash_insert key c.next c.table ≡ some t
      → get h (some key) now c ≡ (
        some c.next,
        cache_expire_entries h now (renew h now c.next (record (made key c) { table = t })),
      )
  unfolding get got cache_get
  get_new key now c t missing inserted =
      let c1 = record c { nr_access = count c.nr_access } in
      let run : cache_get h key c1 ≡ (some (false, c.next), record (made key c) { table = t }) =
        rw (missing, inserted, cache_get) refl in
      ap (got h now) run

  -- `Cache_Get`, in a sound cache: where the key has no entry and the hash table takes none, it returns NULL. Else it
  -- returns the entry of the key: the valid one that is there, or one with no data and a new date. The other entries
  -- stay, but for expired ones where a new entry is made and the last removal is long enough ago. The entry that is
  -- returned is in the table, and the cache is sound.
  pub get_lem :
      (key : Bytes) (now : ℕ) (c : Cache T)
      → IsSound h c
      → (((get h (some key) now c).0 ≡ none)
          × (h.hash_lookup key c.table ≡ none)
          × (h.hash_insert key c.next c.table ≡ none))
        ⊎ ((p : ℕ) × ((get h (some key) now c).0 ≡ some p)
            × IsGot h key now c p (get h (some key) now c).1)
  get_lem key now c sound =
      let c1 = record c { nr_access = count c.nr_access } in
      let Result : Option ℕ × Cache T → Type 0 = λ r.
        ((r.0 ≡ none)
          × (h.hash_lookup key c.table ≡ none)
          × (h.hash_insert key c.next c.table ≡ none))
        ⊎ ((p : ℕ) × (r.0 ≡ some p) × IsGot h key now c p r.1) in
      elim (Option-cases (h.hash_lookup key c.table)) [
        | inr (p, there) ↦
            subst Result (sym (get_found key now c p there))
              (inr (p, refl, get_hit-IsGot h laws key now p c1 sound there))
        | inl missing ↦ elim (Option-cases (h.hash_insert key c.next c.table)) [
          | inl refused ↦
              subst Result (sym (get_refused key now c missing refused))
                (inl (refl, missing, refused))
          | inr (t, inserted) ↦
              subst Result (sym (get_new key now c t missing inserted))
                (inr (c.next, refl, new-IsGot h laws key now c1 t sound missing inserted))
        ]
      ]

  pub set_data-IsSound : (p v : ℕ) (c : Cache T) → IsSound h c → IsSound h (set_data p v c)
  set_data-IsSound p v c sound k q there =
      let (own, used) = sound k q there in
      (store_key c.entries p (record (c.entries p) { cached_data = v }) q refl ∙ own, used)

  get_hit-valid :
      (now p : ℕ) (c : Cache T)
      → (c.max_age == 0 || leb now (Entry.rip (c.entries p))) ≡ true
      → (get_hit h now p c).entries ≡ c.entries
  unfolding get_hit
  get_hit-valid now p c valid = rw (valid, get_hit) refl

  -- What a caller writes through the pointer that `Cache_Get` returned, in a sound cache, it reads again through the
  -- next `Cache_Get` of the same key, at the same address, as long as the entry is valid.
  pub get-set_data :
      (key : Bytes) (now later v p : ℕ) (c : Cache T)
      → IsSound h c
      → (get h (some key) now c).0 ≡ some p
      → ((get h (some key) now c).1.max_age == 0
          || leb later (Entry.rip ((get h (some key) now c).1.entries p)))
        ≡ true
      → ((get h (some key) later (set_data p v (get h (some key) now c).1)).0 ≡ some p)
        × (Entry.cached_data
              ((get h (some key) later (set_data p v (get h (some key) now c).1)).1.entries p)
            ≡ v)
  get-set_data key now later v p c sound first valid =
      let c1 = (get h (some key) now c).1 in
      let e : Entry = record (c1.entries p) { cached_data = v } in
      elim (get_lem key now c sound) [
        | inl (failed, missing, refused) ↦ let never : none ≡ some p = sym failed ∙ first in cc
        | inr (q, at, got_it) ↦
            let same : some q ≡ some p = sym at ∙ first in
            let same' : q ≡ p = cc in
            let there : h.hash_lookup key c1.table ≡ some p = got_it.0 ∙ ap some same' in
            let c2 = set_data p v c1 in
            let run = get_found key later c2 p there in
            let written : c2.entries p ≡ e = store_at c1.entries p e in
            let valid' : (c2.max_age == 0 || leb later (Entry.rip (c2.entries p))) ≡ true =
              subst (λ x. (c1.max_age == 0 || leb later (Entry.rip x)) ≡ true) (sym written)
                valid in
            let kept =
              get_hit-valid later p (record c2 { nr_access = count c2.nr_access }) valid' in
            (
              ap (λ r. r.0) run,
              ap (λ r. Entry.cached_data (r.1.entries p)) run
                  ∙ ap (λ f. Entry.cached_data (f p)) kept
                  ∙ ap (λ x. Entry.cached_data x) written,
            )
      ]
