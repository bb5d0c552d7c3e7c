-- ===== src/Cache/Hit.antt =====
-- djmount/cache.c: `Cache_Get` for a key that has an entry.
use djmount.Base.{ℕ, ◌+◌, false, ◌||◌, ◌≡◌, ◌≢◌, refl, sym, ap, ◌∙◌, inl, inr, some}
use djmount.Base.Lists.{Bytes}
use djmount.Base.Tests.{leb, ◌==◌, Bool-cases, Option-cases}
use djmount.Cache.{Entry, HashTable, Laws, Cache, store, count, renew, free_data, get_hit}
use djmount.Cache.Rounds.{IsSound, free_data-IsPurge, free_data-table}
use djmount.Cache.View.{store_at, store_other, store_key, view, looked_up, other_entry, IsGot}

module _ {T : Type 0} (h : HashTable T) (laws : Laws h) where
  -- Two keys lead to two addresses.
  apart :
      (c : Cache T) (j k : Bytes) (p q : ℕ)
      → IsSound h c
      → h.hash_lookup j c.table ≡ some p
      → h.hash_lookup k c.table ≡ some q
      → j ≢ k
      → p ≢ q
  apart c j k p q sound there there' ne e =
      ne (sym (sound j p there).0 ∙ ap (λ i. Entry.key (c.entries i)) e ∙ (sound k q there').0)

  -- Only the entry at the address p has changed, and it has expired.
  renewed-IsGot :
      (key : Bytes) (now p : ℕ) (c c' : Cache T)
      → IsSound h c
      → h.hash_lookup key c.table ≡ some p
      → (c.max_age == 0 || leb now (Entry.rip (c.entries p))) ≡ false
      → c'.table ≡ c.table
      → c'.entries
        ≡ store c.entries p (record (c.entries p) { rip = now + c.max_age; cached_data = 0 })
      → c'.next ≡ c.next
      → IsGot h key now c p c'
  renewed-IsGot key now p c c' sound there expired table entries next =
      let entry : Entry = record (c.entries p) { rip = now + c.max_age; cached_data = 0 } in
      let changed : c'.entries p ≡ looked_up h now c key (view h c key) =
        rw (entries, there, expired) (store_at c.entries p entry) in
      let others : (k : Bytes)
          → key ≢ k
          → view h c' k ≡ other_entry h now c (view h c key) (view h c k) =
        λ k ne. elim (Option-cases (h.hash_lookup k c.table)) [
          | inl missing ↦ rw (table, missing, there) refl
          | inr (q, there') ↦
              rw (table, entries, there, there')
                (ap some
                  (store_other c.entries p entry q (apart c key k p q sound there there' ne)))
        ] in
      let sound' : IsSound h c' = λ k q e.
        let (own, used) = sound k q (ap (h.hash_lookup k) (sym table) ∙ e) in
        rw (entries, next) (store_key c.entries p entry q refl ∙ own, used) in
      (rw table there, changed, others, sound')

  pub get_hit-IsGot :
      (key : Bytes) (now p : ℕ) (c : Cache T)
      → IsSound h c
      → h.hash_lookup key c.table ≡ some p
      → IsGot h key now c p (get_hit h now p c)
  unfolding get_hit
  get_hit-IsGot key now p c sound there =
      elim (Bool-cases (c.max_age == 0 || leb now (Entry.rip (c.entries p)))) [
        | inl valid ↦
            rw (valid, get_hit) (there, rw (there, valid) refl, λ k ne. rw there refl, sound)
        | inr expired ↦
            let c1 = record c { nr_expired = count c.nr_expired } in
            let ce = c.entries p in
            let same = free_data-IsPurge h ce c1 in
            let table : (free_data ce c1).table ≡ c.table = free_data-table h ce c1 in
            let entry : Entry = record ce { rip = now + c.max_age; cached_data = 0 } in
            let entries : (renew h now p (free_data ce c1)).entries ≡ store c.entries p entry =
              ap (λ x. (renew h now p x).entries) same in
            let next : (free_data ce c1).next ≡ c.next = ap (λ x. Cache.next x) same in
            rw (expired, get_hit)
              (renewed-IsGot key now p c (renew h now p (free_data ce c1)) sound there expired table
                entries next)
      ]
