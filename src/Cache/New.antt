-- ===== src/Cache/New.antt =====
-- djmount/cache.c: `Cache_Get` for a key that has no entry.
use djmount.Base.{
  ℕ, suc, ◌+◌, ◌<◌, false, ◌≡◌, ◌≢◌, refl, sym, ap, ◌∙◌, subst, inl, inr, none, some, arith,
}
use mathlib.Core.Option
use djmount.Base.Lists.{Bytes, bytes_eq, bytes_eq_sound, bytes_eq_refl}
use djmount.Base.Tests.{ltb, if◌then◌else◌, Bool-cases, Option-cases}
use djmount.Cache.{Entry, HashTable, Laws, Cache, store, renew, cache_expire_entries}
use djmount.Cache.Rounds.{IsSound, and_false}
use djmount.Cache.Expire.{
  cleans, unless_expired, cache_expire_entries-entries, cache_expire_entries-lookup,
  cache_expire_entries-IsSound,
}
use djmount.Cache.View.{store_at, store_other, map_unless, bytes_ne_false, view, other_entry, IsGot}

module _ {T : Type 0} (h : HashTable T) (laws : Laws h) where
  module _ (key : Bytes) (now : ℕ) (c : Cache T) (t : T) (sound : IsSound h c)
      (missing : h.hash_lookup key c.table ≡ none)
      (inserted : h.hash_insert key c.next c.table ≡ some t) where
    -- The cache with the new entry, before the expired ones are removed.
    abbrev pub added : Cache T
    added = renew h now c.next (record c {
      entries = store c.entries c.next (record (c.entries c.next) { key = key });
      next = suc c.next;
      table = t;
    })

    added-lookup :
        (k : Bytes)
        → h.hash_lookup k added.table
          ≡ (if bytes_eq key k then some c.next else h.hash_lookup k c.table)
    added-lookup = laws.lookup-insert key c.next c.table t missing inserted

    added-entry :
        added.entries c.next ≡ record { key = key; rip = now + c.max_age; cached_data = 0 }
    added-entry =
        let e1 : Entry = record (c.entries c.next) { key = key } in
        let f = store c.entries c.next e1 in
        let renewed : Entry → Entry = λ e. record e { rip = now + c.max_age; cached_data = 0 } in
        store_at f c.next (renewed (f c.next)) ∙ ap renewed (store_at c.entries c.next e1)

    added-other : (q : ℕ) → q < c.next → added.entries q ≡ c.entries q
    added-other q used =
        let e1 : Entry = record (c.entries c.next) { key = key } in
        let f = store c.entries c.next e1 in
        let e2 : Entry = record (f c.next) { rip = now + c.max_age; cached_data = 0 } in
        store_other f c.next e2 q (λ e. omega arith)
        ∙ store_other c.entries c.next e1 q (λ e. omega arith)

    added-IsSound : IsSound h added
    added-IsSound k q there = elim (Bool-cases (bytes_eq key k)) [
      | inl same ↦
          let at : some c.next ≡ some q = sym (added-lookup k ∙ rw same refl) ∙ there in
          let e : c.next ≡ q = cc in
          let own : Entry.key (added.entries c.next) ≡ k =
            ap (λ x. Entry.key x) added-entry ∙ bytes_eq_sound key k same in
          (subst (λ i. Entry.key (added.entries i) ≡ k) e own, omega arith)
      | inr other ↦
          let at : h.hash_lookup k c.table ≡ some q =
            sym (added-lookup k ∙ rw other refl) ∙ there in
          let (own, used) = sound k q at in
          (ap (λ x. Entry.key x) (added-other q used) ∙ own, omega arith)
    ]

    added-here : h.hash_lookup key added.table ≡ some c.next
    added-here = added-lookup key ∙ rw (bytes_eq_refl key) refl

    pub new-IsGot : IsGot h key now c c.next (cache_expire_entries h now added)
    new-IsGot =
        let entries = cache_expire_entries-entries h laws now added in
        let fresh : ltb (Entry.rip (added.entries c.next)) now ≡ false =
          rw added-entry (ground arith) in
        let there : h.hash_lookup key (cache_expire_entries h now added).table ≡ some c.next =
          cache_expire_entries-lookup h laws now added added-IsSound key
          ∙ rw (added-here, fresh, and_false (cleans now added)) refl in
        let others : (k : Bytes)
            → key ≢ k
            → view h (cache_expire_entries h now added) k
              ≡ other_entry h now c (view h c key) (view h c k) =
          λ k ne.
            let view_other : view h (cache_expire_entries h now added) k
                ≡ Option.map added.entries (unless_expired now added (h.hash_lookup k c.table)) =
              rw
                (
                  entries,
                  cache_expire_entries-lookup h laws now added added-IsSound k,
                  added-lookup k,
                  bytes_ne_false key k ne,
                )
                refl in
            elim (Option-cases (h.hash_lookup k c.table)) [
              | inl absent ↦ view_other ∙ rw (absent, missing) refl
              | inr (q, at) ↦
                  let same = added-other q (sound k q at).1 in
                  view_other
                  ∙ rw (at, missing) (map_unless added.entries c.entries q (cleans now c) now same)
            ] in
        (
          there,
          rw (entries, missing) added-entry,
          others,
          cache_expire_entries-IsSound h laws now added added-IsSound,
        )
