-- ===== src/Cache/Freed.antt =====
-- djmount/cache.c: what `free_expired_data` is called with.
use djmount.Base.{
  ℕ, true, false, ◌&&◌, ◌||◌, ◌≡◌, ◌≢◌, refl, sym, ap, ◌∙◌, subst, ◌⊎◌, inl, inr, List, [], ◌∷◌,
  none, some, arith,
}
use djmount.Base.Lists.{Bytes, bytes_eq, bytes_eq_refl}
use djmount.Base.Tests.{ltb, leb, ◌==◌, ==_iff, if◌then◌else◌, Bool-cases, Option-cases}
use djmount.Cache.{
  Entry, HashTable, Laws, Cache, count, renew, free_data, expire_entry, expire_loop,
  cache_expire_entries, get_hit, get,
}
use djmount.Cache.Get.{get_lem, made, get_found, get_refused, get_new}
use djmount.Cache.Rounds.{IsSound}
use djmount.Cache.Tidy.{Holds, IsTidy, fewer-IsTidy, free-IsTidy}

module _ {T : Type 0} (h : HashTable T) (laws : Laws h) where
  free_data-cases :
      (ce : Entry) (c : Cache T)
      → (free_data ce c ≡ c)
        ⊎ (free_data ce c ≡ record c { freed = (Entry.key ce, Entry.cached_data ce) ∷ c.freed })
  unfolding free_data
  free_data-cases ce c =
      let called = record c { freed = (Entry.key ce, Entry.cached_data ce) ∷ c.freed } in
      elim (Bool-cases c.free_expired_data) [
        | inl on ↦ inr (ap (λ b. if b then called else c) on)
        | inr off ↦ inl (ap (λ b. if b then called else c) off)
      ]

  -- What a key leads to after another key was deleted.
  Holds-delete :
      (c c' : Cache T) (key : Bytes)
      → c'.entries ≡ c.entries
      → c'.table ≡ (h.hash_delete key c.table).1
      → (a : ℕ) (k : Bytes) → Holds h c' a k
      → (key ≢ k) × Holds h c a k
  Holds-delete c c' key same table a k (p, there, data_at) =
      let found : (if bytes_eq key k then none else h.hash_lookup k c.table) ≡ some p =
        sym (laws.lookup-delete key c.table k) ∙ rw (← table) there in
      elim (Bool-cases (bytes_eq key k)) [
        | inl e ↦ let never : none ≡ some p = rw e at found in cc
        | inr other ↦ (
          λ e.
              (let yes_eq : bytes_eq key k ≡ true =
                  subst (λ x. bytes_eq key x ≡ true) e (bytes_eq_refl key) in
                cc),
          (p, rw other at found, rw (← same) data_at),
        )
      ]

  expire_entry-IsTidy :
      (old : Cache T) (now p : ℕ) (c : Cache T)
      → IsTidy h old c
      → IsTidy h old (expire_entry h now p c)
  unfolding expire_entry free_data
  expire_entry-IsTidy old now p c t =
      let key = Entry.key (c.entries p) in
      let table = (h.hash_delete key c.table).1 in
      elim (Bool-cases (ltb (Entry.rip (c.entries p)) now)) [
        | inr fresh ↦ rw (fresh, expire_entry) t
        | inl late ↦ elim (Option-cases (h.hash_delete key c.table).0) [
          | inl none_there ↦
              rw (late, none_there, expire_entry)
                (fewer-IsTidy h old c (record c { table = table }) t refl
                  (λ a k n x. (Holds-delete c (record c { table = table }) key refl refl a k x).1))
          | inr (q, gone) ↦
              let d = Entry.cached_data (c.entries q) in
              let name = Entry.key (c.entries q) in
              let there : h.hash_lookup key c.table ≡ some q =
                sym (laws.deleted key c.table) ∙ gone in
              let deleted = record c { table = table } in
              let fewer = Holds-delete c deleted key refl refl in
              rw (late, gone, expire_entry)
                (elim (free_data-cases (c.entries q) deleted) [
                  | inl off ↦
                      subst (IsTidy h old) (sym off)
                        (fewer-IsTidy h old c deleted t refl (λ a k n x. (fewer a k x).1))
                  | inr on ↦ subst (IsTidy h old) (sym on) (
                      free-IsTidy h old c (record deleted { freed = (name, d) ∷ c.freed }) d key
                        name t (q, there, refl) refl (λ a k n x. fewer a k x))
                ])
        ]
      ]

  expire_loop-IsTidy :
      (old : Cache T) (now : ℕ) (ps : List ℕ) (c : Cache T)
      → IsTidy h old c
      → IsTidy h old (expire_loop h now ps c)
  unfolding expire_loop
  expire_loop-IsTidy old now [] c t = t
  expire_loop-IsTidy old now (p ∷ ps) c t =
      expire_loop-IsTidy old now ps (expire_entry h now p c) (expire_entry-IsTidy old now p c t)

  cache_expire_entries-IsTidy :
      (old : Cache T) (now : ℕ) (c : Cache T)
      → IsTidy h old c
      → IsTidy h old (cache_expire_entries h now c)
  unfolding cache_expire_entries
  cache_expire_entries-IsTidy old now c t =
      let ps = h.hash_get_entries c.table in
      elim (Bool-cases (ltb 0 c.max_age && ltb c.next_clean now)) [
        | inr off ↦ rw (off, cache_expire_entries) t
        | inl on ↦
            rw (on, cache_expire_entries)
              (fewer-IsTidy h old (expire_loop h now ps c) _ (expire_loop-IsTidy old now ps c t)
                refl (λ a k n x. x))
      ]

  -- After an entry was renewed, a key leads to data that is not NULL at another address only.
  renew-Holds :
      (now p : ℕ) (c : Cache T) (a : ℕ) (k : Bytes)
      → a ≢ 0
      → Holds h (renew h now p c) a k
      → (q : ℕ) × (p ≢ q)
        × (h.hash_lookup k c.table ≡ some q)
        × (Entry.cached_data (c.entries q) ≡ a)
  renew-Holds now p c a k n (q, there, data_at) = elim (Bool-cases (p == q)) [
    | inl same ↦ let null : 0 ≡ a = rw same at data_at in absurd (n (sym null))
    | inr other ↦
        let differs : p ≢ q = λ e. (let yes_eq : (p == q) ≡ true = (==_iff p q).1 e in cc) in
        (q, differs, there, rw other at data_at)
  ]

  -- A valid entry stays as it is; the data of another one is freed, and it leads to NULL.
  get_hit-IsTidy :
      (old : Cache T) (key : Bytes) (now p : ℕ) (c : Cache T)
      → IsSound h c
      → h.hash_lookup key c.table ≡ some p
      → IsTidy h old c
      → IsTidy h old (get_hit h now p c)
  unfolding get_hit
  get_hit-IsTidy old key now p c sound there t =
      elim (Bool-cases (c.max_age == 0 || leb now (Entry.rip (c.entries p)))) [
        | inl valid ↦
            rw (valid, get_hit)
              (fewer-IsTidy h old c (record c { nr_hit = count c.nr_hit }) t refl (λ a k n x. x))
        | inr expired ↦
            let ce = c.entries p in
            let d = Entry.cached_data ce in
            let c1 = record c { nr_expired = count c.nr_expired } in
            let fewer : (a : ℕ) (k : Bytes)
                → a ≢ 0
                → Holds h (renew h now p c1) a k
                → (key ≢ k) × Holds h c a k =
              λ a k n x.
                (let (q, ne, at, data_at) = renew-Holds now p c1 a k n x in
                  (
                    λ e.
                        (let both : some p ≡ some q =
                            sym there ∙ ap (λ j. h.hash_lookup j c.table) e ∙ at in
                          ne (cc)),
                    (q, at, data_at),
                  )) in
            rw (expired, get_hit)
              (elim (free_data-cases ce c1) [
                | inl off ↦
                    subst (λ c2. IsTidy h old (renew h now p c2)) (sym off)
                      (fewer-IsTidy h old c (renew h now p c1) t refl
                        (λ a k n x. (fewer a k n x).1))
                | inr on ↦
                    subst (λ c2. IsTidy h old (renew h now p c2)) (sym on)
                      (free-IsTidy h old c
                        (renew h now p (record c1 { freed = (Entry.key ce, d) ∷ c.freed })) d key
                        (Entry.key ce) t (p, there, refl) refl fewer)
              ])
      ]

  -- The memory of a new entry, which no key leads to, is not that of another.
  made-IsTidy :
      (old : Cache T) (key : Bytes) (c : Cache T)
      → IsSound h c
      → IsTidy h old c
      → IsTidy h old (made h laws key c)
  made-IsTidy old key c sound t =
      fewer-IsTidy h old c (made h laws key c) t refl (λ a k n (q, there, data_at).
        (let used = (sound k q there).1 in
          let other : (c.next == q) ≡ false = ground arith in (q, there, rw other at data_at)))

  inserted-IsTidy :
      (old : Cache T) (key : Bytes) (now : ℕ) (c : Cache T) (t : T)
      → IsSound h c
      → h.hash_lookup key c.table ≡ none
      → h.hash_insert key c.next c.table ≡ some t
      → IsTidy h old c
      → IsTidy h old (renew h now c.next (record (made h laws key c) { table = t }))
  inserted-IsTidy old key now c t sound missing inserted tidy =
      fewer-IsTidy h old c (renew h now c.next (record (made h laws key c) { table = t })) tidy refl
        (λ a k n x.
          (let (q, ne, at, data_at) =
              renew-Holds now c.next (record (made h laws key c) { table = t }) a k n x in
            let found : (if bytes_eq key k then some c.next else h.hash_lookup k c.table) ≡ some q =
              sym (laws.lookup-insert key c.next c.table t missing inserted k) ∙ at in
            let other : (c.next == q) ≡ false = elim (Bool-cases (c.next == q)) [
              | inl same ↦ absurd (ne ((==_iff c.next q).0 same))
              | inr differ ↦ differ
            ] in
            elim (Bool-cases (bytes_eq key k)) [
              | inl same ↦ let both : some c.next ≡ some q = rw same at found in absurd (ne (cc))
              | inr differ ↦ (q, rw differ at found, rw other at data_at)
            ]))

  -- `Cache_Get` in a sound cache that has freed nothing yet, and has no data under two keys.
  pub get-IsTidy :
      (key : Bytes) (now : ℕ) (c : Cache T)
      → IsSound h c
      → IsTidy h c c
      → IsTidy h c (get h (some key) now c).1
  get-IsTidy key now c sound t = elim (Option-cases (h.hash_lookup key c.table)) [
    | inr (p, there) ↦
        let c1 = record c { nr_access = count c.nr_access } in
        subst (λ r. IsTidy h c (r.1)) (sym (get_found h laws key now c p there))
          (get_hit-IsTidy c key now p c1 sound there (fewer-IsTidy h c c c1 t refl (λ a k n x. x)))
    | inl missing ↦ elim (Option-cases (h.hash_insert key c.next c.table)) [
      | inl refused ↦
          subst (λ r. IsTidy h c (r.1)) (sym (get_refused h laws key now c missing refused))
            (made-IsTidy c key c sound t)
      | inr (table, inserted) ↦
          subst (λ r. IsTidy h c (r.1)) (sym (get_new h laws key now c table missing inserted))
            (cache_expire_entries-IsTidy c now _
              (inserted-IsTidy c key now c table sound missing inserted t))
    ]
  ]

  -- `Cache_Get` keeps a cache sound, also where the hash table takes no new entry.
  pub get-IsSound :
      (key : Bytes) (now : ℕ) (c : Cache T) → IsSound h c → IsSound h (get h (some key) now c).1
  get-IsSound key now c sound = elim (get_lem h laws key now c sound) [
    | inr (p, found, slot) ↦ slot.3
    | inl (failed, missing, refused) ↦
        subst (λ r. IsSound h (r.1)) (sym (get_refused h laws key now c missing refused))
          (λ k p there.
            (let (own, used) = sound k p there in
              let other : (c.next == p) ≡ false = ground arith in (rw other own, omega arith)))
  ]
