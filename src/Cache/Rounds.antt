-- ===== src/Cache/Rounds.antt =====
-- djmount/cache.c: the loop of `cache_expire_entries` over the addresses of the table.
use djmount.Base.{
  ℕ, ◌<◌, Bool, true, false, ◌&&◌, ◌||◌, ◌≡◌, ◌≢◌, refl, sym, ap, ◌∙◌, subst, inl, inr, List, [],
  ◌∷◌, Option, none, some,
}
use mathlib.Core.List.{Memᴰ}
use mathlib.Core.List.Memᴰ.{head, tail}
use djmount.Base.Lists.{Bytes, bytes_eq, bytes_eq_sound, bytes_eq_refl}
use djmount.Base.Tests.{ltb, ◌==◌, ==_iff, if◌then◌else◌, Bool-cases, Option-cases}
use djmount.Cache.{Entry, HashTable, Laws, Cache, free_data, expire_entry, expire_loop}

module _ {T : Type 0} (h : HashTable T) where
  -- An address in the table holds an entry with the key that leads to it, and is in use.
  abbrev pub IsSound : Cache T → Type 0
  IsSound c =
      (k : Bytes) (p : ℕ)
      → h.hash_lookup k c.table ≡ some p
      → (Entry.key (c.entries p) ≡ k) × (p < c.next)

  -- The table and the list of freed data may differ, nothing else.
  abbrev pub IsPurge : Cache T → Cache T → Type 0
  IsPurge c c' = c' ≡ record c { table = c'.table; freed = c'.freed }

  -- The keys of the address p lead to no other address.
  abbrev pub Owns : Cache T → ℕ → Type 0
  Owns c p = (q : ℕ) → h.hash_lookup (Entry.key (c.entries p)) c.table ≡ some q → q ≡ p

  abbrev pub has : ℕ → List ℕ → Bool
  has q [] = false
  has q (p ∷ ps) = p == q || has q ps

  -- What is left of the address that a key leads to, once the addresses ps are looked through.
  abbrev pub left : ℕ → (ℕ → Entry) → List ℕ → Option ℕ → Option ℕ
  left now f ps none = none
  left now f ps (some q) = if has q ps && ltb (Entry.rip (f q)) now then none else some q

  pub free_data-IsPurge : (ce : Entry) (c : Cache T) → IsPurge c (free_data ce c)
  unfolding free_data
  free_data-IsPurge ce c = elim (Bool-cases c.free_expired_data) [
    | inl on ↦ rw (on, free_data) refl
    | inr off ↦ rw (off, free_data) refl
  ]

  pub free_data-table : (ce : Entry) (c : Cache T) → (free_data ce c).table ≡ c.table
  unfolding free_data
  free_data-table ce c = elim (Bool-cases c.free_expired_data) [
    | inl on ↦ rw (on, free_data) refl
    | inr off ↦ rw (off, free_data) refl
  ]

  expire_entry-IsPurge : (now p : ℕ) (c : Cache T) → IsPurge c (expire_entry h now p c)
  unfolding expire_entry
  expire_entry-IsPurge now p c =
      let ce = c.entries p in
      let t = (h.hash_delete (Entry.key ce) c.table).1 in
      elim (Bool-cases (ltb (Entry.rip ce) now)) [
        | inr fresh ↦ rw (fresh, expire_entry) refl
        | inl late ↦ elim (Option-cases (h.hash_delete (Entry.key ce) c.table).0) [
          | inl none_there ↦ rw (late, none_there, expire_entry) refl
          | inr (q, gone) ↦
              rw (late, gone, expire_entry)
                (free_data-IsPurge (c.entries q) (record c { table = t }))
        ]
      ]

  -- The table after an entry was looked at.
  expire_entry-table :
      (now p : ℕ) (c : Cache T)
      → (expire_entry h now p c).table ≡ (
          if ltb (Entry.rip (c.entries p)) now
          then (h.hash_delete (Entry.key (c.entries p)) c.table).1
          else c.table)
  unfolding expire_entry
  expire_entry-table now p c =
      let ce = c.entries p in
      let t = (h.hash_delete (Entry.key ce) c.table).1 in
      elim (Bool-cases (ltb (Entry.rip ce) now)) [
        | inr fresh ↦ rw (fresh, expire_entry) refl
        | inl late ↦ elim (Option-cases (h.hash_delete (Entry.key ce) c.table).0) [
          | inl none_there ↦ rw (late, none_there, expire_entry) refl
          | inr (q, gone) ↦
              rw (late, gone, expire_entry) (free_data-table (c.entries q) (record c { table = t }))
        ]
      ]

  pub expire_loop-IsPurge :
      (now : ℕ) (ps : List ℕ) (c : Cache T) → IsPurge c (expire_loop h now ps c)
  unfolding expire_loop
  expire_loop-IsPurge now [] c = refl
  expire_loop-IsPurge now (p ∷ ps) c =
      let c1 = expire_entry h now p c in
      let c2 = expire_loop h now ps c1 in
      let with_table : Cache T → Cache T = λ x. record x { table = c2.table; freed = c2.freed } in
      expire_loop-IsPurge now ps c1 ∙ ap with_table (expire_entry-IsPurge now p c)

differs : (p q : ℕ) → (p == q) ≡ false → p ≢ q
differs p q h e = let same : (p == q) ≡ true = (==_iff p q).1 e in cc

pub and_false : (b : Bool) → (b && false) ≡ false
and_false true = refl
and_false false = refl

pub kept_lookup : (b : Bool) (x : Option ℕ) (q : ℕ) → (if b then none else x) ≡ some q → x ≡ some q
kept_lookup true x q e = cc
kept_lookup false x q e = e

module _ {T : Type 0} (h : HashTable T) (laws : Laws h) where
  expire_entry-lookup :
      (now p : ℕ) (c : Cache T) (k : Bytes)
      → h.hash_lookup k (expire_entry h now p c).table ≡ (
          if ltb (Entry.rip (c.entries p)) now && bytes_eq (Entry.key (c.entries p)) k
          then none
          else h.hash_lookup k c.table)
  expire_entry-lookup now p c k =
      let t : T = (h.hash_delete (Entry.key (c.entries p)) c.table).1 in
      elim (Bool-cases (ltb (Entry.rip (c.entries p)) now)) [
        | inr fresh ↦
            let at : (expire_entry h now p c).table ≡ c.table =
              expire_entry-table h now p c ∙ rw fresh refl in
            rw (at, fresh) refl
        | inl late ↦
            let at : (expire_entry h now p c).table ≡ t =
              expire_entry-table h now p c ∙ rw late refl in
            rw (at, late) (laws.lookup-delete (Entry.key (c.entries p)) c.table k)
      ]

  left_step :
      (now : ℕ) (f : ℕ → Entry) (p : ℕ) (ps : List ℕ) (x : Option ℕ) (b : Bool)
      → ((q : ℕ) → x ≡ some q → b ≡ true → q ≡ p)
      → (x ≡ some p → b ≡ true)
      → left h now f ps (if ltb (Entry.rip (f p)) now && b then none else x)
        ≡ left h now f (p ∷ ps) x
  left_step now f p ps none b only own = elim (Bool-cases (ltb (Entry.rip (f p)) now && b)) [
    | inl e ↦ rw e refl
    | inr e ↦ rw e refl
  ]
  left_step now f p ps (some q) b only own = elim (Bool-cases (p == q)) [
    | inl same ↦
        let e : p ≡ q = (==_iff p q).0 same in
        let mine : b ≡ true = own (ap some (sym e)) in
        elim (Bool-cases (ltb (Entry.rip (f p)) now)) [
          | inl late ↦
              let late' : ltb (Entry.rip (f q)) now ≡ true =
                subst (λ i. ltb (Entry.rip (f i)) now ≡ true) e late in
              rw (same, mine, late, late') refl
          | inr fresh ↦
              let fresh' : ltb (Entry.rip (f q)) now ≡ false =
                subst (λ i. ltb (Entry.rip (f i)) now ≡ false) e fresh in
              rw (same, fresh, fresh', and_false (has h q ps)) refl
        ]
    | inr other ↦ elim (Bool-cases b) [
      | inl mine ↦ absurd (differs p q other (sym (only q refl mine)))
      | inr e ↦ rw (other, e, and_false (ltb (Entry.rip (f p)) now)) refl
    ]
  ]

  pub expire_loop-lookup :
      (now : ℕ) (ps : List ℕ) (c : Cache T)
      → IsSound h c
      → ((p : ℕ) → Memᴰ p ps → Owns h c p)
      → (k : Bytes)
      → h.hash_lookup k (expire_loop h now ps c).table
        ≡ left h now c.entries ps (h.hash_lookup k c.table)
  unfolding expire_loop
  expire_loop-lookup now [] c sound owns k = elim (Option-cases (h.hash_lookup k c.table)) [
    | inl missing ↦ rw missing refl
    | inr (q, there) ↦ rw there refl
  ]
  expire_loop-lookup now (p ∷ ps) c sound owns k =
      let c1 = expire_entry h now p c in
      let same : c1.entries ≡ c.entries =
        ap (λ x. Cache.entries x) (expire_entry-IsPurge h now p c) in
      let next_same : c1.next ≡ c.next = ap (λ x. Cache.next x) (expire_entry-IsPurge h now p c) in
      let fewer : (j : Bytes) (q : ℕ)
          → h.hash_lookup j c1.table ≡ some q
          → h.hash_lookup j c.table ≡ some q =
        λ j q e.
          kept_lookup (ltb (Entry.rip (c.entries p)) now && bytes_eq (Entry.key (c.entries p)) j)
            (h.hash_lookup j c.table) q (sym (expire_entry-lookup now p c j) ∙ e) in
      let sound' : IsSound h c1 = λ j q e. rw (same, next_same) (sound j q (fewer j q e)) in
      let owns' : (q : ℕ) → Memᴰ q ps → Owns h c1 q = λ q m r e.
        owns q (tail m) r
          (fewer _ r (subst (λ f. h.hash_lookup (Entry.key (f q)) c1.table ≡ some r) same e)) in
      let rest = expire_loop-lookup now ps c1 sound' owns' k in
      let key = Entry.key (c.entries p) in
      let step =
        left_step now c.entries p ps (h.hash_lookup k c.table) (bytes_eq key k)
          (λ q e b.
            owns p (head refl) q
              (subst (λ j. h.hash_lookup j c.table ≡ some q) (sym (bytes_eq_sound key k b)) e))
          (λ e. rw (sound k p e).0 (bytes_eq_refl k)) in
      let rest' : h.hash_lookup k (expire_loop h now ps c1).table
          ≡ left h now c.entries ps (h.hash_lookup k c1.table) =
        subst
          (λ f.
            h.hash_lookup k (expire_loop h now ps c1).table
            ≡ left h now f ps (h.hash_lookup k c1.table))
          same rest in
      rest' ∙ ap (left h now c.entries ps) (expire_entry-lookup now p c k) ∙ step
