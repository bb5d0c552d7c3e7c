-- ===== src/Cache/View.antt =====
-- djmount/cache.c: the cache as a table from keys to entries, and what `Cache_Get` is to do with it.
use djmount.Base.{
  ℕ, ◌+◌, Bool, true, false, ◌&&◌, ◌||◌, ◌≡◌, ◌≢◌, refl, ap, ◌∙◌, subst, inl, inr, Option, none,
  some,
}
use mathlib.Core.Option
use djmount.Base.Lists.{Bytes, bytes_eq, bytes_eq_sound}
use djmount.Base.Tests.{ltb, leb, ◌==◌, ==_iff, ==_refl, if◌then◌else◌, Bool-cases}
use djmount.Cache.{Entry, HashTable, Cache, store}
use djmount.Cache.Rounds.{IsSound}
use djmount.Cache.Expire.{cleans}

pub store_at : (f : ℕ → Entry) (p : ℕ) (e : Entry) → store f p e p ≡ e
store_at f p e = rw (==_refl p) refl

pub store_other : (f : ℕ → Entry) (p : ℕ) (e : Entry) (q : ℕ) → (p ≢ q) → store f p e q ≡ f q
store_other f p e q ne = elim (Bool-cases (p == q)) [
  | inl same ↦ absurd (ne ((==_iff p q).0 same))
  | inr other ↦ rw other refl
]

pub store_key :
    (f : ℕ → Entry) (p : ℕ) (e : Entry) (q : ℕ)
    → e.key ≡ Entry.key (f p)
    → Entry.key (store f p e q) ≡ Entry.key (f q)
store_key f p e q same = elim (Bool-cases (p == q)) [
  | inl at ↦ rw at (same ∙ ap (λ i. Entry.key (f i)) ((==_iff p q).0 at))
  | inr other ↦ rw other refl
]

-- An entry that is kept unless it has expired, in two memories that hold the same there.
pub map_unless :
    (f g : ℕ → Entry) (q : ℕ) (b : Bool) (now : ℕ)
    → f q ≡ g q
    → Option.map f (if b && ltb (Entry.rip (f q)) now then none else some q)
      ≡ (if b && ltb (Entry.rip (g q)) now then none else some (g q))
map_unless f g q b now e = elim (Bool-cases (b && ltb (Entry.rip (f q)) now)) [
  | inl gone ↦
      let gone' : (b && ltb (Entry.rip (g q)) now) ≡ true =
        subst (λ x. (b && ltb (Entry.rip x) now) ≡ true) e gone in
      rw (gone, gone') refl
  | inr kept ↦
      let kept' : (b && ltb (Entry.rip (g q)) now) ≡ false =
        subst (λ x. (b && ltb (Entry.rip x) now) ≡ false) e kept in
      rw (kept, kept') (ap some e)
]

pub bytes_ne_false : (a b : Bytes) → a ≢ b → bytes_eq a b ≡ false
bytes_ne_false a b ne = elim (Bool-cases (bytes_eq a b)) [
  | inl same ↦ absurd (ne (bytes_eq_sound a b same))
  | inr other ↦ other
]

module _ {T : Type 0} (h : HashTable T) where
  -- The cache as a table from keys to entries.
  abbrev pub view : Cache T → Bytes → Option Entry
  view c k = Option.map c.entries (h.hash_lookup k c.table)

  -- The entry of a key after `Cache_Get`: a valid one as it was, else one with no data and a new date.
  abbrev pub looked_up : ℕ → Cache T → Bytes → Option Entry → Entry
  looked_up now c key none = record { key = key; rip = now + c.max_age; cached_data = 0 }
  looked_up now c key (some e) =
      if c.max_age == 0 || leb now e.rip
      then e
      else record e { rip = now + c.max_age; cached_data = 0 }

  -- Another entry after `Cache_Get`, which looks for expired ones only where it makes a new one.
  abbrev pub other_entry : ℕ → Cache T → Option Entry → Option Entry → Option Entry
  other_entry now c (some e) x = x
  other_entry now c none none = none
  other_entry now c none (some e) = if cleans now c && ltb e.rip now then none else some e

  -- `Cache_Get` returns the address p of the entry of the key, with the right content, and treats the other entries
  -- as it should.
  abbrev pub IsGot : Bytes → ℕ → Cache T → ℕ → Cache T → Type 0
  IsGot key now c p c' =
      (h.hash_lookup key c'.table ≡ some p)
      × (c'.entries p ≡ looked_up now c key (view c key))
      × ((k : Bytes) → key ≢ k → view c' k ≡ other_entry now c (view c key) (view c k))
      × IsSound h c'
