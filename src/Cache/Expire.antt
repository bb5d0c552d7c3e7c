-- ===== src/Cache/Expire.antt =====
-- djmount/cache.c: the removal of expired entries.
use djmount.Base.{
  ℕ, Bool, true, ◌&&◌, ◌≡◌, refl, sym, ap, ◌∙◌, subst, inl, inr, List, [], ◌∷◌, Option, none, some,
}
use mathlib.Core.List.{Memᴰ}
use mathlib.Core.List.Memᴰ.{head, tail}
use djmount.Base.Lists.{Bytes}
use djmount.Base.Tests.{ltb, ◌==◌, ==_refl, if◌then◌else◌, Bool-cases, Option-cases}
use djmount.Cache.{Entry, HashTable, Laws, Cache, cache_expire_entries}
use djmount.Cache.Rounds.{
  IsSound, Owns, has, left, expire_loop-IsPurge, expire_loop-lookup, kept_lookup,
}

module _ {T : Type 0} where
  -- Whether `cache_expire_entries` looks for expired entries.
  abbrev pub cleans : ℕ → Cache T → Bool
  cleans now c = ltb 0 c.max_age && ltb c.next_clean now

  -- The address that a key leads to after `cache_expire_entries`: none if the entry has expired, and the table is looked
  -- through.
  abbrev pub unless_expired : ℕ → Cache T → Option ℕ → Option ℕ
  unless_expired now c none = none
  unless_expired now c (some p) =
      if cleans now c && ltb (Entry.rip (c.entries p)) now then none else some p

module _ {T : Type 0} (h : HashTable T) (laws : Laws h) where
  has-Memᴰ : (q : ℕ) (ps : List ℕ) → Memᴰ q ps → has h q ps ≡ true
  has-Memᴰ q [] m = elim m [ ]
  has-Memᴰ q (p ∷ ps) (head e) = rw (subst (λ r. (r == q) ≡ true) e (==_refl q)) refl
  has-Memᴰ q (p ∷ ps) (tail m) = elim (Bool-cases (p == q)) [
    | inl same ↦ rw same refl
    | inr other ↦ rw other (has-Memᴰ q ps m)
  ]

  pub cache_expire_entries-entries :
      (now : ℕ) (c : Cache T) → (cache_expire_entries h now c).entries ≡ c.entries
  unfolding cache_expire_entries
  cache_expire_entries-entries now c = elim (Bool-cases (cleans now c)) [
    | inl on ↦
        rw (on, cache_expire_entries)
          (ap (λ x. Cache.entries x) (expire_loop-IsPurge h now (h.hash_get_entries c.table) c))
    | inr off ↦ rw (off, cache_expire_entries) refl
  ]

  pub cache_expire_entries-lookup :
      (now : ℕ) (c : Cache T)
      → IsSound h c
      → (k : Bytes)
      → h.hash_lookup k (cache_expire_entries h now c).table
        ≡ unless_expired now c (h.hash_lookup k c.table)
  unfolding cache_expire_entries
  cache_expire_entries-lookup now c sound k =
      let ps = h.hash_get_entries c.table in
      let owns : (p : ℕ) → Memᴰ p ps → Owns h c p = λ p m q e.
        let (j, there) = laws.found c.table p m in
        let at : h.hash_lookup (Entry.key (c.entries p)) c.table ≡ some p =
          rw (sound j p there).0 there in
        let both : some p ≡ some q = sym at ∙ e in cc in
      let run = expire_loop-lookup h laws now ps c sound owns k in
      elim (Bool-cases (cleans now c)) [
        | inr off ↦
            let same : h.hash_lookup k c.table ≡ unless_expired now c (h.hash_lookup k c.table) =
              elim (Option-cases (h.hash_lookup k c.table)) [
                | inl missing ↦ rw missing refl
                | inr (p, there) ↦ rw (there, off) refl
              ] in
            rw (off, cache_expire_entries) same
        | inl on ↦
            let same : left h now c.entries ps (h.hash_lookup k c.table)
                ≡ unless_expired now c (h.hash_lookup k c.table) =
              elim (Option-cases (h.hash_lookup k c.table)) [
                | inl missing ↦ rw missing refl
                | inr (p, there) ↦
                    rw (there, on, has-Memᴰ p ps (laws.listed k c.table p there)) refl
              ] in
            rw (on, cache_expire_entries) (run ∙ same)
      ]

  cache_expire_entries-next : (now : ℕ) (c : Cache T) → (cache_expire_entries h now c).next ≡ c.next
  unfolding cache_expire_entries
  cache_expire_entries-next now c = elim (Bool-cases (cleans now c)) [
    | inl on ↦
        rw (on, cache_expire_entries)
          (ap (λ x. Cache.next x) (expire_loop-IsPurge h now (h.hash_get_entries c.table) c))
    | inr off ↦ rw (off, cache_expire_entries) refl
  ]

  unless_expired-some :
      (now : ℕ) (c : Cache T) (x : Option ℕ) (p : ℕ) → unless_expired now c x ≡ some p → x ≡ some p
  unless_expired-some now c none p e = cc
  unless_expired-some now c (some q) p e =
      kept_lookup (cleans now c && ltb (Entry.rip (c.entries q)) now) (some q) p e

  pub cache_expire_entries-IsSound :
      (now : ℕ) (c : Cache T) → IsSound h c → IsSound h (cache_expire_entries h now c)
  cache_expire_entries-IsSound now c sound k p e =
      let before =
        unless_expired-some now c (h.hash_lookup k c.table) p
          (sym (cache_expire_entries-lookup now c sound k) ∙ e) in
      rw (cache_expire_entries-entries now c, cache_expire_entries-next now c) (sound k p before)
