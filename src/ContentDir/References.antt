-- ===== src/ContentDir/References.antt =====
-- djmount/content_dir.c: the references to the children that results and the cache share.
use djmount.Base.{
  ℕ, suc, ◌-◌, ◌≤◌, ◌<◌, false, ◌≡◌, ◌≢◌, refl, sym, ap, ◌∙◌, ◌⊎◌, inl, inr, List, [], ◌∷◌, some,
  arith,
}
use djmount.Base.Lists.{Bytes}
use djmount.Base.Tests.{◌==◌, ==_iff, Bool-cases}
use djmount.Cache.{HashTable, Cache, set_data}
use djmount.Cache.Rounds.{IsSound}
use djmount.Cache.Tidy.{frees, Holds, IsTidy}
use djmount.ContentDir.Service.{ContentDir, at, free_expired}

module _ {T W : Type 0} where
  -- Giving up references changes nothing but their numbers, by as many as are given up.
  pub free_expired-refs :
      (ps : List (Bytes × ℕ)) (cds : ContentDir T W) (a : ℕ)
      → a ≢ 0
      → (free_expired ps cds).refs a ≡ cds.refs a - frees a ps
  unfolding free_expired
  free_expired-refs [] cds a n = omega arith
  free_expired-refs ((key, p) ∷ ps) cds a n =
      let rest = free_expired-refs ps cds a n in
      elim (Bool-cases (p == 0)) [
        | inl null ↦
            let other : (p == a) ≡ false = ground arith in rw (null, other, rest) (omega arith)
        | inr real ↦ elim (Bool-cases (p == a)) [
          | inl same ↦
              let e : p ≡ a = (==_iff p a).0 same in rw (real, same) (rw e (omega (arith, rest)))
          | inr other ↦ rw (real, other) (omega (arith, rest))
        ]
      ]

  pub free_expired-rest :
      (ps : List (Bytes × ℕ)) (cds : ContentDir T W)
      → free_expired ps cds ≡ record cds { refs = (free_expired ps cds).refs }
  unfolding free_expired
  free_expired-rest [] cds = refl
  free_expired-rest ((key, p) ∷ ps) cds = elim (Bool-cases (p == 0)) [
    | inl null ↦ rw null (free_expired-rest ps cds)
    | inr real ↦ rw real (
        ap (λ (x : ContentDir T W). record x { refs = at x.refs p (x.refs p - 1) })
          (free_expired-rest ps cds))
  ]

module _ {T W : Type 0} (h : HashTable T) where
  -- A `ContentDir` with the cache c, in whose table each entry has children of its own. They have a reference for the
  -- entry and one for each result that holds them, of which there are `held`.
  pub record IsCounted (held : ℕ → ℕ) (c : Cache T) (cds : ContentDir T W) : Type 0 where
    pub cached : cds.cache ≡ some c
    pub sound : IsSound h c
    pub empty : c.freed ≡ []
    pub unique : (a : ℕ) (k k' : Bytes) → a ≢ 0 → Holds h c a k → Holds h c a k' → k ≡ k'
    pub owned : (a : ℕ) (k : Bytes) → a ≢ 0 → Holds h c a k → cds.refs a ≡ suc (held a)
    pub enough : (a : ℕ) → a ≢ 0 → held a ≤ cds.refs a
    pub below : (a : ℕ) (k : Bytes) → a ≢ 0 → Holds h c a k → a < cds.next
    pub unused : (a : ℕ) → cds.next ≤ a → held a ≡ 0
    pub positive : 0 < cds.next

  pub IsCounted-IsTidy :
      (held : ℕ → ℕ) (c : Cache T) (cds : ContentDir T W) → IsCounted held c cds → IsTidy h c c
  IsCounted-IsTidy held c cds i = record {
    unique = i.unique;
    once = λ a n. rw i.empty (omega arith);
    gone = λ a k n f x. let f' : 0 < frees a [] = rw i.empty at f in omega arith;
    held = λ a n f. let f' : 0 < frees a [] = rw i.empty at f in absurd (omega arith);
    kept = λ a k n x. x;
  }

module _ {T : Type 0} (h : HashTable T) where
  -- What a key leads to after the data of the address p was set.
  pub Holds-set_data :
      (c : Cache T) (p v a : ℕ) (k : Bytes)
      → Holds h (set_data p v c) a k
      → ((v ≡ a) × (h.hash_lookup k c.table ≡ some p)) ⊎ Holds h c a k
  Holds-set_data c p v a k (q, there, data_at) = elim (Bool-cases (p == q)) [
    | inl same ↦
        let e : p ≡ q = (==_iff p q).0 same in inl (rw same at data_at, there ∙ ap some (sym e))
    | inr other ↦ inr (q, there, rw other at data_at)
  ]
