-- ===== src/Cache/Tidy.antt =====
-- djmount/cache.c: what was freed, and what the keys of a cache lead to.
use djmount.Base.{ℕ, suc, ◌+◌, ◌≤◌, ◌<◌, ◌≡◌, ◌≢◌, subst, ◌⊎◌, inl, inr, List, [], ◌∷◌, some, arith}
use djmount.Base.Lists.{Bytes}
use djmount.Base.Tests.{ltb, ◌==◌, ==_iff, if◌then◌else◌, Bool-cases}
use djmount.Cache.{Entry, HashTable, Cache}

-- How often `free_expired_data` was called with the data a.
abbrev pub frees : ℕ → List (Bytes × ℕ) → ℕ
frees a [] = 0
frees a ((key, d) ∷ ps) = (if d == a then 1 else 0) + frees a ps

frees-cons :
    (a d : ℕ) (name : Bytes) (ps : List (Bytes × ℕ))
    → ((d ≡ a) × (frees a ((name, d) ∷ ps) ≡ suc (frees a ps)))
      ⊎ (frees a ((name, d) ∷ ps) ≡ frees a ps)
frees-cons a d name ps = elim (Bool-cases (d == a)) [
  | inl same ↦ inl ((==_iff d a).0 same, rw same (omega arith))
  | inr other ↦ inr (rw other (omega arith))
]

module _ {T : Type 0} (h : HashTable T) where
  -- The key k leads to an entry with the data a.
  abbrev pub Holds : Cache T → ℕ → Bytes → Type 0
  Holds c a k = (p : ℕ) × (h.hash_lookup k c.table ≡ some p) × (Entry.cached_data (c.entries p) ≡ a)

  -- No data stands under two keys; what was freed is freed once, stands under no key any more, and stood under a key of
  -- the cache `old`; and the data that stands under a key stood there in `old`.
  pub record IsTidy (old c : Cache T) : Type 0 where
    pub unique : (a : ℕ) (k k' : Bytes) → a ≢ 0 → Holds c a k → Holds c a k' → k ≡ k'
    pub once : (a : ℕ) → a ≢ 0 → frees a c.freed ≤ 1
    pub gone : (a : ℕ) (k : Bytes) → a ≢ 0 → 0 < frees a c.freed → Holds c a k → ⊥
    pub held : (a : ℕ) → a ≢ 0 → 0 < frees a c.freed → (k : Bytes) × Holds old a k
    pub kept : (a : ℕ) (k : Bytes) → a ≢ 0 → Holds c a k → Holds old a k

  -- A change that frees nothing, and after which a key leads to no other data than before, but for NULL.
  pub fewer-IsTidy :
      (old c c' : Cache T)
      → IsTidy old c
      → c'.freed ≡ c.freed
      → ((a : ℕ) (k : Bytes) → a ≢ 0 → Holds c' a k → Holds c a k)
      → IsTidy old c'
  fewer-IsTidy old c c' t same fewer = record {
    unique = λ a k k' n x y. t.unique a k k' n (fewer a k n x) (fewer a k' n y);
    once = λ a n. rw same (t.once a n);
    gone = λ a k n f x. t.gone a k n (rw same at f) (fewer a k n x);
    held = λ a n f. t.held a n (rw same at f);
    kept = λ a k n x. t.kept a k n (fewer a k n x);
  }

  -- A change that frees the data d of a key, which leads to it no more.
  pub free-IsTidy :
      (old c c' : Cache T) (d : ℕ) (key name : Bytes)
      → IsTidy old c
      → Holds c d key
      → c'.freed ≡ (name, d) ∷ c.freed
      → ((a : ℕ) (k : Bytes) → a ≢ 0 → Holds c' a k → (key ≢ k) × Holds c a k)
      → IsTidy old c'
  free-IsTidy old c c' d key name t there more fewer =
      let unfreed : (a : ℕ) → a ≢ 0 → d ≡ a → frees a c.freed ≡ 0 = λ a n e.
        elim (Bool-cases (ltb 0 (frees a c.freed))) [
          | inl some_time ↦
              absurd (t.gone a key n (ground arith) (subst (λ x. Holds c x key) e there))
          | inr never ↦ ground arith
        ] in
      record {
        unique = λ a k k' n x y. t.unique a k k' n (fewer a k n x).1 (fewer a k' n y).1;
        once = λ a n. elim (frees-cons a d name c.freed) [
          | inl (e, now) ↦ let before = unfreed a n e in rw more (omega arith)
          | inr same ↦ let before = t.once a n in rw more (omega arith)
        ];
        gone = λ a k n f x.
            let (other, was) = fewer a k n x in
            elim (frees-cons a d name c.freed) [
              | inl (e, now) ↦ other (t.unique a key k n (subst (λ z. Holds c z key) e there) was)
              | inr same ↦
                  let f' : 0 < frees a ((name, d) ∷ c.freed) = rw more at f in
                  t.gone a k n (omega arith) was
            ];
        held = λ a n f. elim (frees-cons a d name c.freed) [
          | inl (e, now) ↦ (key, t.kept a key n (subst (λ z. Holds c z key) e there))
          | inr same ↦
              let f' : 0 < frees a ((name, d) ∷ c.freed) = rw more at f in t.held a n (omega arith)
        ];
        kept = λ a k n x. t.kept a k n (fewer a k n x).1;
      }
