-- ===== src/ContentDir/Counts.antt =====
-- djmount/content_dir.c: the references after each change of the cache or of the results.
use djmount.Base.{
  ℕ, ◌+◌, ◌-◌, ◌<◌, true, false, ◌≡◌, ◌≢◌, refl, sym, ap, ◌∙◌, inl, inr, List, [], some, arith,
}
use djmount.Base.Lists.{Bytes}
use djmount.Base.Tests.{ltb, ◌==◌, ==_iff, ==_refl, Bool-cases}
use djmount.DidlObject.{DidlObject}
use djmount.Cache.{HashTable, Laws, Cache, set_data}
use djmount.Cache.Rounds.{IsSound}
use djmount.Cache.Get.{set_data-IsSound}
use djmount.Cache.Tidy.{frees, Holds, IsTidy}
use djmount.ContentDir.Service.{ContentDir, at, add_ref, free_expired, destroy_result, new_children}
use djmount.ContentDir.References.{free_expired-refs, free_expired-rest, IsCounted, Holds-set_data}

module _ {T W : Type 0} (h : HashTable T) (laws : Laws h) where
  -- The counts are right once the callbacks of `Cache_Get` are made.
  pub settled :
      (held : ℕ → ℕ) (c c' : Cache T) (cds : ContentDir T W)
      → IsCounted h held c cds
      → IsTidy h c c'
      → IsSound h c'
      → IsCounted h held
          (record c' { freed = [] })
          (record (free_expired c'.freed cds) { cache = some (record c' { freed = [] }) })
  settled held c c' cds i t sound =
      let left = free_expired-refs c'.freed cds in
      let next' : (free_expired c'.freed cds).next ≡ cds.next =
        ap (λ (x : ContentDir T W). x.next) (free_expired-rest c'.freed cds) in
      record {
        cached = refl;
        sound = sound;
        empty = refl;
        unique = t.unique;
        owned = λ a k n x. elim (Bool-cases (ltb 0 (frees a c'.freed))) [
          | inl freed ↦ absurd (t.gone a k n (ground arith) x)
          | inr never ↦
              let before = i.owned a k n (t.kept a k n x) in
              let none_freed : frees a c'.freed ≡ 0 = ground arith in
              left a n ∙ omega (arith, before, none_freed)
        ];
        enough = λ a n. elim (Bool-cases (ltb 0 (frees a c'.freed))) [
          | inl freed ↦
              let (k, hold) = t.held a n (ground arith) in
              omega (arith, i.owned a k n hold, t.once a n, left a n)
          | inr never ↦
              let none_freed : frees a c'.freed ≡ 0 = ground arith in
              omega (arith, i.enough a n, none_freed, left a n)
        ];
        below = λ a k n x. rw next' (i.below a k n (t.kept a k n x));
        unused = λ a low. i.unused a (rw next' at low);
        positive = rw next' i.positive;
      }

  -- A reference more for children that the cache has.
  pub granted :
      (held : ℕ → ℕ) (c : Cache T) (cds : ContentDir T W) (d : ℕ) (key : Bytes)
      → IsCounted h held c cds
      → d ≢ 0
      → Holds h c d key
      → IsCounted h (at held d (held d + 1)) c (add_ref d cds)
  granted held c cds d key i n there = record {
    cached = i.cached;
    sound = i.sound;
    empty = i.empty;
    unique = i.unique;
    owned = λ a k m x.
        (let before = i.owned a k m x in
          elim (Bool-cases (d == a)) [
            | inl same ↦ rw (same, (==_iff d a).0 same) (omega (arith, before))
            | inr other ↦ rw other before
          ]);
    enough = λ a m.
        (let before = i.enough a m in
          elim (Bool-cases (d == a)) [
            | inl same ↦ rw (same, (==_iff d a).0 same) (omega (arith, before))
            | inr other ↦ rw other before
          ]);
    below = i.below;
    unused = λ a low.
        (let low' = i.below d key n there in
          let other : (d == a) ≡ false = ground arith in rw other (i.unused a low));
    positive = i.positive;
  }

  -- A result that is destroyed gives up its reference.
  pub destroy_result-IsCounted :
      (held : ℕ → ℕ) (c : Cache T) (cds : ContentDir T W) (d : ℕ)
      → IsCounted h held c cds
      → d ≢ 0
      → 0 < held d
      → IsCounted h (at held d (held d - 1)) c (destroy_result d cds)
  unfolding destroy_result
  destroy_result-IsCounted held c cds d i n some_held =
      let real : (d == 0) ≡ false = ground arith in
      rw real (record {
        cached = i.cached;
        sound = i.sound;
        empty = i.empty;
        unique = i.unique;
        owned = λ a k m x.
            (let before = i.owned a k m x in
              elim (Bool-cases (d == a)) [
                | inl same ↦
                    let e = (==_iff d a).0 same in
                    let some_here : 0 < held a = rw (← e) some_held in
                    rw (same, e) (omega (arith, before))
                | inr other ↦ rw other before
              ]);
        enough = λ a m.
            (let before = i.enough a m in
              elim (Bool-cases (d == a)) [
                | inl same ↦ rw (same, (==_iff d a).0 same) (omega (arith, before))
                | inr other ↦ rw other before
              ]);
        below = i.below;
        unused = λ a low.
            (let before = i.unused a low in
              elim (Bool-cases (d == a)) [
                | inl same ↦ rw (same, (==_iff d a).0 same) (omega (arith, before))
                | inr other ↦ rw other before
              ]);
        positive = i.positive;
      })

  -- `*cp` is set to NULL, or to new children which are referred to by the cache and by a result.
  pub stored_null :
      (held : ℕ → ℕ) (c : Cache T) (cds : ContentDir T W) (p : ℕ) (w : W)
      → IsCounted h held c cds
      → IsCounted h held (set_data p 0 c) (record cds { world = w; cache = some (set_data p 0 c) })
  stored_null held c cds p w i =
      let back : (a : ℕ) (k : Bytes) → a ≢ 0 → Holds h (set_data p 0 c) a k → Holds h c a k =
        λ a k n x. elim (Holds-set_data h c p 0 a k x) [
          | inl (e, at_p) ↦ absurd (n (sym e))
          | inr old ↦ old
        ] in
      record {
        cached = refl;
        sound = set_data-IsSound h laws p 0 c i.sound;
        empty = i.empty;
        unique = λ a k k' n x y. i.unique a k k' n (back a k n x) (back a k' n y);
        owned = λ a k n x. i.owned a k n (back a k n x);
        enough = i.enough;
        below = λ a k n x. i.below a k n (back a k n x);
        unused = i.unused;
        positive = i.positive;
      }

  pub stored_new :
      (held : ℕ → ℕ) (c : Cache T) (cds : ContentDir T W) (p : ℕ) (w : W) (os : List DidlObject)
      → IsCounted h held c cds
      → IsCounted h (at held cds.next 1) (set_data p cds.next c) (
          add_ref cds.next (record (new_children os (record cds { world = w })) {
            cache = some (set_data p cds.next c);
          }))
  stored_new held c cds p w os i =
      let v = cds.next in
      let c' = set_data p v c in
      let keys : (k k' : Bytes)
          → h.hash_lookup k c.table ≡ some p
          → h.hash_lookup k' c.table ≡ some p
          → k ≡ k' =
        λ k k' x y. sym ((i.sound k p x).0) ∙ (i.sound k' p y).0 in
      let old_other : (a : ℕ) (k : Bytes) → a ≢ 0 → Holds h c a k → (v == a) ≡ false =
        λ a k n x. (let low = i.below a k n x in ground arith) in
      record {
        cached = refl;
        sound = set_data-IsSound h laws p v c i.sound;
        empty = i.empty;
        unique = λ a k k' n x y. elim (Holds-set_data h c p v a k x) [
          | inl (e, at_p) ↦ elim (Holds-set_data h c p v a k' y) [
            | inl (e', at_p') ↦ keys k k' at_p at_p'
            | inr old ↦ (let low = i.below a k' n old in absurd (omega arith))
          ]
          | inr old ↦ elim (Holds-set_data h c p v a k' y) [
            | inl (e', at_p') ↦ (let low = i.below a k n old in absurd (omega arith))
            | inr old' ↦ i.unique a k k' n old old'
          ]
        ];
        owned = λ a k n x. elim (Holds-set_data h c p v a k x) [
          | inl (e, at_p) ↦
              let same : (v == a) ≡ true = (==_iff v a).1 e in
              let self : (v == v) ≡ true = ==_refl v in rw (same, self) refl
          | inr old ↦ rw (old_other a k n old) (i.owned a k n old)
        ];
        enough = λ a n. elim (Bool-cases (v == a)) [
          | inl same ↦ rw (same, ==_refl v) (omega arith)
          | inr other ↦ rw other (i.enough a n)
        ];
        below = λ a k n x. elim (Holds-set_data h c p v a k x) [
          | inl (e, at_p) ↦ omega arith
          | inr old ↦ (let low = i.below a k n old in omega arith)
        ];
        unused = λ a low.
            (let other : (v == a) ≡ false = ground arith in rw other (i.unused a (omega arith)));
        positive = omega arith;
      }
