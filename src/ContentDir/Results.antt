-- ===== src/ContentDir/Results.antt =====
-- djmount/content_dir.c: browsing keeps the references that its results need.
use djmount.Base.{
  ℕ, ◌+◌, ◌≤◌, ◌<◌, true, false, ◌≡◌, ◌≢◌, refl, sym, ap, ◌∙◌, subst, inl, inr, List, [], Option,
  none, some, arith,
}
use djmount.Base.Lists.{Bytes}
use djmount.Base.Tests.{◌==◌, Bool-cases, Option-cases}
use djmount.DidlObject.{DidlObject}
use djmount.Cache
use djmount.Cache.{Entry, HashTable, Laws, Cache, set_data}
use djmount.Cache.Freed.{get-IsTidy, get-IsSound}
use djmount.Cache.Get.{get_lem}
use djmount.ContentDir.{Criteria, Server, browse_or_search_all}
use djmount.ContentDir.Service.{
  ContentDir, at, cache_key, add_ref, free_expired, new_children, allocate, browse_new, use_entry,
  referenced, with_entry, browse_or_search_with_cache, through,
}
use djmount.ContentDir.References.{IsCounted, IsCounted-IsTidy, free_expired-rest}
use djmount.ContentDir.Counts.{settled, granted, stored_null, stored_new}

-- The results that are held, once one more is returned.
abbrev pub with_result : Option ℕ → (ℕ → ℕ) → ℕ → ℕ
with_result none held = held
with_result (some p) held = at held p (held p + 1)

-- The children that are returned are not NULL, and their address is in use.
abbrev pub InUse : {T W : Type 0} → Option ℕ → ContentDir T W → Type 0
InUse none cds = Unit
InUse (some p) cds = (p ≢ 0) × (p < cds.next)

-- The children that were there are still there.
abbrev pub Keeps : {T W : Type 0} → ContentDir T W → ContentDir T W → Type 0
Keeps cds cds' =
    (cds.next ≤ cds'.next) × ((q : ℕ) → q < cds.next → cds'.children q ≡ cds.children q)

module _ {T W : Type 0} (h : HashTable T) where
  -- The references are right for a cache, after a call that may have returned a result, and no children changed.
  abbrev pub Counted : (ℕ → ℕ) → ContentDir T W → Option ℕ × ContentDir T W → Type 0
  Counted held cds r =
      ((c : Cache T) × IsCounted h (with_result (r.0) held) c (r.1))
      × InUse (r.0) (r.1)
      × Keeps cds (r.1)

module _ {T W D : Type 0} (h : HashTable T) (laws : Laws h) (s : Server W D) where
  pub use_entry_hit :
      (id : Bytes) (crit : Criteria) (p : ℕ) (c : Cache T) (cds : ContentDir T W)
      → (Entry.cached_data (c.entries p) == 0) ≡ false
      → referenced h s (use_entry h s id crit p c cds)
        ≡ (some (Entry.cached_data (c.entries p)), add_ref (Entry.cached_data (c.entries p)) cds)
  unfolding use_entry referenced
  use_entry_hit id crit p c cds hit =
      let run : use_entry h s id crit p c cds ≡ (Entry.cached_data (c.entries p), cds) =
        rw (hit, use_entry) refl in
      ap (referenced h s) run ∙ rw (hit, referenced) refl

  -- The children are new, and set in the cache.
  abbrev set_new : ℕ → Cache T → ℕ × ContentDir T W → ℕ × ContentDir T W
  set_new p c (v, cds) = (v, record cds { cache = some (set_data p v c) })

  use_entry_miss :
      (id : Bytes) (crit : Criteria) (p : ℕ) (c : Cache T) (cds : ContentDir T W)
      (r : Option (List DidlObject))
      → (Entry.cached_data (c.entries p) == 0) ≡ true
      → (browse_or_search_all s id crit cds.world).0 ≡ r
      → use_entry h s id crit p c cds
        ≡ set_new p c (allocate (r, (browse_or_search_all s id crit cds.world).1) cds)
  unfolding use_entry browse_new
  use_entry_miss id crit p c cds r miss found =
      let w = (browse_or_search_all s id crit cds.world).1 in
      let run : use_entry h s id crit p c cds
          ≡ set_new p c (allocate (browse_or_search_all s id crit cds.world) cds) =
        rw (miss, use_entry) refl in
      run ∙ ap (λ x. set_new p c (allocate (x, w) cds)) found

  pub use_entry_failed :
      (id : Bytes) (crit : Criteria) (p : ℕ) (c : Cache T) (cds : ContentDir T W)
      → (Entry.cached_data (c.entries p) == 0) ≡ true
      → (browse_or_search_all s id crit cds.world).0 ≡ none
      → referenced h s (use_entry h s id crit p c cds) ≡ (
        none,
        record cds {
          world = (browse_or_search_all s id crit cds.world).1;
          cache = some (set_data p 0 c);
        },
      )
  unfolding referenced
  use_entry_failed id crit p c cds miss failed =
      ap (referenced h s) (use_entry_miss id crit p c cds none miss failed)

  pub use_entry_new :
      (id : Bytes) (crit : Criteria) (p : ℕ) (c : Cache T) (cds : ContentDir T W)
      (os : List DidlObject)
      → (Entry.cached_data (c.entries p) == 0) ≡ true
      → (browse_or_search_all s id crit cds.world).0 ≡ some os
      → 0 < cds.next
      → referenced h s (use_entry h s id crit p c cds) ≡ (
        some cds.next,
        add_ref cds.next
            (record (new_children os
              (record cds { world = (browse_or_search_all s id crit cds.world).1 })) {
                cache = some (set_data p cds.next c);
              }),
      )
  unfolding referenced
  use_entry_new id crit p c cds os miss found positive =
      let real : (cds.next == 0) ≡ false = ground arith in
      ap (referenced h s) (use_entry_miss id crit p c cds (some os) miss found)
      ∙ rw (real, referenced) refl

  use_entry-Counted :
      (id : Bytes) (crit : Criteria) (p : ℕ) (key : Bytes) (held : ℕ → ℕ) (c : Cache T)
      (cds : ContentDir T W)
      → IsCounted h held c cds
      → h.hash_lookup key c.table ≡ some p
      → Counted h held cds (referenced h s (use_entry h s id crit p c cds))
  use_entry-Counted id crit p key held c cds i there =
      let d = Entry.cached_data (c.entries p) in
      elim (Bool-cases (d == 0)) [
        | inr hit ↦
            let real : d ≢ 0 = ground arith in
            let low = i.below d key real (p, there, refl) in
            subst (Counted h held cds) (sym (use_entry_hit id crit p c cds hit)) (
              (c, granted h laws held c cds d key i real (p, there, refl)),
              (real, low),
              (omega arith, λ q lt. refl),
            )
        | inl miss ↦
            let w = (browse_or_search_all s id crit cds.world).1 in
            elim (Option-cases (browse_or_search_all s id crit cds.world).0) [
              | inl failed ↦
                  subst (Counted h held cds) (sym (use_entry_failed id crit p c cds miss failed)) (
                    (set_data p 0 c, stored_null h laws held c cds p w i),
                    tt,
                    (omega arith, λ q lt. refl),
                  )
              | inr (os, found) ↦
                  let made = record (new_children os (record cds { world = w })) {
                    cache = some (set_data p cds.next c);
                  } in
                  let one : held cds.next + 1 ≡ 1 =
                    (let free = i.unused cds.next (omega arith) in omega (arith, free)) in
                  let counted : IsCounted h (at held cds.next (held cds.next + 1))
                      (set_data p cds.next c) (add_ref cds.next made) =
                    subst
                      (λ n.
                        IsCounted h (at held cds.next n) (set_data p cds.next c)
                          (add_ref cds.next made))
                      (sym one) (stored_new h laws held c cds p w os i) in
                  let positive = i.positive in
                  subst (Counted h held cds)
                    (sym (use_entry_new id crit p c cds os miss found i.positive))
                    (
                      (set_data p cds.next c, counted),
                      (omega arith, omega arith),
                      (
                        omega arith,
                        λ q lt.
                            (let other : (cds.next == q) ≡ false = ground arith in rw other refl),
                      ),
                    )
            ]
      ]

  -- A request through the cache keeps the references right.
  pub with_cache-Counted :
      (id : Bytes) (crit : Criteria) (now : ℕ) (held : ℕ → ℕ) (c : Cache T) (cds : ContentDir T W)
      → IsCounted h held c cds
      → Counted h held cds (browse_or_search_with_cache h s (some id) (some crit) now cds)
  unfolding browse_or_search_with_cache through with_entry
  with_cache-Counted id crit now held c cds i =
      let key = cache_key id crit in
      let r = Cache.get h (some key) now c in
      let tidy = get-IsTidy h laws key now c i.sound (IsCounted-IsTidy h held c cds i) in
      let sound = get-IsSound h laws key now c i.sound in
      let after = settled h laws held c (r.1) cds i tidy sound in
      let c' = record (r.1) { freed = [] } in
      let cds' = record (free_expired ((r.1).freed) cds) { cache = some c' } in
      let rest = free_expired-rest ((r.1).freed) cds in
      let next' : cds'.next ≡ cds.next = ap (λ (x : ContentDir T W). x.next) rest in
      let children' : cds'.children ≡ cds.children = ap (λ (x : ContentDir T W). x.children) rest in
      let run : browse_or_search_with_cache h s (some id) (some crit) now cds
          ≡ with_entry h s id crit r cds =
        ap (λ x. through h s x id crit now cds) i.cached in
      subst (Counted h held cds) (sym run) (elim (get_lem h laws key now c i.sound) [
        | inl (failed, missing, refused) ↦
            rw (failed, with_entry)
              ((c', after), tt, (omega (arith, next'), λ q lt. ap (λ f. f q) children'))
        | inr (p, found, slot) ↦
            let (counted, in_use, (grows, kept)) =
              use_entry-Counted id crit p key held c' cds' after slot.0 in
            rw (found, with_entry)
              (
                counted,
                in_use,
                (
                  omega (arith, next', grows),
                  λ q lt. kept q (omega (arith, next')) ∙ ap (λ f. f q) children',
                ),
              )
      ])
