-- ===== src/ContentDir/Through.antt =====
-- djmount/content_dir.c: what a request through the cache finds.
use djmount.Base.{
  ℕ, true, false, ◌<◌, ◌≡◌, ◌≢◌, refl, sym, ap, ◌∙◌, subst, ◌⊎◌, inl, inr, List, [], Option, none,
  some,
}
use djmount.Base.Lists.{Bytes}
use djmount.Base.Tests.{◌==◌, ==_iff, ==_refl, Bool-cases, Option-cases}
use djmount.DidlObject.{DidlObject}
use djmount.Cache
use djmount.Cache.{Entry, HashTable, Laws, Cache}
use djmount.Cache.View.{view, looked_up}
use djmount.Cache.Get.{get_lem}
use djmount.ContentDir.{Criteria, Server, browse_or_search_all}
use djmount.ContentDir.Service.{
  ContentDir, cache_key, free_expired, through, with_entry, referenced, use_entry,
  browse_or_search_with_cache,
}
use djmount.ContentDir.References.{IsCounted, free_expired-rest}
use djmount.ContentDir.Results.{use_entry_hit, use_entry_failed, use_entry_new}

module _ {T W D : Type 0} (h : HashTable T) (laws : Laws h) (s : Server W D) where
  -- The children that the cache has for a key: those of its entry while that is valid, else NULL.
  abbrev pub kept_children : ℕ → Cache T → Bytes → ℕ
  kept_children now c key = Entry.cached_data (looked_up h now c key (view h c key))

  -- A request to the service: its children are those that a result has.
  abbrev pub IsRequested : Option (List DidlObject) × W → Option ℕ × ContentDir T W → Type 0
  IsRequested (none, w) r = (r.0 ≡ none) × ((r.1).world ≡ w)
  IsRequested (some os, w) r =
      (p : ℕ) × (r.0 ≡ some p) × ((r.1).children p ≡ os) × ((r.1).world ≡ w)

  -- What a request through the cache c gives.
  abbrev pub IsFound :
      Bytes → Criteria → ℕ → Cache T → ContentDir T W → Option ℕ × ContentDir T W → Type 0
  IsFound id crit now c cds r =
      ((kept_children now c (cache_key id crit) ≢ 0)
        × (r.0 ≡ some (kept_children now c (cache_key id crit)))
        × ((r.1).children ≡ cds.children)
        × ((r.1).world ≡ cds.world))
      ⊎ (((kept_children now c (cache_key id crit) ≡ 0)
            × IsRequested (browse_or_search_all s id crit cds.world) r)
          ⊎ ((h.hash_lookup (cache_key id crit) c.table ≡ none)
              × (h.hash_insert (cache_key id crit) c.next c.table ≡ none)
              × (r.0 ≡ none)
              × ((r.1).world ≡ cds.world)))

  use_entry-IsRequested :
      (id : Bytes) (crit : Criteria) (p : ℕ) (c : Cache T) (cds : ContentDir T W)
      → (Entry.cached_data (c.entries p) == 0) ≡ true
      → 0 < cds.next
      → IsRequested
          (browse_or_search_all s id crit cds.world)
          (referenced h s (use_entry h s id crit p c cds))
  use_entry-IsRequested id crit p c cds miss positive =
      let w = (browse_or_search_all s id crit cds.world).1 in
      let r = referenced h s (use_entry h s id crit p c cds) in
      elim (Option-cases (browse_or_search_all s id crit cds.world).0) [
        | inl failed ↦
            let run = use_entry_failed h laws s id crit p c cds miss failed in
            subst (λ x. IsRequested (x, w) r) (sym failed)
              (ap (λ x. x.0) run, ap (λ x. (x.1).world) run)
        | inr (os, found) ↦
            let run = use_entry_new h laws s id crit p c cds os miss found positive in
            let self : (cds.next == cds.next) ≡ true = ==_refl cds.next in
            subst (λ x. IsRequested (x, w) r) (sym found)
              (
                cds.next,
                ap (λ x. x.0) run,
                ap (λ x. (x.1).children cds.next) run ∙ rw self refl,
                ap (λ x. (x.1).world) run,
              )
      ]

  -- A request through the cache, where the references are right: while the cache has valid children for the key, they
  -- are returned, and the service is not asked; else it is asked, and the result has the objects that it gives, or is
  -- NULL where it fails; and where the hash table takes no new entry, the result is NULL and the service is not asked.
  pub browse_or_search_with_cache_lem :
      (id : Bytes) (crit : Criteria) (now : ℕ) (held : ℕ → ℕ) (c : Cache T) (cds : ContentDir T W)
      → IsCounted h held c cds
      → IsFound id crit now c cds (browse_or_search_with_cache h s (some id) (some crit) now cds)
  unfolding browse_or_search_with_cache through with_entry
  browse_or_search_with_cache_lem id crit now held c cds i =
      let key = cache_key id crit in
      let r = Cache.get h (some key) now c in
      let c' = record (r.1) { freed = [] } in
      let cds' = record (free_expired ((r.1).freed) cds) { cache = some c' } in
      let rest = free_expired-rest ((r.1).freed) cds in
      let world' : cds'.world ≡ cds.world = ap (λ (x : ContentDir T W). x.world) rest in
      let next' : cds'.next ≡ cds.next = ap (λ (x : ContentDir T W). x.next) rest in
      let children' : cds'.children ≡ cds.children = ap (λ (x : ContentDir T W). x.children) rest in
      let run : browse_or_search_with_cache h s (some id) (some crit) now cds
          ≡ with_entry h s id crit r cds =
        ap (λ x. through h s x id crit now cds) i.cached in
      subst (IsFound id crit now c cds) (sym run) (elim (get_lem h laws key now c i.sound) [
        | inl (failed, missing, refused) ↦
            rw (failed, with_entry) (inr (inr (missing, refused, refl, world')))
        | inr (p, found, slot) ↦
            let data_at : Entry.cached_data (c'.entries p) ≡ kept_children now c key =
              ap (λ x. Entry.cached_data x) slot.1 in
            let result = referenced h s (use_entry h s id crit p c' cds') in
            let whole : IsFound id crit now c cds result =
              elim (Bool-cases (Entry.cached_data (c'.entries p) == 0)) [
                | inr hit ↦
                    let out = use_entry_hit h laws s id crit p c' cds' hit in
                    inl (
                      (λ e. (let zero : (0 == 0) ≡ false = rw (data_at, e) at hit in cc)),
                      ap (λ x. x.0) out ∙ ap some data_at,
                      ap (λ x. (x.1).children) out ∙ children',
                      ap (λ x. (x.1).world) out ∙ world',
                    )
                | inl miss ↦
                    let positive : 0 < cds'.next = rw next' i.positive in
                    inr (
                      inl (
                        sym data_at ∙ (==_iff (Entry.cached_data (c'.entries p)) 0).0 miss,
                        subst (λ w. IsRequested (browse_or_search_all s id crit w) result) world'
                            (use_entry-IsRequested id crit p c' cds' miss positive),
                      ))
              ] in
            rw (found, with_entry) whole
      ])
