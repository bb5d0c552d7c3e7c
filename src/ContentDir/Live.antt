-- ===== src/ContentDir/Live.antt =====
-- djmount/content_dir.c: what the program sees of its results, as long as it does not destroy them.
use djmount.Base.{
  ℕ, ◌-◌, ◌≤◌, ◌<◌, true, ◌≡◌, refl, sym, ap, ◌∙◌, subst, inl, inr, List, [], ◌∷◌, ◌++◌, Option,
  none, some, arith,
}
use djmount.Base.Lists.{Bytes, All, All-append, All-mono}
use djmount.Base.Tests.{◌==◌, ==_iff, Bool-cases, Option-cases}
use djmount.DidlObject.{DidlObject}
use djmount.Cache.{Entry, HashTable, Laws, Cache, create_cache}
use djmount.Cache.Tidy.{Holds}
use djmount.Cache.Create.{MakesEmpty, create_cache-empty}
use djmount.ContentDir.{Server}
use djmount.ContentDir.Service.{
  ContentDir, at, destroy_result, browse_or_search_with_cache, get_search_capabilities,
  create_content_dir, cache_size, cache_timeout,
}
use djmount.ContentDir.References.{IsCounted}
use djmount.ContentDir.Counts.{destroy_result-IsCounted}
use djmount.ContentDir.Results.{with_result, Counted, with_cache-Counted}
use djmount.ContentDir.Held.{
  HeldResults, holders, add_held, Step, request, capabilities, destroy, Reach, new_service,
  then_step, Shows, IsLive, holders-append, All-split, IsCounted-ext, Shows-Keeps,
  destroy_result-Keeps, one_more, new_dir,
}

module _ {T W : Type 0} (h : HashTable T) (laws : Laws h) where
  -- A result more.
  add_held-IsLive :
      (cds : ContentDir T W) (rs : HeldResults) (r : Option ℕ × ContentDir T W)
      → Counted h (holders rs) cds r
      → All (Shows cds) rs
      → IsLive h (r.1) (add_held rs r)
  add_held-IsLive cds rs (none, cds') (counted, in_use, keeps) shown =
      (counted, All-mono (Shows cds) (Shows-Keeps cds cds' keeps) rs shown)
  add_held-IsLive cds rs (some p, cds') ((c, counted), (real, low), keeps) shown =
      let os = cds'.children p in
      let same : (a : ℕ) → with_result (some p) (holders rs) a ≡ holders ((p, os) ∷ rs) a = λ a.
        elim (Bool-cases (p == a)) [
          | inl here ↦ rw (here, (==_iff p a).0 here) (omega arith)
          | inr other ↦ rw other (omega arith)
        ] in
      (
        (c, IsCounted-ext h _ _ c cds' cds' same refl refl refl counted),
        ((real, low, refl), All-mono (Shows cds) (Shows-Keeps cds cds' keeps) rs shown),
      )

  -- A result less.
  destroy-IsLive :
      (cds : ContentDir T W) (xs ys : HeldResults) (p : ℕ) (os : List DidlObject)
      → IsLive h cds (xs ++ (p, os) ∷ ys)
      → IsLive h (destroy_result p cds) (xs ++ ys)
  destroy-IsLive cds xs ys p os ((c, counted), shown) =
      let (before, ((real, low, same), after)) = All-split (Shows cds) xs ((p, os) ∷ ys) shown in
      let held = holders (xs ++ (p, os) ∷ ys) in
      let split = holders-append xs ((p, os) ∷ ys) in
      let join = holders-append xs ys in
      let some_held : 0 < held p = omega (arith, split p, one_more p os ys) in
      let fewer : (a : ℕ) → at held p (held p - 1) a ≡ holders (xs ++ ys) a = λ a.
        elim (Bool-cases (p == a)) [
          | inl here ↦
              let e : p ≡ a = (==_iff p a).0 here in
              let left : held p - 1 ≡ holders (xs ++ ys) p =
                omega (arith, split p, one_more p os ys, join p) in
              rw here (left ∙ ap (holders (xs ++ ys)) e)
          | inr other ↦
              let none_here : holders ((p, os) ∷ ys) a ≡ holders ys a = rw other (omega arith) in
              rw other (omega (arith, split a, none_here, join a))
        ] in
      (
        (
          c,
          IsCounted-ext h _ _ c (destroy_result p cds) (destroy_result p cds) fewer refl refl refl
              (destroy_result-IsCounted h laws held c cds p counted real some_held),
        ),
        All-mono (Shows cds) (Shows-Keeps cds (destroy_result p cds) (destroy_result-Keeps p cds))
            (xs ++ ys) (All-append (Shows cds) xs ys before after),
      )

module _ {T W D : Type 0} (h : HashTable T) (laws : Laws h) (s : Server W D) where
  capabilities-IsLive :
      (cds : ContentDir T W) (rs : HeldResults)
      → IsLive h cds rs
      → IsLive h (get_search_capabilities h s cds).1 rs
  unfolding get_search_capabilities
  capabilities-IsLive cds rs ((c, counted), shown) = elim (Option-cases cds.search_caps) [
    | inr (caps, there) ↦ rw (there, get_search_capabilities) ((c, counted), shown)
    | inl missing ↦
        rw (missing, get_search_capabilities)
          (
            (c, IsCounted-ext h _ _ c cds _ (λ a. refl) refl refl refl counted),
            All-mono (Shows cds) (λ r x. x) rs shown,
          )
  ]

  Step-IsLive :
      {cds cds' : ContentDir T W} {rs rs' : HeldResults}
      → Step h s cds rs cds' rs'
      → IsLive h cds rs
      → IsLive h cds' rs'
  Step-IsLive (request id crit now cds rs) ((c, counted), shown) =
      add_held-IsLive h laws cds rs (browse_or_search_with_cache h s (some id) (some crit) now cds)
        (with_cache-Counted h laws s id crit now (holders rs) c cds counted) shown
  Step-IsLive (capabilities cds rs) live = capabilities-IsLive cds rs live
  Step-IsLive (destroy cds xs ys p os) live = destroy-IsLive h laws cds xs ys p os live

  -- A new service, from a hash table that is made empty.
  create_content_dir-IsLive :
      MakesEmpty h
      → (next : ℕ) (entries : ℕ → Entry) (w : W) (cds : ContentDir T W)
      → create_content_dir h next entries w ≡ some cds
      → IsLive h cds []
  unfolding create_content_dir
  create_content_dir-IsLive fresh next entries w cds e =
      elim (Option-cases (create_cache h cache_size cache_timeout true next entries)) [
        | inl refused ↦ let never : none ≡ some cds = rw (refused, create_content_dir) at e in cc
        | inr (c, made) ↦
            let (empty, unfreed, age) =
              create_cache-empty h fresh cache_size cache_timeout true next entries c made in
            let new : some (new_dir c w) ≡ some cds = rw (made, create_content_dir) at e in
            let never : (a : ℕ) (k : Bytes) → Holds h c a k → ⊥ = λ a k x.
              (let (p, there, data_at) = x in
                let both : none ≡ some p = sym (empty k) ∙ there in cc) in
            let same : new_dir c w ≡ cds = cc in
            subst (λ x. IsLive h x []) same
              (
                (
                  c,
                  record {
                    cached = refl;
                    sound = λ k p there. (let both : none ≡ some p = sym (empty k) ∙ there in cc);
                    empty = unfreed;
                    unique = λ a k k' n x y. absurd (never a k x);
                    owned = λ a k n x. absurd (never a k x);
                    enough = λ a n. omega arith;
                    below = λ a k n x. absurd (never a k x);
                    unused = λ a low. refl;
                    positive = omega arith;
                  },
                ),
                tt,
              )
      ]

  Reach-IsLive :
      MakesEmpty h → {cds : ContentDir T W} {rs : HeldResults} → Reach h s cds rs → IsLive h cds rs
  Reach-IsLive fresh (new_service next entries w cds e) =
      create_content_dir-IsLive fresh next entries w cds e
  Reach-IsLive fresh (then_step reach step) = Step-IsLive step (Reach-IsLive fresh reach)

  holders-Shows :
      (held : HeldResults) (cds : ContentDir T W) (c : Cache T) (rs : HeldResults)
      → IsCounted h (holders held) c cds
      → ((a : ℕ) → holders rs a ≤ holders held a)
      → All (Shows cds) rs
      → All (λ r. (0 < cds.refs (r.0)) × (cds.children (r.0) ≡ r.1)) rs
  holders-Shows held cds c [] i within shown = tt
  holders-Shows held cds c ((p, os) ∷ rs) i within ((real, low, same), shown) = (
    (omega (arith, i.enough p real, within p, one_more p os rs), same),
    holders-Shows held cds c rs i (λ a. omega (arith, within a)) shown,
  )

  -- Whatever is browsed or searched and whichever results are destroyed, in any order and at any times, so that the
  -- cache expires and replaces what it likes: the children of every result that the program still holds have a
  -- reference, so that they are not freed, and are the objects that the result had at first.
  pub Reach-results :
      MakesEmpty h
      → (cds : ContentDir T W) (rs : HeldResults) → Reach h s cds rs
      → All (λ r. (0 < cds.refs (r.0)) × (cds.children (r.0) ≡ r.1)) rs
  Reach-results fresh cds rs reach =
      let ((c, counted), shown) = Reach-IsLive fresh reach in
      holders-Shows rs cds c rs counted (λ a. omega arith) shown
