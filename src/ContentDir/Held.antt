-- ===== src/ContentDir/Held.antt =====
-- djmount/content_dir.c: the results that the program holds, and the steps that it takes.
use djmount.Base.{
  ℕ, suc, ◌+◌, ◌<◌, ◌≡◌, ◌≢◌, refl, sym, ap, ◌∙◌, inl, inr, List, [], ◌∷◌, ◌++◌, Option, none, some,
  arith,
}
use djmount.Base.Lists.{Bytes, All}
use djmount.Base.Tests.{◌==◌, ==_refl, if◌then◌else◌, Bool-cases}
use djmount.DidlObject.{DidlObject}
use djmount.Cache.{Entry, HashTable, Cache}
use djmount.ContentDir.{Criteria, Server}
use djmount.ContentDir.Service.{
  ContentDir, destroy_result, browse_or_search_with_cache, get_search_capabilities,
  create_content_dir,
}
use djmount.ContentDir.References.{IsCounted}
use djmount.ContentDir.Results.{Keeps}

-- What `ContentDir_Create` makes with a cache.
abbrev pub new_dir : {T W : Type 0} → Cache T → W → ContentDir T W
new_dir c w = record {
  search_caps = none;
  cache = some c;
  children = λ p. [];
  refs = λ p. 0;
  next = 1;
  world = w;
}

-- The results that the program has and did not destroy, each with the objects that it had when it was returned.
abbrev pub HeldResults : Type 0
HeldResults = List (ℕ × List DidlObject)

-- How many of them have the children at an address.
abbrev pub holders : HeldResults → ℕ → ℕ
holders [] a = 0
holders ((p, os) ∷ rs) a = (if p == a then 1 else 0) + holders rs a

-- What is held after a call that may have returned a result.
abbrev pub add_held : {T W : Type 0} → HeldResults → Option ℕ × ContentDir T W → HeldResults
add_held rs (none, cds) = rs
add_held rs (some p, cds) = (p, cds.children p) ∷ rs

-- The program browses or searches at any time, asks for the capabilities, and destroys any result that it holds.
pub data Step {T W D : Type 0} (h : HashTable T) (s : Server W D)
    : ContentDir T W → HeldResults → ContentDir T W → HeldResults → Type 0 where
  request :
      (id : Bytes) (crit : Criteria) (now : ℕ) (cds : ContentDir T W) (rs : HeldResults)
      → Step h s cds rs
          (browse_or_search_with_cache h s (some id) (some crit) now cds).1
          (add_held rs (browse_or_search_with_cache h s (some id) (some crit) now cds))
  capabilities :
      (cds : ContentDir T W) (rs : HeldResults)
      → Step h s cds rs (get_search_capabilities h s cds).1 rs
  destroy :
      (cds : ContentDir T W) (xs ys : HeldResults) (p : ℕ) (os : List DidlObject)
      → Step h s cds (xs ++ (p, os) ∷ ys) (destroy_result p cds) (xs ++ ys)

-- From a new service, with no results.
pub data Reach {T W D : Type 0} (h : HashTable T) (s : Server W D)
    : ContentDir T W → HeldResults → Type 0 where
  new_service :
      (next : ℕ) (entries : ℕ → Entry) (w : W) (cds : ContentDir T W)
      → create_content_dir h next entries w ≡ some cds
      → Reach h s cds []
  then_step :
      {cds cds' : ContentDir T W} {rs rs' : HeldResults}
      → Reach h s cds rs
      → Step h s cds rs cds' rs'
      → Reach h s cds' rs'

-- The children of a result are at an address in use, and are the objects that it had.
abbrev pub Shows : {T W : Type 0} → ContentDir T W → ℕ × List DidlObject → Type 0
Shows cds r = (r.0 ≢ 0) × (r.0 < cds.next) × (cds.children (r.0) ≡ r.1)

-- The references are right for the results that are held, and these show what they did.
abbrev pub IsLive : {T W : Type 0} → HashTable T → ContentDir T W → HeldResults → Type 0
IsLive h cds rs = ((c : Cache _) × IsCounted h (holders rs) c cds) × All (Shows cds) rs

pub holders-append :
    (xs ys : HeldResults) (a : ℕ) → holders (xs ++ ys) a ≡ holders xs a + holders ys a
holders-append [] ys a = omega arith
holders-append ((p, os) ∷ xs) ys a = omega (arith, holders-append xs ys a)

pub All-split {ℓ κ} :
    {A : Type ℓ} (P : A → Type κ) (xs ys : List A) → All P (xs ++ ys) → All P xs × All P ys
All-split P [] ys h = (tt, h)
All-split P (x ∷ xs) ys h = let (l, r) = All-split P xs ys h.1 in ((h.0, l), r)

module _ {T W : Type 0} (h : HashTable T) where
  -- Only the numbers of results count, and of the service only the references and the cache.
  pub IsCounted-ext :
      (held held' : ℕ → ℕ) (c : Cache T) (cds cds' : ContentDir T W)
      → ((a : ℕ) → held a ≡ held' a)
      → cds'.cache ≡ cds.cache
      → cds'.refs ≡ cds.refs
      → cds'.next ≡ cds.next
      → IsCounted h held c cds
      → IsCounted h held' c cds'
  IsCounted-ext held held' c cds cds' same cache refs next i = record {
    cached = cache ∙ i.cached;
    sound = i.sound;
    empty = i.empty;
    unique = i.unique;
    owned = λ a k n x. ap (λ f. f a) refs ∙ i.owned a k n x ∙ ap suc (same a);
    enough = λ a n. rw (← same a, refs) (i.enough a n);
    below = λ a k n x. rw next (i.below a k n x);
    unused = λ a low. sym (same a) ∙ i.unused a (rw next at low);
    positive = rw next i.positive;
  }

pub Shows-Keeps :
    {T W : Type 0} (cds cds' : ContentDir T W)
    → Keeps cds cds'
    → (r : ℕ × List DidlObject) → Shows cds r
    → Shows cds' r
Shows-Keeps cds cds' (grows, kept) (p, os) (real, low, same) =
    (real, omega arith, kept p low ∙ same)

pub destroy_result-Keeps :
    {T W : Type 0} (p : ℕ) (cds : ContentDir T W) → Keeps cds (destroy_result p cds)
unfolding destroy_result
destroy_result-Keeps p cds = elim (Bool-cases (p == 0)) [
  | inl null ↦ rw null (omega arith, λ q lt. refl)
  | inr real ↦ rw real (omega arith, λ q lt. refl)
]

pub one_more :
    (p : ℕ) (os : List DidlObject) (ys : HeldResults)
    → holders ((p, os) ∷ ys) p ≡ suc (holders ys p)
one_more p os ys = rw (==_refl p) (omega arith)
