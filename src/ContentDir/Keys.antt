-- ===== src/ContentDir/Keys.antt =====
-- djmount/content_dir.c: the keys of the cache.
use djmount.Base.{◌≡◌, ◌≢◌, refl, sym, ap, ◌⊎◌, inl, inr, [], ◌∷◌, ◌++◌}
use djmount.Base.Lists.{Bytes, All}
use djmount.Base.Text.{codes}
use djmount.ContentDir.{Criteria, browse_metadata, browse_children, search_for}
use djmount.ContentDir.Service.{cache_key}

abbrev pub NoTab : Bytes → Type 0
NoTab = All (λ c. c ≢ 9)

-- Two criteria that are sent alike but for the name of the action: the metadata of an object, and the search for a text
-- that is the name of that action.
abbrev pub Confused : Criteria → Criteria → Type 0
Confused c d =
    ((c ≡ browse_metadata) × (d ≡ search_for (codes "BrowseMetadata")))
    ⊎ ((c ≡ search_for (codes "BrowseMetadata")) × (d ≡ browse_metadata))

-- A text with no tab ends at the first tab.
split_tab : (a b x y : Bytes) → NoTab a → NoTab b → a ++ 9 ∷ x ≡ b ++ 9 ∷ y → (a ≡ b) × (x ≡ y)
split_tab [] [] x y ha hb e = (refl, cc)
split_tab [] (d ∷ b) x y ha hb e = absurd (hb.0 (cc))
split_tab (c ∷ a) [] x y ha hb e = absurd (ha.0 (cc))
split_tab (c ∷ a) (d ∷ b) x y ha hb e =
    let (same, same') = split_tab a b x y ha.1 hb.1 (cc) in let head : c ≡ d = cc in (cc, same')

before_tab : (a b y : Bytes) → NoTab a → a ≢ b ++ 9 ∷ y
before_tab [] [] y h e = cc
before_tab [] (d ∷ b) y h e = cc
before_tab (c ∷ a) [] y h e = h.0 (cc)
before_tab (c ∷ a) (d ∷ b) y h e = before_tab a b y h.1 (cc)

-- Two requests for objects whose identifiers have no tab share an entry of the cache only if they are the same request,
-- or if one is for the metadata of the object, and the other a search in it for the text "BrowseMetadata".
pub cache_key_injective :
    (id id' : Bytes) (c d : Criteria)
    → NoTab id
    → NoTab id'
    → cache_key id c ≡ cache_key id' d
    → (id ≡ id') × ((c ≡ d) ⊎ Confused c d)
unfolding cache_key
cache_key_injective id id' browse_children browse_children h h' e = (e, inl refl)
cache_key_injective id id' browse_children browse_metadata h h' e =
    absurd (before_tab id id' (codes "BrowseMetadata") h e)
cache_key_injective id id' browse_children (search_for t) h h' e = absurd (before_tab id id' t h e)
cache_key_injective id id' browse_metadata browse_children h h' e =
    absurd (before_tab id' id (codes "BrowseMetadata") h' (sym e))
cache_key_injective id id' (search_for t) browse_children h h' e =
    absurd (before_tab id' id t h' (sym e))
cache_key_injective id id' browse_metadata browse_metadata h h' e =
    let (same, text) = split_tab id id' (codes "BrowseMetadata") (codes "BrowseMetadata") h h' e in
    (same, inl refl)
cache_key_injective id id' browse_metadata (search_for t) h h' e =
    let (same, text) = split_tab id id' (codes "BrowseMetadata") t h h' e in
    (same, inr (inl (refl, ap search_for (sym text))))
cache_key_injective id id' (search_for t) browse_metadata h h' e =
    let (same, text) = split_tab id id' t (codes "BrowseMetadata") h h' e in
    (same, inr (inr (ap search_for text, refl)))
cache_key_injective id id' (search_for t) (search_for u) h h' e =
    let (same, text) = split_tab id id' t u h h' e in (same, inl (ap search_for text))
