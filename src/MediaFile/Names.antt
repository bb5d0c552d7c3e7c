-- ===== src/MediaFile/Names.antt =====
-- djmount/media_file.c: the name of a file from the name of its object.
use djmount.Base.{
  ℕ, true, false, ◌≡◌, ◌≢◌, refl, ap, ◌∙◌, ◌⊎◌, inl, inr, [], ◌∷◌, ◌++◌, none, some, arith,
}
use djmount.Base.Lists.{Bytes, bytes_eq, bytes_eq_refl, bytes_eq_sound, All}
use djmount.Base.Tests.{◌==◌, Bool-cases, Option-cases}
use djmount.MediaFile.{after_last_dot, has_extension, get_name}

abbrev pub NoDot : Bytes → Type 0
NoDot = All (λ c. c ≢ b'.')

after_last_dot-none : (e : Bytes) → NoDot e → after_last_dot e ≡ none
unfolding after_last_dot
after_last_dot-none [] h = refl
after_last_dot-none (c ∷ e) h =
    let other : (c == b'.') ≡ false = ground (arith, h.0) in
    rw (after_last_dot-none e h.1, other, after_last_dot) refl

after_last_dot-append : (b e : Bytes) → NoDot e → after_last_dot (b ++ b'.' ∷ e) ≡ some e
unfolding after_last_dot
after_last_dot-append [] e h = rw (after_last_dot-none e h, after_last_dot) refl
after_last_dot-append (c ∷ b) e h = rw (after_last_dot-append b e h, after_last_dot) refl

has_extension-true : (n e : Bytes) → after_last_dot n ≡ some e → has_extension n e ≡ true
has_extension-true n e at = rw (at, has_extension) (bytes_eq_refl e)

get_name-kept :
    (n : Bytes) (c : ℕ) (e : Bytes)
    → has_extension n (c ∷ e) ≡ true
    → get_name (some n) (some (c ∷ e)) ≡ some n
unfolding get_name
get_name-kept n c e h = rw (h, get_name) refl

get_name-appended :
    (n : Bytes) (c : ℕ) (e : Bytes)
    → has_extension n (c ∷ e) ≡ false
    → get_name (some n) (some (c ∷ e)) ≡ some (n ++ b'.' ∷ c ∷ e)
unfolding get_name
get_name-appended n c e h = rw (h, get_name) refl

has_extension_sound : (n e : Bytes) → has_extension n e ≡ true → after_last_dot n ≡ some e
has_extension_sound n e h = elim (Option-cases (after_last_dot n)) [
  | inl missing ↦ let never : false ≡ true = rw (missing, has_extension) at h in cc
  | inr (x, at) ↦
      let same : bytes_eq x e ≡ true = rw (at, has_extension) at h in
      at ∙ ap some (bytes_eq_sound x e same)
]

-- For an extension that is not empty and has no dot, `MediaFile_GetName` gives the name of the object, where that ends
-- with a dot and the extension, and else that name with a dot and the extension: the result ends with them, and is
-- its own name with that extension.
pub get_name_lem :
    (b : Bytes) (c : ℕ) (e : Bytes)
    → NoDot (c ∷ e)
    → (n : Bytes) × (get_name (some b) (some (c ∷ e)) ≡ some n)
      × ((n ≡ b) ⊎ (n ≡ b ++ b'.' ∷ c ∷ e))
      × (after_last_dot n ≡ some (c ∷ e))
      × (get_name (some n) (some (c ∷ e)) ≡ some n)
get_name_lem b c e h = elim (Bool-cases (has_extension b (c ∷ e))) [
  | inl there ↦
      let kept = get_name-kept b c e there in
      (b, kept, inl refl, has_extension_sound b (c ∷ e) there, kept)
  | inr missing ↦
      let at = after_last_dot-append b (c ∷ e) h in
      let n = b ++ b'.' ∷ c ∷ e in
      (
        n,
        get_name-appended b c e missing,
        inr refl,
        at,
        get_name-kept n c e (has_extension-true n (c ∷ e) at),
      )
]
