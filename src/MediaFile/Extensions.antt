-- ===== src/MediaFile/Extensions.antt =====
-- djmount/media_file.c: the extension of a file, from the table of formats or from its MIME type.
use djmount.Base.{
  ℕ, zero, suc, ◌<◌, Bool, true, false, ◌||◌, ◌≡◌, ◌≢◌, refl, sym, subst, inl, inr, List, [], ◌∷◌,
  none, some, arith,
}
use djmount.Base.Lists.{Bytes, length, get_or, take, drop, drop-all, All}
use djmount.Base.Tests.{◌==◌, ==_iff, if◌then◌else◌, Bool-cases, Option-cases}
use djmount.Base.Text.{starts_with}
use djmount.MediaFile.Formats.{MimeType, mimes, mime}
use djmount.MediaFile.{find_format, guess_extension, extension_of}

abbrev has_slash : Bytes → Bool
has_slash [] = false
has_slash (c ∷ cs) = c == b'/' || has_slash cs

abbrev no_slash : Bytes → Bool
no_slash [] = true
no_slash (c ∷ cs) = if c == b'/' then false else no_slash cs

abbrev pub NoSlash : Bytes → Type 0
NoSlash = All (λ c. c ≢ b'/')

-- A format has an extension with no slash, or its type has a slash.
abbrev pub is_guarded : MimeType → Bool
is_guarded f = elim (f.extension) [ none ↦ has_slash f.mimetype | some e ↦ no_slash e ]

abbrev pub all_guarded : List MimeType → Bool
all_guarded [] = true
all_guarded (f ∷ fs) = if is_guarded f then all_guarded fs else false

pub mimes_guarded : all_guarded mimes ≡ true
unfolding mimes mime
mimes_guarded = refl

no_slash-NoSlash : (s : Bytes) → no_slash s ≡ true → NoSlash s
no_slash-NoSlash [] h = tt
no_slash-NoSlash (c ∷ s) h = elim (Bool-cases (c == b'/')) [
  | inl slash ↦ let never : false ≡ true = rw slash at h in cc
  | inr other ↦ (ground arith, no_slash-NoSlash s (rw other at h))
]

has_slash-starts_with :
    (p m : Bytes) → starts_with p m ≡ true → has_slash p ≡ true → has_slash m ≡ true
has_slash-starts_with [] m h h' = cc
has_slash-starts_with (c ∷ p) [] h h' = cc
has_slash-starts_with (c ∷ p) (d ∷ m) h h' = elim (Bool-cases (c == d)) [
  | inr other ↦ let never : false ≡ true = rw other at h in cc
  | inl same ↦
      let e : c ≡ d = (==_iff c d).0 same in
      elim (Bool-cases (c == b'/')) [
        | inl slash ↦ subst (λ x. (x == b'/' || has_slash m) ≡ true) e (rw slash refl)
        | inr plain ↦
            let rest = has_slash-starts_with p m (rw same at h) (rw plain at h') in ground arith
      ]
]

pub find_format-guarded :
    (fs : List MimeType) (m : Bytes) (f : MimeType)
    → all_guarded fs ≡ true
    → find_format fs m ≡ some f
    → (is_guarded f ≡ true) × (starts_with f.mimetype m ≡ true)
unfolding find_format
find_format-guarded [] m f g e = cc
find_format-guarded (x ∷ fs) m f g e = elim (Bool-cases (is_guarded x)) [
  | inr bad ↦ let never : false ≡ true = rw bad at g in cc
  | inl good ↦ elim (Bool-cases (starts_with x.mimetype m)) [
    | inl starts ↦
        let at : some x ≡ some f = rw starts at e in
        let same : x ≡ f = cc in
        subst (λ y. (is_guarded y ≡ true) × (starts_with y.mimetype m ≡ true)) same (good, starts)
    | inr other ↦ find_format-guarded fs m f (rw good at g) (rw other at e)
  ]
]

-- A byte at which the loop goes on is no slash.
not_slash : (c : ℕ) → (c == b'/' || c == b'-') ≡ false → c ≢ b'/'
not_slash c h = ground arith

-- The byte before which the loop stops is found if there is a slash before its start.
guess_extension-some :
    (m : Bytes) (i j : ℕ)
    → j < i
    → get_or m j 0 ≡ b'/'
    → (e : Bytes) × (guess_extension m i ≡ some e)
unfolding guess_extension
guess_extension-some m zero j lt at = absurd (omega arith)
guess_extension-some m (suc i) j lt at =
    elim (Bool-cases (get_or m i 0 == b'/' || get_or m i 0 == b'-')) [
      | inl stop ↦ (drop (suc i) m, rw stop refl)
      | inr on ↦
          let differs : j ≢ i = λ same.
            let here : get_or m i 0 ≡ b'/' = subst (λ k. get_or m k 0 ≡ b'/') same at in
            not_slash (get_or m i 0) on here in
          let before : j < i = omega (arith, differs) in
          let (e, run) = guess_extension-some m i j before at in (e, rw on run)
    ]

has_slash_at : (m : Bytes) → has_slash m ≡ true → (j : ℕ) × (j < length m) × (get_or m j 0 ≡ b'/')
has_slash_at [] h = cc
has_slash_at (c ∷ m) h = elim (Bool-cases (c == b'/')) [
  | inl slash ↦ (0, omega arith, (==_iff c b'/').0 slash)
  | inr other ↦ let (j, lt, at) = has_slash_at m (rw other at h) in (suc j, omega arith, at)
]

All-drop_at :
    (m : Bytes) (i : ℕ) → get_or m i 0 ≢ b'/' → NoSlash (drop (suc i) m) → NoSlash (drop i m)
All-drop_at [] zero h hs = tt
All-drop_at [] (suc i) h hs = tt
All-drop_at (c ∷ m) zero h hs = (h, hs)
All-drop_at (c ∷ m) (suc i) h hs = All-drop_at m i h hs

guess_extension-NoSlash :
    (m : Bytes) (i : ℕ) (e : Bytes) → NoSlash (drop i m) → guess_extension m i ≡ some e → NoSlash e
unfolding guess_extension
guess_extension-NoSlash m zero e h run = cc
guess_extension-NoSlash m (suc i) e h run =
    elim (Bool-cases (get_or m i 0 == b'/' || get_or m i 0 == b'-')) [
      | inl stop ↦
          let at : some (drop (suc i) m) ≡ some e = rw stop at run in
          let same : drop (suc i) m ≡ e = cc in subst NoSlash same h
      | inr on ↦
          guess_extension-NoSlash m i e (All-drop_at m i (not_slash (get_or m i 0) on) h)
            (rw on at run)
    ]

pub NoSlash-take : (n : ℕ) (s : Bytes) → NoSlash s → NoSlash (take n s)
NoSlash-take zero s h = tt
NoSlash-take (suc n) [] h = tt
NoSlash-take (suc n) (c ∷ s) h = (h.0, NoSlash-take n s h.1)

-- For a format of the table that begins the type, there is an extension.
pub extension_of-some :
    (f : MimeType) (m : Bytes)
    → is_guarded f ≡ true
    → starts_with f.mimetype m ≡ true
    → (e : Bytes) × (extension_of f m ≡ some e) × NoSlash e
unfolding extension_of
extension_of-some f m guarded starts = elim (Option-cases f.extension) [
  | inr (e, given) ↦ (e, rw (given, extension_of) refl, no_slash-NoSlash e (rw given at guarded))
  | inl guessed ↦
      let slash : has_slash m ≡ true =
        has_slash-starts_with f.mimetype m starts (rw guessed at guarded) in
      let (j, lt, at) = has_slash_at m slash in
      let (e, run) = guess_extension-some m (length m) j lt at in
      let empty : drop (length m) m ≡ [] = drop-all (length m) m (omega arith) in
      (
        e,
        rw (guessed, extension_of) run,
        guess_extension-NoSlash m (length m) e (subst NoSlash (sym empty) tt) run,
      )
]
