-- ===== src/MediaFile/Preferred.antt =====
-- djmount/media_file.c: what `MediaFile_GetPreferred` finds.
use djmount.Base.{
  ◌≤◌, true, ◌≡◌, refl, ap, subst, ◌⊎◌, inl, inr, List, [], ◌∷◌, ◌++◌, none, some, arith,
}
use djmount.Base.Lists.{Bytes, length, length-take, take, All}
use djmount.Base.Tests.{Option-cases}
use djmount.Base.Text.{starts_with}
use djmount.MediaFile.Formats.{MimeType, mimes}
use djmount.MediaFile.{
  Resource, MediaFile, find_format, not_found, found, max_extension, file_of, usable, preferred,
  scan_mimetype,
}
use djmount.MediaFile.Extensions.{
  NoSlash, is_guarded, find_format-guarded, mimes_guarded, NoSlash-take, extension_of-some,
}

-- A file with a resource, its URI and the playlist of its format; its extension fits the field and has no slash.
abbrev pub IsFileOf : Resource → Bytes × Bytes × MimeType → MediaFile → Type 0
IsFileOf r u file =
    (file.res ≡ r)
    × (file.uri ≡ u.0)
    × (file.playlist ≡ MimeType.playlist (u.2))
    × (length file.extension ≤ max_extension)
    × NoSlash file.extension

usable-guarded :
    (r : Resource) (u : Bytes × Bytes × MimeType)
    → usable r ≡ some u
    → (is_guarded (u.2) ≡ true) × (starts_with (MimeType.mimetype (u.2)) (u.1) ≡ true)
unfolding usable
usable-guarded r u e = elim (Option-cases r.value) [
  | inl missing ↦ let never : none ≡ some u = rw missing at e in cc
  | inr (uri, given) ↦ elim (Option-cases r.protocol_info) [
    | inl missing ↦ let never : none ≡ some u = rw (given, missing) at e in cc
    | inr (protocol, given') ↦ elim (Option-cases (scan_mimetype protocol)) [
      | inl missing ↦ let never : none ≡ some u = rw (given, given', missing) at e in cc
      | inr (m, scanned) ↦ elim (Option-cases (find_format mimes m)) [
        | inl missing ↦ let never : none ≡ some u = rw (given, given', scanned, missing) at e in cc
        | inr (f, format) ↦
            let whole : some (uri, m, f) ≡ some u = rw (given, given', scanned, format) at e in
            let same : (uri, m, f) ≡ u = cc in
            subst
              (λ x.
                (is_guarded (x.2) ≡ true) × (starts_with (MimeType.mimetype (x.2)) (x.1) ≡ true))
              same (find_format-guarded mimes m f mimes_guarded format)
      ]
    ]
  ]
]

-- `MediaFile_GetPreferred` takes the first <res> element that has a URI and a MIME type of a known format, and makes a
-- file from it; where there is none, it finds nothing. It never reads outside of the MIME type, its extension has at
-- most 9 bytes, and no slash.
pub preferred_lem :
    (rs : List Resource)
    → ((preferred rs ≡ not_found) × All (λ r. usable r ≡ none) rs)
      ⊎ ((xs : List Resource) × (r : Resource) × (ys : List Resource) × (u : Bytes × Bytes
            × MimeType)
          × (file : MediaFile) × (rs ≡ xs ++ r ∷ ys)
          × All (λ x. usable x ≡ none) xs
          × (usable r ≡ some u)
          × (preferred rs ≡ found file)
          × IsFileOf r u file)
unfolding preferred
preferred_lem [] = inl (refl, tt)
preferred_lem (r ∷ rs) = elim (Option-cases (usable r)) [
  | inl missing ↦ elim (preferred_lem rs) [
    | inl (run, all) ↦ inl (rw (missing, preferred) run, (missing, all))
    | inr (xs, x, ys, u, file, split, before, has, run, good) ↦ inr (
      r ∷ xs,
      x,
      ys,
      u,
      file,
      ap (λ l. r ∷ l) split,
      (missing, before),
      has,
      rw (missing, preferred) run,
      good,
    )
  ]
  | inr (u, has) ↦
      let (guarded, starts) = usable-guarded r u has in
      let (e, at, plain) = extension_of-some (u.2) (u.1) guarded starts in
      let file : MediaFile = record {
        extension = take max_extension e;
        playlist = MimeType.playlist (u.2);
        uri = u.0;
        res = r;
      } in
      let short : length (take max_extension e) ≤ max_extension =
        omega (arith, length-take max_extension e) in
      inr (
        [],
        r,
        rs,
        u,
        file,
        refl,
        tt,
        has,
        rw (has, preferred) (rw (at, file_of) refl),
        (refl, refl, refl, short, NoSlash-take max_extension e plain),
      )
]
