-- ===== src/Djfs/Names.antt =====
-- djmount/djfs.c with djmount/didl_object.c and djmount/media_file.c: the names that objects get.
use djmount.Base.{
  Bool, true, false, ◌≡◌, ◌≢◌, refl, sym, ap, ◌∙◌, subst, inl, inr, List, [], ◌∷◌, none, some,
  arith,
}
use djmount.Base.Lists.{Bytes, All-append}
use djmount.Base.Tests.{◌==◌, if◌then◌else◌, Bool-cases, Option-cases}
use djmount.Base.Text.{codes, starts_with}
use djmount.DidlObject.{Element, DidlObject, create_object}
use djmount.DidlObject.FileNames.{IsFileName, create_object-IsFileName}
use djmount.MediaFile.{
  Resource, MediaFile, Outcome, not_found, overrun, found, get_preferred, get_name, has_extension,
  usable, find_format, scan_mimetype,
}
use djmount.MediaFile.Formats.{MimeType, mimes, mime}
use djmount.MediaFile.Extensions.{NoSlash}
use djmount.MediaFile.Preferred.{IsFileOf, preferred_lem}
use djmount.Djfs.{
  Network, Djfs, FileEntry, file_entry, media_entry, metadata_entry, playlist_entry, url_entry,
}
use djmount.Djfs.Pieces.{IsNameIfAny, EntryHasName, HasNames}

abbrev plain : Bytes → Bool
plain [] = true
plain (c ∷ cs) = if c == b'/' then false else plain cs

plain-NoSlash : (s : Bytes) → plain s ≡ true → NoSlash s
plain-NoSlash [] h = tt
plain-NoSlash (c ∷ s) h = elim (Bool-cases (c == b'/')) [
  | inl slash ↦ let never : false ≡ true = rw slash at h in cc
  | inr other ↦ (ground arith, plain-NoSlash s (rw other at h))
]

abbrev has_plain_playlist : MimeType → Bool
has_plain_playlist f = elim (f.playlist) [ none ↦ true | some p ↦ plain p ]

abbrev all_plain : List MimeType → Bool
all_plain [] = true
all_plain (f ∷ fs) = if has_plain_playlist f then all_plain fs else false

mimes_plain : all_plain mimes ≡ true
unfolding mimes mime
mimes_plain = refl

find_format_plain :
    (fs : List MimeType) (m : Bytes) (f : MimeType)
    → all_plain fs ≡ true
    → find_format fs m ≡ some f
    → has_plain_playlist f ≡ true
unfolding find_format
find_format_plain [] m f h e = cc
find_format_plain (x ∷ fs) m f h e = elim (Bool-cases (has_plain_playlist x)) [
  | inr bad ↦ let never : false ≡ true = rw bad at h in cc
  | inl good ↦ elim (Bool-cases (starts_with x.mimetype m)) [
    | inl starts ↦
        let at : some x ≡ some f = rw starts at e in
        let same : x ≡ f = cc in subst (λ y. has_plain_playlist y ≡ true) same good
    | inr other ↦ find_format_plain fs m f (rw good at h) (rw other at e)
  ]
]

usable_plain :
    (r : Resource) (u : Bytes × Bytes × MimeType)
    → usable r ≡ some u
    → has_plain_playlist (u.2) ≡ true
unfolding usable
usable_plain r u e = elim (Option-cases r.value) [
  | inl missing ↦ let never : none ≡ some u = rw missing at e in cc
  | inr (uri, given) ↦ elim (Option-cases r.protocol_info) [
    | inl missing ↦ let never : none ≡ some u = rw (given, missing) at e in cc
    | inr (protocol, given') ↦ elim (Option-cases (scan_mimetype protocol)) [
      | inl missing ↦ let never : none ≡ some u = rw (given, given', missing) at e in cc
      | inr (m, scanned) ↦ elim (Option-cases (find_format mimes m)) [
        | inl missing ↦ let never : none ≡ some u = rw (given, given', scanned, missing) at e in cc
        | inr (f, format) ↦
            let whole : some (uri, m, f) ≡ some u = rw (given, given', scanned, format) at e in
            let same : (uri, m, f) ≡ u = cc in
            subst (λ x. has_plain_playlist (x.2) ≡ true) same
              (find_format_plain mimes m f mimes_plain format)
      ]
    ]
  ]
]

IsFileName-IsNameIfAny : (b : Bytes) → IsFileName b → IsNameIfAny (some b)
IsFileName-IsNameIfAny [] h = tt
IsFileName-IsNameIfAny (c ∷ cs) h = ((λ e. cc), h.2)

IsNameIfAny-get_name :
    (b e : Bytes) → IsFileName b → NoSlash e → IsNameIfAny (get_name (some b) (some e))
unfolding get_name
IsNameIfAny-get_name b [] h plain = IsFileName-IsNameIfAny b h
IsNameIfAny-get_name [] (c ∷ e) h plain = elim h [ ]
IsNameIfAny-get_name (d ∷ b) (c ∷ e) h plain = elim (Bool-cases (has_extension (d ∷ b) (c ∷ e))) [
  | inl there ↦ rw there ((λ x. cc), h.2)
  | inr missing ↦
      rw missing
        ((λ x. cc), All-append (λ x. x ≢ b'/') (d ∷ b) (b'.' ∷ c ∷ e) (h.2) (omega arith, plain))
]

either_name :
    (c : Bool) (a b : FileEntry)
    → IsNameIfAny (a.0)
    → IsNameIfAny (b.0)
    → IsNameIfAny ((if c then a else b).0)
either_name true a b h k = h
either_name false a b h k = k

file_entry-IsNameIfAny :
    (net : Network) (self : Djfs) (o : DidlObject) (file : MediaFile) (r : Resource)
    (u : Bytes × Bytes × MimeType)
    → IsFileName o.basename
    → IsFileOf r u file
    → has_plain_playlist (u.2) ≡ true
    → IsNameIfAny ((file_entry net self o file).0)
unfolding file_entry playlist_entry url_entry
file_entry-IsNameIfAny net self o file r u named (at_res, at_uri, listed, short, ext) playlists =
    let by_url = IsNameIfAny-get_name o.basename file.extension named ext in
    elim (Option-cases file.playlist) [
      | inl missing ↦ rw missing by_url
      | inr (p, given) ↦
          let in_table : MimeType.playlist (u.2) ≡ some p = sym listed ∙ given in
          let plain_text : plain p ≡ true = rw in_table at playlists in
          rw given (
            either_name _ _ _ (IsNameIfAny-get_name o.basename p named (plain-NoSlash p plain_text))
              by_url)
    ]

media_entry-HasName :
    (net : Network) (self : Djfs) (o : DidlObject)
    → IsFileName o.basename
    → EntryHasName (media_entry net self o)
unfolding media_entry get_preferred
media_entry-HasName net self o named =
    let HasName : Outcome → Type 0 = λ x. EntryHasName (elim x [
      | not_found ↦ none
      | overrun ↦ none
      | found file ↦ some (file_entry net self o file)
    ]) in
    elim (Option-cases (net.resources o)) [
      | inl missing ↦ subst HasName (sym (ap get_preferred missing)) tt
      | inr (rs, given) ↦ elim (preferred_lem rs) [
        | inl (run, nowhere) ↦ subst HasName (sym (ap get_preferred given ∙ run)) tt
        | inr (xs, r, ys, u, file, split, before, has, run, good) ↦
            subst HasName (sym (ap get_preferred given ∙ run))
              (file_entry-IsNameIfAny net self o file r u named good (usable_plain r u has))
      ]
    ]

-- An object that DIDLObject_Create makes from an identifier with no slash has no name with a slash in the file system,
-- neither as a directory nor as a file, a playlist or an XML file, whatever its title and its resources.
pub create_object-HasNames :
    (net : Network) (self : Djfs) (e : Element) (container : Bool) (o : DidlObject)
    → create_object (some e) container ≡ some o
    → NoSlash o.id
    → HasNames net self o
unfolding metadata_entry
create_object-HasNames net self e container o made id_plain =
    let named : IsFileName o.basename =
      (create_object-IsFileName e container o b'x' [] made id_plain (omega arith, tt)
        (omega arith, tt)).0 in
    (
      IsFileName-IsNameIfAny o.basename named,
      media_entry-HasName net self o named,
      IsNameIfAny-get_name o.basename (codes "xml") named (omega arith),
    )
