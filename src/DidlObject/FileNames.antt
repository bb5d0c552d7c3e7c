-- ===== src/DidlObject/FileNames.antt =====
-- djmount/didl_object.c with djmount/media_file.c: the names of the files of objects.
use djmount.Base.{
  ℕ, Bool, ◌||◌, ◌≡◌, ◌≢◌, sym, subst, inl, inr, [], ◌∷◌, ◌++◌, Option, none, some, arith,
}
use djmount.Base.Lists.{Bytes, All-append}
use djmount.Base.Tests.{◌==◌, Bool-cases}
use djmount.Strings.{clean_file_name}
use djmount.Strings.Strip.{clean_file_name_lem}
use djmount.MediaFile.{get_name}
use djmount.MediaFile.Extensions.{NoSlash}
use djmount.MediaFile.Names.{NoDot, get_name_lem}
use djmount.DidlObject.{
  Element, DidlObject, or_blank, basename_of, object_of, with_id, create_object,
}

-- A text that can stand as the name of a file that is no hidden or reserved one: it is not empty, starts with neither a
-- dot nor an underscore, and has no slash.
abbrev pub IsFileName : Bytes → Type 0
IsFileName [] = ⊥
IsFileName (c ∷ cs) = (c ≢ b'.') × (c ≢ b'_') × NoSlash (c ∷ cs)

basename_of-IsFileName : (s id : Bytes) → NoSlash s → NoSlash id → IsFileName (basename_of s id)
unfolding basename_of
basename_of-IsFileName [] id h h' =
    (omega arith, omega arith, (omega arith, (omega arith, (omega arith, (omega arith, h')))))
basename_of-IsFileName (c ∷ cs) id h h' = elim (Bool-cases (c == b'.' || c == b'_')) [
  | inl reserved ↦ rw (reserved, basename_of) (omega arith, omega arith, (omega arith, h.1))
  | inr free ↦ rw (free, basename_of) (ground arith, ground arith, h)
]

clean_NoSlash : (t : Bytes) → NoSlash (or_blank (clean_file_name (some t)))
clean_NoSlash t =
    let (r, f, strip, clean, plain, trim, size, same) = clean_file_name_lem t in rw clean plain

IsFileName-append : (b e : Bytes) → IsFileName b → NoSlash e → IsFileName (b ++ b'.' ∷ e)
IsFileName-append [] e h h' = elim h [ ]
IsFileName-append (c ∷ b) e (dot, score, plain) h' =
    (dot, score, (plain.0, All-append (λ x. x ≢ b'/') b (b'.' ∷ e) plain.1 (omega arith, h')))

IsFileName-get_name :
    (b : Bytes) (c : ℕ) (e : Bytes)
    → IsFileName b
    → NoSlash (c ∷ e)
    → NoDot (c ∷ e)
    → (n : Bytes) × (get_name (some b) (some (c ∷ e)) ≡ some n) × IsFileName n
IsFileName-get_name b c e h plain dot =
    let (n, run, which, ends, again) = get_name_lem b c e dot in
    elim which [
      | inl same ↦ (n, run, subst IsFileName (sym same) h)
      | inr longer ↦ (n, run, subst IsFileName (sym longer) (IsFileName-append b (c ∷ e) h plain))
    ]

with_id-IsFileName :
    (e : Element) (container : Bool) (x : Option Bytes) (o : DidlObject)
    → with_id e container x ≡ some o
    → NoSlash o.id
    → IsFileName o.basename
unfolding object_of
with_id-IsFileName e container none o made plain = cc
with_id-IsFileName e container (some []) o made plain = cc
with_id-IsFileName e container (some (c ∷ cs)) o made plain =
    let same : object_of e container (c ∷ cs) ≡ o = cc in
    let plain' : NoSlash (c ∷ cs) = subst (λ x. NoSlash (DidlObject.id x)) (sym same) plain in
    subst (λ x. IsFileName (DidlObject.basename x)) same
      (basename_of-IsFileName _ (c ∷ cs) (clean_NoSlash (or_blank e.dc_title)) plain')

-- An object that `DIDLObject_Create` makes from an identifier with no slash has a basename that is a proper name of a
-- file, whatever its title, and so is the name that `MediaFile_GetName` gives it with an extension that is not
-- empty and has neither a slash nor a dot.
pub create_object-IsFileName :
    (e : Element) (container : Bool) (o : DidlObject) (c : ℕ) (ext : Bytes)
    → create_object (some e) container ≡ some o
    → NoSlash o.id
    → NoSlash (c ∷ ext)
    → NoDot (c ∷ ext)
    → IsFileName o.basename
      × ((n : Bytes) × (get_name (some o.basename) (some (c ∷ ext)) ≡ some n) × IsFileName n)
unfolding create_object object_of
create_object-IsFileName e container o c ext made plain plain' dot =
    let named : IsFileName o.basename = with_id-IsFileName e container e.id o made plain in
    (named, IsFileName-get_name o.basename c ext named plain' dot)
