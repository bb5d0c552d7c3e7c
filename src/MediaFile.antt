-- ===== src/MediaFile.antt =====
-- djmount/media_file.c: the resource of an object that is served, its name and its playlist.
-- What the XML library gives for a <res> element is the record `Resource`; talloc is taken to succeed.
pub mod Formats
pub mod Extensions
pub mod Preferred
pub mod Names
pub mod Playlist
mod Tests
use djmount.Base.{
  ℕ, zero, suc, ◌+◌, ◌-◌, ◌*◌, ◌%◌, ◌^◌, Bool, true, false, not, ◌&&◌, ◌||◌, List, [], ◌∷◌, ◌++◌,
  Option, none, some,
}
use djmount.Base.Lists.{Bytes, length, get_or, take, drop, bytes_eq}
use djmount.Base.Tests.{ltb, leb, ◌==◌, if◌then◌else◌}
use djmount.Base.Text.{codes, starts_with}
use djmount.Base.Int.{ℤ, pos, negsuc}
use djmount.Strings.{to_integer}
use Formats.{MimeType, mimes}

infixl 5 ◌>>=◌
abbrev ◌>>=◌ {ℓ κ} : {A : Type ℓ} {B : Type κ} → Option A → (A → Option B) → Option B
none >>= f = none
some a >>= f = f a

-- A <res> element: its attributes protocolInfo and size, and its value.
pub record Resource : Type 0 where
  pub protocol_info : Option Bytes
  pub value : Option Bytes
  pub res_size : Option Bytes

-- `MediaFile`
pub record MediaFile : Type 0 where
  pub extension : Bytes
  pub playlist : Option Bytes
  pub uri : Bytes
  pub res : Resource

-- `%63[^:;]`: the bytes up to a `:` or `;`, and at most n.
unfoldable pub mime_chars : ℕ → Bytes → Bytes
mime_chars zero s = []
mime_chars (suc n) [] = []
mime_chars (suc n) (c ∷ cs) =
    let rest = mime_chars n cs in if c == b':' || c == b';' then [] else c ∷ rest

abbrev pub non_empty : Bytes → Option Bytes
non_empty [] = none
non_empty (c ∷ cs) = some (c ∷ cs)

abbrev pub http_get : Bytes
http_get = codes "http-get:*:"

-- `sscanf (protocol, "http-get:*:%63[^:;]", mimetype)`: the type, if there is one.
unfoldable pub scan_mimetype : Bytes → Option Bytes
scan_mimetype protocol =
    if starts_with http_get protocol
    then non_empty (mime_chars 63 (drop (length http_get) protocol))
    else none

-- The first format of a list whose type begins the MIME type.
unfoldable pub find_format : List MimeType → Bytes → Option MimeType
find_format [] m = none
find_format (f ∷ fs) m = if starts_with f.mimetype m then some f else find_format fs m

-- `do { ext--; } while (*ext != '/' && *ext != '-'); ext++;` with ext i bytes after the start of the type: the text from
-- ext on, or none where ext would leave the type.
unfoldable pub guess_extension : Bytes → ℕ → Option Bytes
guess_extension m zero = none
guess_extension m (suc i) =
    let before = guess_extension m i in
    if get_or m i 0 == b'/' || get_or m i 0 == b'-' then some (drop (suc i) m) else before

-- The text that `ext` points to, before it is cut.
unfoldable pub extension_of : MimeType → Bytes → Option Bytes
extension_of f m = elim (f.extension) [ some e ↦ some e | none ↦ guess_extension m (length m) ]

-- What `MediaFile_GetPreferred` does: it finds a file or none, or it reads outside of the MIME type.
pub data Outcome : Type 0 where
  not_found overrun : Outcome
  found : MediaFile → Outcome

-- `sizeof (file->extension) - 1`
abbrev pub max_extension : ℕ
max_extension = 9

-- The file for a resource with a URI, a MIME type and a format.
abbrev pub file_of : Resource → Bytes → Bytes → MimeType → Outcome
file_of r uri m f = elim (extension_of f m) [
  | none ↦ overrun
  | some ext ↦
      found
        (record { extension = take max_extension ext; playlist = f.playlist; uri = uri; res = r })
]

-- The MIME type and the format of a resource, and its URI, if it has all three.
unfoldable pub usable : Resource → Option (Bytes × Bytes × MimeType)
usable r = do
  uri ← r.value
  protocol ← r.protocol_info
  m ← scan_mimetype protocol
  f ← find_format mimes m
  some (uri, m, f)

-- The loop of `MediaFile_GetPreferred`.
unfoldable pub preferred : List Resource → Outcome
preferred [] = not_found
preferred (r ∷ rs) = elim (usable r) [ none ↦ preferred rs | some u ↦ file_of r (u.0) (u.1) (u.2) ]

-- `MediaFile_GetPreferred`, from the <res> elements of an object; NULL for no object or none of them.
unfoldable pub get_preferred : Option (List Resource) → Outcome
get_preferred none = not_found
get_preferred (some rs) = preferred rs

-- `strrchr (s, '.') + 1`, from the last dot on
unfoldable pub after_last_dot : Bytes → Option Bytes
after_last_dot [] = none
after_last_dot (c ∷ cs) = elim (after_last_dot cs) [
  | some e ↦ some e
  | none ↦ if c == b'.' then some cs else none
]

abbrev pub has_extension : Bytes → Bytes → Bool
has_extension basename ext = elim (after_last_dot basename) [
  | none ↦ false
  | some e ↦ bytes_eq e ext
]

-- `MediaFile_GetName`, of an object with the basename.
unfoldable pub get_name : Option Bytes → Option Bytes → Option Bytes
get_name none ext = none
get_name (some basename) none = some basename
get_name (some basename) (some []) = some basename
get_name (some basename) (some (c ∷ cs)) =
    if has_extension basename (c ∷ cs) then some basename else some (basename ++ b'.' ∷ c ∷ cs)

-- `MediaFile_GetResSize`
unfoldable pub get_res_size : MediaFile → ℤ
get_res_size file = to_integer file.res.res_size (pos (8 * 1024 * 1024 * 1024))
