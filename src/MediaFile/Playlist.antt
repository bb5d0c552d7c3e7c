-- ===== src/MediaFile/Playlist.antt =====
-- djmount/media_file.c: the text of a playlist for one file.
use djmount.Base.{ℕ, suc, ◌+◌, ◌-◌, ◌*◌, ◌%◌, ◌^◌, [], ◌∷◌, ◌++◌, Option, none, some}
use djmount.Base.Lists.{Bytes, length, bytes_eq}
use djmount.Base.Tests.{ltb, ◌==◌, if◌then◌else◌}
use djmount.Base.Text.{codes}
use djmount.Base.Int.{ℤ, pos, negsuc}
use djmount.Base.Decimal.{decimal}
use djmount.Strings.{strtoimax}
use djmount.MediaFile.{MediaFile}

infixl 5 ◌>>=◌
abbrev ◌>>=◌ {ℓ κ} : {A : Type ℓ} {B : Type κ} → Option A → (A → Option B) → Option B
none >>= f = none
some a >>= f = f a

-- `int` and `unsigned int` have 32 bits.
abbrev int_mod : ℕ
int_mod = 2 ^ 32

-- The 32 bits that `%d` or `%u` stores for a number.
unfoldable pub low_bits : ℤ → ℕ
low_bits (pos n) = n % int_mod
low_bits (negsuc n) = int_mod - 1 - n % int_mod

-- 32 bits as an `int`
unfoldable pub int_of : ℕ → ℤ
int_of n = if ltb n (2 ^ 31) then pos n else negsuc (int_mod - 1 - n)

-- `%d` or `%u` of `sscanf`: the bits, and the text after the number; none where there is no number.
unfoldable pub scan_int : Bytes → Option (ℕ × Bytes)
scan_int s =
    let (v, rest) = strtoimax s in if length rest == length s then none else some (low_bits v, rest)

-- A `:` in the format of `sscanf`.
unfoldable pub scan_colon : Bytes → Option Bytes
scan_colon [] = none
scan_colon (c ∷ cs) = if c == b':' then some cs else none

-- `sscanf (duration, "%d:%u:%u", &hh, &mm, &ss)`, where all three are there.
unfoldable pub scan_duration : Bytes → Option (ℕ × ℕ × ℕ)
scan_duration s = do
  hh ← scan_int s
  after_hh ← scan_colon (hh.1)
  mm ← scan_int after_hh
  after_mm ← scan_colon (mm.1)
  ss ← scan_int after_mm
  some (hh.0, mm.0, ss.0)

-- `seconds` for the attribute duration.
unfoldable pub seconds : Option Bytes → ℤ
seconds none = negsuc 0
seconds (some duration) = elim (scan_duration duration) [
  | none ↦ negsuc 0
  | some t ↦
      if ltb (t.0) (2 ^ 31) then int_of ((t.2 + 60 * (t.1 + 60 * t.0)) % int_mod) else negsuc 0
]

-- `%d` of `printf`
unfoldable pub print_int : ℤ → Bytes
print_int (pos n) = decimal n
print_int (negsuc n) = b'-' ∷ decimal (suc n)

-- `MediaFile_GetPlaylistContent` for a file with a playlist, of an object with the title and a resource with the
-- duration.
unfoldable pub get_playlist_content : Bytes → Option Bytes → Bytes → MediaFile → Option Bytes
get_playlist_content title duration playlist file =
    if bytes_eq playlist (codes "ram")
    then some (file.uri ++ codes "?title=" ++ title ++ 10 ∷ [])
    else if bytes_eq playlist (codes "m3u")
    then some (
        codes "#EXTM3U\n#EXTINF:"
        ++ print_int (seconds duration)
        ++ codes ","
        ++ title
        ++ 10 ∷ file.uri
        ++ 10 ∷ [])
    else none
