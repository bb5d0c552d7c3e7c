-- ===== src/MediaFile/Tests.antt =====
-- Examples for djmount/media_file.c.
use djmount.Base.{◌≡◌, refl, ◌⊎◌, List, [], ◌∷◌, ◌++◌, none, some, arith}
use djmount.Base.Lists.{Bytes, All}
use djmount.Base.Text.{codes}
use djmount.Base.Int.{pos}
use djmount.Base.Decimal.{decimal, digits}
use djmount.Strings.{strtoimax, signed_number, number, skip_spaces, scan_digits, clamp, to_integer}
use djmount.MediaFile.{
  Resource, MediaFile, preferred, get_preferred, usable, scan_mimetype, mime_chars, find_format,
  extension_of, guess_extension, not_found, found, get_name, after_last_dot, get_res_size,
}
use djmount.MediaFile.Formats.{MimeType, mimes, mime}
use djmount.MediaFile.Preferred.{IsFileOf, preferred_lem}
use djmount.MediaFile.Names.{get_name_lem}
use djmount.MediaFile.Playlist.{
  get_playlist_content, seconds, scan_duration, scan_int, scan_colon, low_bits, int_of, print_int,
}

-- A resource that is not served over HTTP, and one that is.
abbrev local : Resource
local = record {
  protocol_info = some (codes "internal:*:audio/mpeg");
  value = some (codes "tune.mp3");
  res_size = none;
}

abbrev remote : Resource
remote = record {
  protocol_info = some (codes "http-get:*:audio/x-ac3:*");
  value = some (codes "http://tv/1");
  res_size = some (codes "1234");
}

abbrev tune : MediaFile
tune = record {
  extension = codes "ac3";
  playlist = some (codes "m3u");
  uri = codes "http://tv/1";
  res = remote;
}

preferred_lem_example :
    ((preferred (local ∷ remote ∷ []) ≡ not_found)
      × All (λ r. usable r ≡ none) (local ∷ remote ∷ []))
    ⊎ ((xs : List Resource) × (r : Resource) × (ys : List Resource) × (u : Bytes × Bytes × MimeType)
        × (file : MediaFile) × (local ∷ remote ∷ [] ≡ xs ++ r ∷ ys)
        × All (λ x. usable x ≡ none) xs
        × (usable r ≡ some u)
        × (preferred (local ∷ remote ∷ []) ≡ found file)
        × IsFileOf r u file)
preferred_lem_example = preferred_lem (local ∷ remote ∷ [])

get_preferred_test : get_preferred (some (local ∷ remote ∷ [])) ≡ found tune
unfolding get_preferred preferred usable scan_mimetype mime_chars find_format mimes mime
    extension_of guess_extension
get_preferred_test = refl

get_name_test :
    (n : Bytes) × (get_name (some (codes "a.b")) (some (codes "mp3")) ≡ some n)
    × ((n ≡ codes "a.b") ⊎ (n ≡ codes "a.b.mp3"))
    × (after_last_dot n ≡ some (codes "mp3"))
    × (get_name (some n) (some (codes "mp3")) ≡ some n)
get_name_test =
    get_name_lem (codes "a.b") b'm' (codes "p3") (omega arith, (omega arith, (omega arith, tt)))

get_res_size_test : get_res_size tune ≡ pos 1234
unfolding get_res_size to_integer strtoimax signed_number number skip_spaces scan_digits clamp
get_res_size_test = refl

get_playlist_content_test :
    get_playlist_content (codes "Tune") (some (codes "0:03:30")) (codes "m3u") tune
    ≡ some (codes "#EXTM3U\n#EXTINF:210,Tune\nhttp://tv/1\n")
unfolding get_playlist_content seconds scan_duration scan_int scan_colon low_bits int_of print_int
    decimal digits strtoimax signed_number number skip_spaces scan_digits clamp
get_playlist_content_test = refl

get_playlist_content_unknown_test :
    get_playlist_content (codes "Tune") none (codes "m3u") tune
    ≡ some (codes "#EXTM3U\n#EXTINF:-1,Tune\nhttp://tv/1\n")
unfolding get_playlist_content seconds print_int decimal digits
get_playlist_content_unknown_test = refl
