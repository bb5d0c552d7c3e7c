-- ===== src/MediaFile/Formats.antt =====
-- djmount/media_file.c: the MIME types and what is known about them.
use djmount.Base.{List, [], ◌∷◌, Option, none, some}
use djmount.Base.Lists.{Bytes}
use djmount.Base.Text.{codes}
use Prim.Native.String.{String}

-- `MimeType`
pub record MimeType : Type 0 where
  pub mimetype : Bytes
  pub playlist : Option Bytes
  pub extension : Option Bytes

unfoldable pub mime : String → Option String → Option String → MimeType
mime m p e = record { mimetype = codes m; playlist = option_codes p; extension = option_codes e }
  where
    option_codes : Option String → Option Bytes
    option_codes none = none
    option_codes (some s) = some (codes s)

-- `MIMES`, without the row of NULL at its end
unfoldable pub mimes : List MimeType
unfolding mime
mimes =
    mime "audio/mpeg" (some "m3u") (some "mp3")
    ∷ mime "audio/vnd.rn-realaudio" (some "ram") (some "ram")
    ∷ mime "audio/x-pn-realaudio" (some "ram") (some "ram")
    ∷ mime "audio/x-realaudio" (some "ram") (some "ram")
    ∷ mime "audio/basic" (some "m3u") (some "au")
    ∷ mime "audio/prs.sid" (some "m3u") (some "sid")
    ∷ mime "audio/x-scpls" none (some "pls")
    ∷ mime "audio/x-mpegurl" none (some "m3u")
    ∷ mime "audio/x-matroska" (some "m3u") (some "mka")
    ∷ mime "audio/" (some "m3u") none
    ∷ mime "video/vnd.rn-realvideo" (some "ram") (some "ram")
    ∷ mime "video/x-msvideo" (some "m3u") (some "avi")
    ∷ mime "video/x-motion-jpeg" (some "m3u") (some "mjpg")
    ∷ mime "video/quicktime" (some "m3u") (some "mov")
    ∷ mime "video/x-matroska" (some "m3u") (some "mkv")
    ∷ mime "video/mpeg" (some "m3u") (some "mpg")
    ∷ mime "video/mp2p" (some "m3u") (some "vob")
    ∷ mime "video/" (some "m3u") none
    ∷ mime "image/jpeg" none (some "jpg")
    ∷ mime "image/svg+xml" none (some "svg")
    ∷ mime "image/x-xwindowdump" none (some "xwd")
    ∷ mime "image/x-win-bitmap" none (some "cur")
    ∷ mime "image/x-portable-anymap" none (some "pnm")
    ∷ mime "image/x-portable-bitmap" none (some "pbm")
    ∷ mime "image/x-portable-pixmap" none (some "ppm")
    ∷ mime "image/x-portable-graymap" none (some "pgm")
    ∷ mime "image/x-xpixmap" none (some "xpm")
    ∷ mime "image/x-xbitmap" none (some "xbm")
    ∷ mime "image/x-photo-cd" none (some "pcd")
    ∷ mime "image/x-quicktime" none (some "qti")
    ∷ mime "image/x-icon" none (some "ico")
    ∷ mime "image/tiff" none (some "tif")
    ∷ mime "image/" none none
    ∷ mime "application/ogg" (some "m3u") (some "ogg")
    ∷ mime "application/vnd.rn-realmedia" (some "ram") (some "ram")
    ∷ mime "application/x-matroska" (some "m3u") (some "mkv")
    ∷ mime "text/plain" none (some "txt")
    ∷ mime "text/" none none
    ∷ []
