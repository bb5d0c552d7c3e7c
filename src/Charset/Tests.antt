-- ===== src/Charset/Tests.antt =====
-- Examples for djmount/charset_internal.c: KOI8-R, and texts in UTF-8.
use djmount.Base.{ℕ, ◌≡◌, refl, [], ◌∷◌, some, arith, ◌⊎◌, ◌<◌, ◌≤◌, ◌++◌, ◌+◌, ◌*◌, ◌%◌}
use djmount.Base.Lists.{Bytes, length, take}
use djmount.Base.Text.{codes}
use djmount.Charset.Codepages.{nls_list}
use djmount.Charset.RoundTrip.{utf2ascii-ascii2utf}
use djmount.Charset.Table.{init_charset-IsReady, IsReady}
use djmount.Charset.Utf8.{put-utf8, decode_sound, utf8}
use djmount.Charset.Loops.{utf2ascii_loop_split, ascii2utf_loop_split, decoded, encoded}
use djmount.Charset.{
  init_charset, ascii2utf, utf2ascii, ascii2utf_size, no_tables, put, decode, utf2ascii_loop,
  ascii2utf_loop, simple_name, find_nls, build, max_code, fill_low, fill_high,
}

abbrev pub no_fresh : ℕ → ℕ
no_fresh i = 0

abbrev pub koi8 : Bytes
koi8 = codes "KOI8-R"

-- "a", a Cyrillic letter
abbrev word : Bytes
word = 0x61 ∷ 0xC1 ∷ []

pub init_charset-koi8 : (init_charset no_fresh koi8).0 ≡ 1
unfolding init_charset simple_name find_nls nls_list
init_charset-koi8 = refl

utf2ascii-ascii2utf_example :
    ((ascii2utf (init_charset no_fresh koi8).1 (some word) (some 100)).0 ≡ 0)
    × ((ascii2utf (init_charset no_fresh koi8).1 (some word) (some 100)).1.rest ≡ [])
    × (utf2ascii
          (init_charset no_fresh koi8).1
          (some (ascii2utf (init_charset no_fresh koi8).1 (some word) (some 100)).1.out)
          (some 2)
        ≡ (0, record { rest = []; out = word; left = 0 }))
unfolding init_charset simple_name find_nls nls_list build max_code fill_low fill_high
    ascii2utf_size
utf2ascii-ascii2utf_example =
    utf2ascii-ascii2utf no_fresh koi8 word 100 2 init_charset-koi8
      ((omega arith, omega arith), ((omega arith, omega arith), tt)) (omega arith) (omega arith)

init_charset-IsReady_example :
    (init_charset no_fresh koi8 ≡ (0, no_tables))
    ⊎ ((simple_name koi8 ≡ codes "utf8") × (init_charset no_fresh koi8 ≡ (1, no_tables)))
    ⊎ (((init_charset no_fresh koi8).0 ≡ 1) × IsReady (init_charset no_fresh koi8).1)
init_charset-IsReady_example = init_charset-IsReady no_fresh koi8

put-utf8_example : put 0x20AC ≡ utf8 0x20AC
put-utf8_example = put-utf8 0x20AC (omega arith)

-- The euro sign and a letter.
abbrev euro : Bytes
euro = 0xE2 ∷ 0x82 ∷ 0xAC ∷ 0x61 ∷ []

decode_sound_example :
    ((decode euro).s < 65536) × (take (decode euro).count euro ≡ utf8 (decode euro).s)
unfolding decode
decode_sound_example =
    decode_sound 0xE2 (0x82 ∷ 0xAC ∷ 0x61 ∷ [])
      (omega arith, (omega arith, (omega arith, (omega arith, tt)))) refl

abbrev small : ℕ → ℕ
small s = s % 256

-- A stray continuation byte, an overlong form and a letter, with room for two bytes.
abbrev malformed : Bytes
malformed = 0x80 ∷ 0xC0 ∷ 0x80 ∷ 0x61 ∷ []

utf2ascii_loop_split_test :
    ((utf2ascii_loop 256 small 4 malformed 2).out
        ++ decoded 256 small 4 (utf2ascii_loop 256 small 4 malformed 2).rest
      ≡ decoded 256 small 4 malformed)
    × (length (utf2ascii_loop 256 small 4 malformed 2).out
          + (utf2ascii_loop 256 small 4 malformed 2).left
        ≡ 2)
    × (length (utf2ascii_loop 256 small 4 malformed 2).out
          + length (utf2ascii_loop 256 small 4 malformed 2).rest
        ≤ 4)
    × (((utf2ascii_loop 256 small 4 malformed 2).rest ≡ [])
        ⊎ ((utf2ascii_loop 256 small 4 malformed 2).left ≡ 0))
utf2ascii_loop_split_test = utf2ascii_loop_split 256 small 4 malformed 2 (omega arith)

-- One byte for the letter, and not the three of the next character.
ascii2utf_loop_split_test :
    ((ascii2utf_loop (λ c. c * 16 % 65536) (6 ∷ 255 ∷ []) 2).out
        ++ encoded
            (λ c. c * 16 % 65536)
            (ascii2utf_loop (λ c. c * 16 % 65536) (6 ∷ 255 ∷ []) 2).rest
      ≡ encoded (λ c. c * 16 % 65536) (6 ∷ 255 ∷ []))
    × (length (ascii2utf_loop (λ c. c * 16 % 65536) (6 ∷ 255 ∷ []) 2).out
          + (ascii2utf_loop (λ c. c * 16 % 65536) (6 ∷ 255 ∷ []) 2).left
        ≡ 2)
ascii2utf_loop_split_test =
    ascii2utf_loop_split (λ c. c * 16 % 65536) (λ c. omega arith) (6 ∷ 255 ∷ []) 2
