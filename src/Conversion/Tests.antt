-- ===== src/Conversion/Tests.antt =====
-- Examples for djmount/charset.c: KOI8-R.
use djmount.Base.{ℕ, zero, suc, List, true, false, ◌≡◌, refl, [], ◌∷◌, none, some, arith}
use djmount.Base.Lists.{Bytes, bytes_eq}
use djmount.Base.Text.{codes}
use djmount.Charset.Tests.{koi8, no_fresh, init_charset-koi8}
use djmount.Charset.{init_charset, simple_name}
use djmount.Conversion.Rounds.{Returns, transcoded}
use djmount.Conversion.Text.{convert_string-Returns}
use djmount.Conversion.Overwrite.{around}
use djmount.Conversion.{
  Env, from_utf8, convert_string, initialized_not_utf8, choose_charset, or_utf8, strcaseeq,
  Variable, getenv, overwrite, wipe, cut_list, desktop_charset,
}

-- Two bytes of encodings before the locale, which is KOI8-R where LC_ALL is set.
abbrev encoding : Bytes
encoding = codes "me"

abbrev language : Variable
language = record { name = codes "LC_ALL"; value = codes "ru_RU" }

abbrev locale : List Variable → Bytes
locale vs = elim (getenv (codes "LC_ALL") vs) [ none ↦ codes "ASCII" | some s ↦ koi8 ]

abbrev desktop : Env
desktop = record { variables = around [] encoding (language ∷ []); codeset = locale }

-- A stray continuation byte before a letter, and a buffer of one byte.
convert_string-Returns_example :
    Returns (transcoded (init_charset no_fresh koi8).1 from_utf8 (0x80 ∷ 0x61 ∷ 0 ∷ [])) (
      convert_string
        (λ n. true)
        (record { state = initialized_not_utf8; tables = (init_charset no_fresh koi8).1 })
        from_utf8
        (some (0x80 ∷ 0x61 ∷ []))
        (some 1))
convert_string-Returns_example =
    convert_string-Returns no_fresh koi8 (λ n. true) from_utf8 (0x80 ∷ 0x61 ∷ []) (some 1)
      init_charset-koi8 (λ n. refl) (omega arith, (omega arith, tt))

-- The short value takes LC_ALL away, so that the charset is not that of the locale; a long one does not.
wiped_test : choose_charset desktop none ≡ codes "ASCII"
unfolding choose_charset desktop_charset getenv overwrite wipe cut_list or_utf8
wiped_test = refl

abbrev padding : ℕ → Bytes
padding zero = []
padding (suc n) = b'x' ∷ padding n

kept_test :
    choose_charset
      (record { variables = around [] (padding 126) (language ∷ []); codeset = locale })
      none
    ≡ koi8
unfolding choose_charset desktop_charset getenv overwrite wipe cut_list or_utf8
kept_test = refl

-- "UTF8" is UTF-8 for the tables, and another charset for the state.
utf8_alias_test :
    (bytes_eq (simple_name (codes "UTF8")) (codes "utf8") ≡ true)
    × (strcaseeq (codes "UTF8") (codes "UTF-8") ≡ false)
unfolding simple_name strcaseeq
utf8_alias_test = (refl, refl)
