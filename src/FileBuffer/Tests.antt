-- ===== src/FileBuffer/Tests.antt =====
-- Examples for djmount/file_buffer.c: a text in memory, and a server that delivers it two bytes at a time.
use djmount.Base.{Option, ◌⊎◌, ℕ, ◌≡◌, refl, [], ◌∷◌, some, arith, true, ◌-◌, ◌+◌, ◌<◌, min, sym}
use djmount.Base.Lists.{Bytes, length, take, drop, length-take, take-append-drop}
use djmount.Base.Text.{codes}
use djmount.Base.Int.{pos, negsuc}
use djmount.FileBuffer.Memory.{read_rounds, read_rounds-whole, read-create_from_string}
use djmount.FileBuffer.Remote.{Serves}
use djmount.FileBuffer.Total.{FitsIf, Reaches, CopiesBefore, read_at-Fits}
use djmount.FileBuffer.{
  Http, Reading, returns, before_content, read_at, create_from_string, create_from_url, read,
}

abbrev text : Bytes
text = codes "0123456789"

-- A connection is the bytes left in the range.
abbrev pub server : Http
server = record {
  Handle = Bytes;
  open_get = λ url lo hi. (pos 0, take (hi + 1 - lo) (drop lo text));
  read_get = λ h n. (pos 0, take (min n 2) h, drop (min n 2) h);
  close_get = λ h. pos 0;
}

empty-end : (h : Bytes) (n : ℕ) → 0 < n → length (take (min n 2) h) ≡ 0 → h ≡ []
empty-end [] n pos_n e = refl
empty-end (x ∷ h) n pos_n e = absurd (omega (arith, length-take (min n 2) (x ∷ h)))

abbrev server-Serves : Serves server text
server-Serves = record {
  rest = λ h. h;
  open_rc = λ url lo hi le lt. refl;
  open_rest = λ url lo hi le lt. refl;
  read_rc = λ h n. refl;
  read_rest = λ h n. sym (take-append-drop (min n 2) h);
  read_bound = λ h n. omega (arith, length-take (min n 2) h);
  read_end = empty-end;
  close_rc = λ h. refl;
}

read-create_from_string_example :
    read server (some (create_from_string (some text))) true 4 8 ≡ some (pos 2, codes "89")
read-create_from_string_example = read-create_from_string server text 4 8

read_rounds-whole_example :
    read_rounds server (create_from_string (some text)) 4 2 3 ≡ codes "3456789"
read_rounds-whole_example = read_rounds-whole server text 4 2 3 (omega arith)

read_at-Fits_example :
    ((o : Option Reading) × (read_at server
          (some (create_from_url (some (codes "http://a/b")) (pos 10)))
          true
          5
          (negsuc 1)
        ≡ returns o)
      × FitsIf
          (Reaches (some (create_from_url (some (codes "http://a/b")) (pos 10))) 5 (negsuc 1))
          5
          o)
    ⊎ CopiesBefore (some (create_from_url (some (codes "http://a/b")) (pos 10))) (negsuc 1) (
        read_at server
          (some (create_from_url (some (codes "http://a/b")) (pos 10)))
          true
          5
          (negsuc 1))
unfolding create_from_url
read_at-Fits_example =
    read_at-Fits server (λ h n. omega (arith, length-take (min n 2) h))
      (some (create_from_url (some (codes "http://a/b")) (pos 10))) true 5 (negsuc 1) (omega arith)
      (omega arith)

-- Two bytes from before the content are copied with it.
before_test :
    read_at server (some (create_from_string (some text))) true 5 (negsuc 1) ≡ before_content 5
unfolding read_at create_from_string
before_test = refl
