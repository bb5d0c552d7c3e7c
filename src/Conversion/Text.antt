-- ===== src/Conversion/Text.antt =====
-- djmount/charset.c: `Charset_ConvertString` returns the whole text converted, whatever the buffer.
use djmount.Base.{
  ℕ, ◌+◌, ◌≤◌, ◌<◌, Bool, true, ◌≡◌, refl, [], ◌∷◌, ◌++◌, Option, none, some, arith, sym, inl, inr,
  subst,
}
use djmount.Base.Lists.{Bytes, length, All, All-append, length-append}
use djmount.Base.Tests.{ltb, Bool-cases}
use djmount.Charset.Loops.{encoded, decoded}
use djmount.Charset.Table.{init_charset-IsReady}
use djmount.Charset.{Tables, ascii2utf_room, init_charset, ascii2utf_size, utf2ascii_size}
use djmount.Conversion.{
  initialized_not_utf8, Direction, to_utf8, from_utf8, Place, callers, own, converter_size,
  convert_loop, convert_string,
}
use djmount.Conversion.Rounds.{
  transcoded, IsUsable, Returns, returned-Returns, last_round, loop_no_tables, to_utf8_run,
  loop_from_utf8,
}

abbrev Enough : Tables → Direction → Bytes → ℕ → Type 0
Enough t to_utf8 src left = elim (t.c2u) [
  | none ↦ length src ≤ left
  | some _ ↦ ascii2utf_room src ≤ left
]
Enough t from_utf8 src left = elim (t.u2c) [ none ↦ length src ≤ left | some _ ↦ 0 < left ]

ascii2utf_room-snoc : (s : Bytes) → ascii2utf_room (s ++ 0 ∷ []) ≡ ascii2utf_room s + 1
unfolding ascii2utf_room
ascii2utf_room-snoc [] = refl
ascii2utf_room-snoc (c ∷ s) = omega (arith, ascii2utf_room-snoc s)

-- The size that the code computes is enough for the first round.
size-Enough :
    (t : Tables) (dir : Direction) (str : Bytes) (left : ℕ)
    → converter_size t dir str ≤ left
    → IsUsable t
    → Enough t dir (str ++ 0 ∷ []) left
unfolding converter_size ascii2utf_size utf2ascii_size
size-Enough t to_utf8 str left h (inl e) =
    rw e (ground (arith, rw e at h, length-append str (0 ∷ [])))
size-Enough t from_utf8 str left h (inl e) =
    rw e (ground (arith, rw e at h, length-append str (0 ∷ [])))
size-Enough t to_utf8 str left h (inr (c, u, ec, eu, _)) =
    rw ec (ground (arith, rw ec at h, ascii2utf_room-snoc str))
size-Enough t from_utf8 str left h (inr (c, u, ec, eu, _)) = rw eu (ground (arith, rw eu at h))

loop-Returns :
    (t : Tables) (mem : ℕ → Bool) (dir : Direction) (p : Place) (bufsize c : ℕ) (cs : Bytes)
    (left : ℕ)
    → ((n : ℕ) → mem n ≡ true)
    → IsUsable t
    → All (λ b. b < 256) (c ∷ cs)
    → Enough t dir (c ∷ cs) left
    → Returns
        (transcoded t dir (c ∷ cs))
        (convert_loop (length (c ∷ cs)) mem t dir p bufsize (c ∷ cs) [] left)
loop-Returns t mem to_utf8 p bufsize c cs left m (inl e) bytes h = rw e (
    subst (Returns (c ∷ cs))
      (sym (loop_no_tables mem p bufsize (length cs) c cs left to_utf8 (rw e at h)))
      (returned-Returns p (c ∷ cs)))
loop-Returns t mem from_utf8 p bufsize c cs left m (inl e) bytes h = rw e (
    subst (Returns (c ∷ cs))
      (sym (loop_no_tables mem p bufsize (length cs) c cs left from_utf8 (rw e at h)))
      (returned-Returns p (c ∷ cs)))
loop-Returns t mem to_utf8 p bufsize c cs left m (inr (c2u, u2c, ec, eu, table)) bytes h =
    let run = to_utf8_run t c2u u2c (c ∷ cs) left ec table bytes (rw ec at h) in
    let text : transcoded t to_utf8 (c ∷ cs) ≡ encoded c2u (c ∷ cs) = rw ec in
    rw (last_round (length cs) mem t to_utf8 p bufsize c cs [] _ left _ run, text)
      (returned-Returns p (encoded c2u (c ∷ cs)))
loop-Returns t mem from_utf8 p bufsize c cs left m (inr (c2u, u2c, ec, eu, table)) bytes h =
    let text : transcoded t from_utf8 (c ∷ cs) ≡ decoded t.u2c_size u2c (length (c ∷ cs)) (c ∷ cs) =
      rw eu in
    subst
      (λ x. Returns x (convert_loop (length (c ∷ cs)) mem t from_utf8 p bufsize (c ∷ cs) [] left))
      (sym text)
      (loop_from_utf8 t c2u u2c mem p bufsize (length cs) c cs left m eu (omega arith) (rw eu at h))

text-Returns :
    (t : Tables) (mem : ℕ → Bool) (dir : Direction) (p : Place) (bufsize : ℕ) (str : Bytes)
    (left : ℕ)
    → ((n : ℕ) → mem n ≡ true)
    → IsUsable t
    → All (λ b. b < 256) str
    → converter_size t dir str ≤ left
    → Returns
        (transcoded t dir (str ++ 0 ∷ []))
        (convert_loop (length (str ++ 0 ∷ [])) mem t dir p bufsize (str ++ 0 ∷ []) [] left)
text-Returns t mem dir p bufsize [] left m u bytes h =
    loop-Returns t mem dir p bufsize 0 [] left m u (omega arith, tt) (size-Enough t dir [] left h u)
text-Returns t mem dir p bufsize (c ∷ str) left m u bytes h =
    loop-Returns t mem dir p bufsize c (str ++ 0 ∷ []) left m u
      (All-append _ (c ∷ str) (0 ∷ []) bytes (omega arith, tt))
      (size-Enough t dir (c ∷ str) left h u)

usable :
    (fresh : ℕ → ℕ) (name : Bytes)
    → (init_charset fresh name).0 ≡ 1
    → IsUsable (init_charset fresh name).1
usable fresh name ok = elim (init_charset-IsReady fresh name) [
  | inl e ↦ cc (rw e at ok)
  | inr (inl (_, e)) ↦ inl (rw e)
  | inr (inr (_, ready)) ↦ inr ready
]

convert_text :
    (t : Tables) (mem : ℕ → Bool) (dir : Direction) (str : Bytes) (buffer : Option ℕ)
    → ((n : ℕ) → mem n ≡ true)
    → IsUsable t
    → All (λ b. b < 256) str
    → Returns (transcoded t dir (str ++ 0 ∷ [])) (
        convert_string mem
          (record { state = initialized_not_utf8; tables = t })
          dir
          (some str)
          buffer)
unfolding convert_string
convert_text t mem dir str none m u bytes = rw (m (converter_size t dir str)) (
    text-Returns t mem dir own (converter_size t dir str) str (converter_size t dir str) m u bytes
      (omega arith))
convert_text t mem dir str (some bufsize) m u bytes =
    elim (Bool-cases (ltb bufsize (converter_size t dir str))) [
      | inl e ↦
          rw (e, m (converter_size t dir str))
            (text-Returns t mem dir own (converter_size t dir str) str (converter_size t dir str) m
              u bytes (omega arith))
      | inr e ↦ rw e (text-Returns t mem dir callers bufsize str bufsize m u bytes (ground arith))
    ]

-- With every allocation granted, `Charset_ConvertString` in the converting state returns the whole
-- text, its final NUL included, in the other charset: with or without a buffer, whatever the
-- buffer's size, and also where the UTF-8 text is malformed. The loop always ends.
pub convert_string-Returns :
    (fresh : ℕ → ℕ) (name : Bytes) (mem : ℕ → Bool) (dir : Direction) (str : Bytes)
    (buffer : Option ℕ)
    → (init_charset fresh name).0 ≡ 1
    → ((n : ℕ) → mem n ≡ true)
    → All (λ b. b < 256) str
    → Returns (transcoded (init_charset fresh name).1 dir (str ++ 0 ∷ [])) (
        convert_string mem
          (record { state = initialized_not_utf8; tables = (init_charset fresh name).1 })
          dir
          (some str)
          buffer)
convert_string-Returns fresh name mem dir str buffer ok m bytes =
    convert_text (init_charset fresh name).1 mem dir str buffer m (usable fresh name ok) bytes
