-- ===== src/Charset/RoundTrip.antt =====
-- djmount/charset_internal.c: a text of any supported charset survives the way to UTF-8 and back.
use djmount.Base.{
  ℕ, zero, suc, ◌-◌, ◌≤◌, ◌<◌, ◌≡◌, ◌≢◌, refl, [], ◌∷◌, Option, none, some, arith, ap, ◌∙◌, inl,
  inr, map,
}
use djmount.Base.Lists.{Bytes, length, All, All-mono}
use djmount.Base.Tests.{ltb, Bool-cases, ltb→lt}
use djmount.Charset.Loops.{
  encoded, room, decoded, ascii2utf_loop_whole, utf2ascii_loop_whole, decoded-encoded,
}
use djmount.Charset.Table.{IsTable, IsReady, init_charset-IsReady}
use djmount.Charset.{
  Tables, no_conv, no_tables, ascii2utf, utf2ascii, ascii2utf_size, ascii2utf_room, init_charset,
  error_char_ucs, ascii2utf_loop, utf2ascii_loop,
}

abbrev pub code_of : Option (ℕ → ℕ) → ℕ → ℕ
code_of none b = b
code_of (some c2u) b = c2u b

-- A byte that the charset maps to a code point.
abbrev pub IsMapped : Tables → ℕ → Type 0
IsMapped t b = (b < 256) × (code_of t.c2u b ≢ error_char_ucs)

pub no_conv_whole :
    (src : Bytes) (left : ℕ)
    → length src ≤ left
    → no_conv src left ≡ record { rest = []; out = src; left = left - length src }
unfolding no_conv
no_conv_whole [] left h = ground arith
no_conv_whole (c ∷ cs) zero h = absurd (omega arith)
no_conv_whole (c ∷ cs) (suc left) h = ground (arith, no_conv_whole cs left)

module _ {size : ℕ} {c u : ℕ → ℕ} (t : IsTable size c u) where
  pub code-lt : (b : ℕ) → b < 256 → c b < 65536
  code-lt b h = elim (Bool-cases (ltb b 128)) [
    | inl e ↦ omega (arith, (t.ascii b (ground arith)).0, ltb→lt b 128 e)
    | inr e ↦ ground (arith, t.high b)
  ]

  -- A mapped byte has a code point inside the second table, which gives the byte back.
  mapped_back : (b : ℕ) → b < 256 → c b ≢ error_char_ucs → (c b < size) × (u (c b) ≡ b)
  mapped_back b h m = elim (Bool-cases (ltb b 128)) [
    | inl e ↦ ground (arith, t.ascii b, t.ascii_size)
    | inr e ↦ ground (arith, t.high b)
  ]

  -- Three bytes for each byte past ASCII are always enough.
  pub room-le : (src : Bytes) → All (λ b. b < 256) src → room c src ≤ ascii2utf_room src
  unfolding room ascii2utf_room
  room-le [] h = omega arith
  room-le (b ∷ src) (h, hs) = ground (arith, room-le src hs, t.ascii b)

  map_back :
      (bs : Bytes) → All (λ b. (b < 256) × (c b ≢ error_char_ucs)) bs → map (λ b. u (c b)) bs ≡ bs
  map_back [] h = refl
  map_back (b ∷ bs) ((lt, m), hs) = ground (arith, mapped_back b lt m, map_back bs hs)

  both_ways :
      (bs : Bytes) (wide narrow : ℕ)
      → All (λ b. (b < 256) × (c b ≢ error_char_ucs)) bs
      → ascii2utf_room bs ≤ wide
      → length bs ≤ narrow
      → (ascii2utf_loop c bs wide
          ≡ record { rest = []; out = encoded c bs; left = wide - room c bs })
        × (utf2ascii_loop size u (length (encoded c bs)) (encoded c bs) narrow
            ≡ record { rest = []; out = bs; left = narrow - length bs })
  both_ways bs wide narrow h hw hn =
      let bytes : All (λ b. b < 256) bs = All-mono _ (λ b p. p.0) bs h in
      let codes : All (λ b. (c b < 65536) × (c b < size)) bs =
        All-mono _ (λ b p. (code-lt b p.0, (mapped_back b p.0 p.1).0)) bs h in
      let text : decoded size u (length (encoded c bs)) (encoded c bs) ≡ bs =
        decoded-encoded size u c (length (encoded c bs)) bs codes (omega arith) ∙ map_back bs h in
      (
        ascii2utf_loop_whole c bs wide (omega (arith, room-le bs bytes)),
        utf2ascii_loop_whole size u (length (encoded c bs)) (encoded c bs) narrow (omega arith)
              (omega (arith, ap length text))
            ∙ rw text refl,
      )

-- With the tables `t`, the text `bs` is read whole, and what is written reads back as `bs`.
abbrev pub ReadsBack : Tables → Bytes → ℕ → ℕ → Type 0
ReadsBack t bs wide narrow =
    ((ascii2utf t (some bs) (some wide)).0 ≡ 0)
    × ((ascii2utf t (some bs) (some wide)).1.rest ≡ [])
    × (utf2ascii t (some (ascii2utf t (some bs) (some wide)).1.out) (some narrow)
        ≡ (0, record { rest = []; out = bs; left = narrow - length bs }))

no_tables_back :
    (bs : Bytes) (wide narrow : ℕ)
    → length bs ≤ wide
    → length bs ≤ narrow
    → ReadsBack no_tables bs wide narrow
unfolding ascii2utf utf2ascii
no_tables_back bs wide narrow hw hn =
    rw (no_conv_whole bs wide hw) (refl, refl, rw (no_conv_whole bs narrow hn))

ready_back :
    (t : Tables) (bs : Bytes) (wide narrow : ℕ)
    → IsReady t
    → All (IsMapped t) bs
    → ascii2utf_size t (some bs) ≤ wide
    → length bs ≤ narrow
    → ReadsBack t bs wide narrow
unfolding ascii2utf_size
ready_back t bs wide narrow (c, u, ec, eu, table) mapped hw hn =
    let bytes : All (λ b. (b < 256) × (c b ≢ error_char_ucs)) bs = rw (ec) at mapped in
    let fits : ascii2utf_room bs ≤ wide = ground (arith, hw, ec) in
    let (out, back) = both_ways table bs wide narrow bytes fits hn in
    let run : ascii2utf t (some bs) (some wide)
        ≡ (0, record { rest = []; out = encoded c bs; left = wide - room c bs }) =
      unfold ascii2utf in rw (ec, ascii2utf, out) in
    rw run (refl, refl, unfold utf2ascii in rw (eu, utf2ascii, back))

-- Every text of a supported charset comes back unchanged from UTF-8: where `init_charset` succeeds
-- and the charset maps every byte of the text, `ascii2utf` into a buffer of the size that
-- `ascii2utf_size` asks for reads it all and returns 0, and `utf2ascii` of what it wrote, with one
-- byte of room for each byte of the text, returns 0 and writes the text.
pub utf2ascii-ascii2utf :
    (fresh : ℕ → ℕ) (name bs : Bytes) (wide narrow : ℕ)
    → (init_charset fresh name).0 ≡ 1
    → All (IsMapped (init_charset fresh name).1) bs
    → ascii2utf_size (init_charset fresh name).1 (some bs) ≤ wide
    → length bs ≤ narrow
    → ((ascii2utf (init_charset fresh name).1 (some bs) (some wide)).0 ≡ 0)
      × ((ascii2utf (init_charset fresh name).1 (some bs) (some wide)).1.rest ≡ [])
      × (utf2ascii
            (init_charset fresh name).1
            (some (ascii2utf (init_charset fresh name).1 (some bs) (some wide)).1.out)
            (some narrow)
          ≡ (0, record { rest = []; out = bs; left = narrow - length bs }))
utf2ascii-ascii2utf fresh name bs wide narrow ok mapped hw hn =
    elim (init_charset-IsReady fresh name) [
      | inl e ↦ cc (rw e at ok)
      | inr (inl (_, e)) ↦
          rw e
            (no_tables_back bs wide narrow (unfold ascii2utf_size in omega (arith, rw e at hw)) hn)
      | inr (inr (_, ready)) ↦
          ready_back (init_charset fresh name).1 bs wide narrow ready mapped hw hn
    ]
