-- ===== src/Conversion/Rounds.antt =====
-- djmount/charset.c: the rounds of the loop of `Charset_ConvertString`.
use djmount.Base.{
  ℕ, zero, suc, ◌+◌, ◌-◌, ◌*◌, ◌≤◌, ◌<◌, Bool, true, ◌≡◌, refl, [], ◌∷◌, ◌++◌, none, some, arith,
  ap, ◌∙◌, sym, ◌⊎◌, inl, inr, append-nil, subst,
}
use djmount.Base.Lists.{Bytes, length, All}
use djmount.Charset.Loops.{
  encoded, room, decoded, ascii2utf_loop_whole, utf2ascii_loop_whole, utf2ascii_loop_split,
  decoded_fuel, length-decoded,
}
use djmount.Charset.RoundTrip.{no_conv_whole, room-le}
use djmount.Charset.Table.{IsTable, IsReady}
use djmount.Charset.{
  Tables, no_tables, ascii2utf, utf2ascii, ascii2utf_room, utf2ascii_loop, finish, e2big,
}
use djmount.Conversion.{
  Direction, to_utf8, from_utf8, Result, in_buffer, allocated, Place, callers, own, returned,
  converter, convert_loop,
}

-- All of a text in the other charset, with no bound on the room.
abbrev pub transcoded : Tables → Direction → Bytes → Bytes
transcoded t to_utf8 src = elim (t.c2u) [ none ↦ src | some c ↦ encoded c src ]
transcoded t from_utf8 src = elim (t.u2c) [
  | none ↦ src
  | some u ↦ decoded t.u2c_size u (length src) src
]

abbrev pub IsUsable : Tables → Type 0
IsUsable t = (t ≡ no_tables) ⊎ IsReady t

-- The result is the text `x`, in the caller's buffer or in new memory.
abbrev pub Returns : Bytes → Result → Type 0
Returns x r = (r ≡ in_buffer x) ⊎ (r ≡ allocated x)

pub returned-Returns : (p : Place) (x : Bytes) → Returns x (returned p x)
returned-Returns callers x = inl refl
returned-Returns own x = inr refl

-- A round that reads all is the last.
pub last_round :
    (fuel : ℕ) (mem : ℕ → Bool) (t : Tables) (dir : Direction) (p : Place) (bufsize : ℕ) (c : ℕ)
    (cs out x : Bytes) (left left' : ℕ)
    → converter t dir (some (c ∷ cs)) (some left) ≡ (0, record { rest = []; out = x; left = left' })
    → convert_loop (suc fuel) mem t dir p bufsize (c ∷ cs) out left ≡ returned p (out ++ x)
unfolding convert_loop
last_round zero mem t dir p bufsize c cs out x left left' e = rw (e, convert_loop)
last_round (suc fuel) mem t dir p bufsize c cs out x left left' e = rw (e, convert_loop)

module _ (mem : ℕ → Bool) (p : Place) (bufsize fuel c : ℕ) (cs : Bytes) (left : ℕ) where
  pub loop_no_tables :
      (dir : Direction)
      → length (c ∷ cs) ≤ left
      → convert_loop (suc fuel) mem no_tables dir p bufsize (c ∷ cs) [] left ≡ returned p (c ∷ cs)
  unfolding converter ascii2utf utf2ascii
  loop_no_tables to_utf8 h =
      last_round fuel mem no_tables to_utf8 p bufsize c cs [] (c ∷ cs) left (left - length (c ∷ cs))
        (rw (no_conv_whole (c ∷ cs) left h))
  loop_no_tables from_utf8 h =
      last_round fuel mem no_tables from_utf8 p bufsize c cs [] (c ∷ cs) left
        (left - length (c ∷ cs)) (rw (no_conv_whole (c ∷ cs) left h))

module _ (t : Tables) (c2u u2c : ℕ → ℕ) where
  pub to_utf8_run :
      (src : Bytes) (left : ℕ)
      → t.c2u ≡ some c2u
      → IsTable t.u2c_size c2u u2c
      → All (λ b. b < 256) src
      → ascii2utf_room src ≤ left
      → converter t to_utf8 (some src) (some left)
        ≡ (0, record { rest = []; out = encoded c2u src; left = left - room c2u src })
  unfolding converter ascii2utf
  to_utf8_run src left e table bytes h =
      rw (e, ascii2utf, ascii2utf_loop_whole c2u src left (omega (arith, room-le table src bytes)))

  from_utf8_run :
      (src : Bytes) (left : ℕ)
      → t.u2c ≡ some u2c
      → converter t from_utf8 (some src) (some left)
        ≡ finish (utf2ascii_loop t.u2c_size u2c (length src) src left)
  unfolding converter utf2ascii
  from_utf8_run src left e = rw (e, utf2ascii)

  from_utf8_whole :
      (src : Bytes) (left : ℕ)
      → t.u2c ≡ some u2c
      → length src ≤ left
      → converter t from_utf8 (some src) (some left) ≡ (
        0,
        record {
          rest = [];
          out = decoded t.u2c_size u2c (length src) src;
          left = left - length (decoded t.u2c_size u2c (length src) src);
        },
      )
  from_utf8_whole src left e h = rw (
    from_utf8_run src left e,
    utf2ascii_loop_whole t.u2c_size u2c (length src) src left (omega arith)
        (omega (arith, length-decoded t.u2c_size u2c (length src) src)),
  )

  grown_round :
      (mem : ℕ → Bool) (p : Place) (bufsize fuel d : ℕ) (ds out : Bytes) (left : ℕ)
      → t.u2c ≡ some u2c
      → length (d ∷ ds) ≤ fuel
      → length (d ∷ ds) ≤ left
      → convert_loop fuel mem t from_utf8 p bufsize (d ∷ ds) out left
        ≡ returned p (out ++ decoded t.u2c_size u2c (length (d ∷ ds)) (d ∷ ds))
  grown_round mem p bufsize zero d ds out left e h l = absurd (omega arith)
  grown_round mem p bufsize (suc fuel) d ds out left e h l =
      last_round fuel mem t from_utf8 p bufsize d ds out _ left _
        (from_utf8_whole (d ∷ ds) left e l)

  first_round :
      (mem : ℕ → Bool) (p : Place) (bufsize fuel c : ℕ) (cs : Bytes) (left : ℕ) (d : ℕ)
      (ds out : Bytes) (left' : ℕ)
      → ((n : ℕ) → mem n ≡ true)
      → converter t from_utf8 (some (c ∷ cs)) (some left)
        ≡ (e2big, record { rest = d ∷ ds; out = out; left = left' })
      → convert_loop (suc fuel) mem t from_utf8 p bufsize (c ∷ cs) [] left
        ≡ convert_loop fuel mem t from_utf8 own
            (bufsize + length (d ∷ ds) * 2)
            (d ∷ ds)
            out
            (left' + length (d ∷ ds) * 2)
  unfolding convert_loop
  first_round mem p bufsize fuel c cs left d ds out left' m run =
      rw (run, m (bufsize + length (d ∷ ds) * 2), convert_loop)

  -- A text that needs more bytes than the size function counted is finished in a second round,
  -- after the output has grown.
  pub loop_from_utf8 :
      (mem : ℕ → Bool) (p : Place) (bufsize fuel c : ℕ) (cs : Bytes) (left : ℕ)
      → ((n : ℕ) → mem n ≡ true)
      → t.u2c ≡ some u2c
      → length (c ∷ cs) ≤ suc fuel
      → 0 < left
      → Returns
          (decoded t.u2c_size u2c (length (c ∷ cs)) (c ∷ cs))
          (convert_loop (suc fuel) mem t from_utf8 p bufsize (c ∷ cs) [] left)
  loop_from_utf8 mem p bufsize fuel c cs left m e h l =
      let r = utf2ascii_loop t.u2c_size u2c (length (c ∷ cs)) (c ∷ cs) left in
      go r.rest r.out r.left refl
    where
      fuel_left :
          (d : ℕ) (ds out : Bytes) (left' : ℕ)
          → length out + left' ≡ left
          → length out + length (d ∷ ds) ≤ length (c ∷ cs)
          → (d ∷ ds ≡ []) ⊎ (left' ≡ 0)
          → length (d ∷ ds) ≤ fuel
      fuel_left d ds out left' counted read ended = ground arith

      go :
          (rest out : Bytes) (left' : ℕ)
          → utf2ascii_loop t.u2c_size u2c (length (c ∷ cs)) (c ∷ cs) left
            ≡ record { rest = rest; out = out; left = left' }
          → Returns
              (decoded t.u2c_size u2c (length (c ∷ cs)) (c ∷ cs))
              (convert_loop (suc fuel) mem t from_utf8 p bufsize (c ∷ cs) [] left)
      go [] out left' run =
          let (joined, _, _, _) =
            rw run at
              (utf2ascii_loop_split t.u2c_size u2c (length (c ∷ cs)) (c ∷ cs) left (omega arith)) in
          let one : converter t from_utf8 (some (c ∷ cs)) (some left)
              ≡ (0, record { rest = []; out = out; left = left' }) =
            from_utf8_run (c ∷ cs) left e ∙ ap finish run in
          rw (last_round fuel mem t from_utf8 p bufsize c cs [] out left left' one) (
            subst (λ x. Returns x (returned p out))
              (sym (append-nil out) ∙ unfold decoded in joined) (returned-Returns p out))
      go (d ∷ ds) out left' run =
          let (joined, counted, read, ended) =
            rw run at
              (utf2ascii_loop_split t.u2c_size u2c (length (c ∷ cs)) (c ∷ cs) left (omega arith)) in
          let two : converter t from_utf8 (some (c ∷ cs)) (some left)
              ≡ (e2big, record { rest = d ∷ ds; out = out; left = left' }) =
            from_utf8_run (c ∷ cs) left e ∙ (ap finish run ∙ ground arith) in
          let second =
            first_round mem p bufsize fuel c cs left d ds out left' m two
            ∙ grown_round mem own (bufsize + length (d ∷ ds) * 2) fuel d ds out
                (left' + length (d ∷ ds) * 2) e (fuel_left d ds out left' counted read ended)
                (omega arith) in
          let whole =
            ap (λ r. out ++ r)
              (decoded_fuel t.u2c_size u2c (length (d ∷ ds)) (length (c ∷ cs)) (d ∷ ds)
                (omega arith) (omega arith))
            ∙ joined in
          rw (second, whole) (returned-Returns own _)
