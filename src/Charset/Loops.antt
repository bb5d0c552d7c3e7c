-- ===== src/Charset/Loops.antt =====
-- djmount/charset_internal.c: the two loops, as functions of the whole input and of the room left.
use djmount.Base.{
  ℕ, zero, suc, ◌+◌, ◌-◌, ◌≤◌, ◌<◌, Bool, ◌&&◌, ◌≡◌, ◌≢◌, refl, [], ◌∷◌, ◌++◌, append_assoc, map,
  arith, ap, ◌∙◌, ◌⊎◌, inl, inr,
}
use djmount.Base.Lists.{Bytes, length, length-append, length-drop, drop, All}
use djmount.Base.Tests.{leb, ltb, if◌then◌else◌, Bool-cases, lt→ltb}
use djmount.Charset.Utf8.{utf8, put-utf8, length-put, decode-put, drop-put}
use djmount.Charset.{
  put, utf_count, decode, skip_cont, emit, ascii2utf_loop, utf2ascii_loop, error_char_ascii,
}

one-le-utf_count : (s : ℕ) → 1 ≤ utf_count s
one-le-utf_count s = ground arith

utf8_cons : (s : ℕ) → (c : ℕ) × (cs : Bytes) × (utf8 s ≡ c ∷ cs)
utf8_cons s = go (utf8 s) (ground arith)
  where
    go : (r : Bytes) → r ≢ [] → (c : ℕ) × (cs : Bytes) × (r ≡ c ∷ cs)
    go [] h = absurd (h refl)
    go (c ∷ cs) h = (c, cs, refl)

module _ (c2u : ℕ → ℕ) where
  -- All the output that a text gives.
  unfoldable pub encoded : Bytes → Bytes
  encoded [] = []
  encoded (c ∷ cs) = put (c2u c) ++ encoded cs

  unfoldable pub room : Bytes → ℕ
  room [] = 0
  room (c ∷ cs) = utf_count (c2u c) + room cs

  -- With room for all, the loop reads all and writes all.
  pub ascii2utf_loop_whole :
      (src : Bytes) (left : ℕ)
      → room src ≤ left
      → ascii2utf_loop c2u src left
        ≡ record { rest = []; out = encoded src; left = left - room src }
  unfolding ascii2utf_loop encoded room
  ascii2utf_loop_whole [] left h = ground arith
  ascii2utf_loop_whole (c ∷ cs) left h =
      ground (arith, ascii2utf_loop_whole cs (left - utf_count (c2u c)))

  -- For a table of 16-bit code points and any room, the loop stops at a character: the output so
  -- far and the output of the rest make up the whole output, and the room left is what was not
  -- written.
  pub ascii2utf_loop_split :
      ((c : ℕ) → c2u c < 65536)
      → (src : Bytes) (left : ℕ)
      → ((ascii2utf_loop c2u src left).out ++ encoded (ascii2utf_loop c2u src left).rest
          ≡ encoded src)
        × (length (ascii2utf_loop c2u src left).out + (ascii2utf_loop c2u src left).left ≡ left)
  unfolding ascii2utf_loop encoded
  ascii2utf_loop_split small [] left = (refl, omega arith)
  ascii2utf_loop_split small (c ∷ cs) left =
      let (joined, counted) = ascii2utf_loop_split small cs (left - utf_count (c2u c)) in
      elim (Bool-cases (ltb 0 left && leb (utf_count (c2u c)) left)) [
        | inr e ↦ rw e (refl, omega arith)
        | inl e ↦ rw e (
          append_assoc (put (c2u c)) _ _ ∙ ap (λ r. put (c2u c) ++ r) joined,
          ground (
            arith,
            length-append (put (c2u c)) (ascii2utf_loop c2u cs (left - utf_count (c2u c))).out,
            length-put (c2u c) (small c),
          ),
        )
      ]

  pub length-encoded : ((c : ℕ) → c2u c < 65536) → (src : Bytes) → length (encoded src) ≡ room src
  unfolding encoded room
  length-encoded small [] = refl
  length-encoded small (c ∷ cs) = omega (
    arith,
    length-append (put (c2u c)) (encoded cs),
    length-put (c2u c) (small c),
    length-encoded small cs,
  )

module _ (size : ℕ) (u2c : ℕ → ℕ) where
  length-skip_cont : (cs : Bytes) → length (skip_cont cs) ≤ length cs
  unfolding skip_cont
  length-skip_cont [] = omega arith
  length-skip_cont (c ∷ cs) = ground (arith, length-skip_cont cs)

  one-le-count : (src : Bytes) → 1 ≤ (decode src).count
  unfolding decode
  one-le-count src = ground arith

  known : Bytes → Bool
  known src = (decode src).s_ok && ltb (decode src).s size

  -- The byte that a round writes, and the input that it leaves.
  pub char_of : Bytes → ℕ
  unfolding known
  char_of src = if known src then u2c (decode src).s else error_char_ascii

  pub next : Bytes → Bytes
  unfolding known
  next src = let after = drop (decode src).count src in if known src then after else skip_cont after

  length-next : (c : ℕ) (cs : Bytes) → length (next (c ∷ cs)) ≤ length cs
  unfolding next
  length-next c cs = ground (
    arith,
    one-le-count (c ∷ cs),
    length-drop (decode (c ∷ cs)).count (c ∷ cs),
    length-skip_cont (drop (decode (c ∷ cs)).count (c ∷ cs)),
  )

  loop_step :
      (fuel : ℕ) (c : ℕ) (cs : Bytes) (left : ℕ)
      → utf2ascii_loop size u2c (suc fuel) (c ∷ cs) (suc left)
        ≡ emit (char_of (c ∷ cs) ∷ []) (utf2ascii_loop size u2c fuel (next (c ∷ cs)) left)
  unfolding utf2ascii_loop char_of next
  loop_step fuel c cs left = ground arith

  -- All the output that a text gives, on fuel.
  unfoldable pub decoded : ℕ → Bytes → Bytes
  unfolding char_of next
  decoded fuel [] = []
  decoded zero (c ∷ cs) = []
  decoded (suc fuel) (c ∷ cs) = char_of (c ∷ cs) ∷ decoded fuel (next (c ∷ cs))

  pub decoded_fuel :
      (f g : ℕ) (src : Bytes) → length src ≤ f → length src ≤ g → decoded f src ≡ decoded g src
  unfolding decoded
  decoded_fuel zero zero [] p q = refl
  decoded_fuel zero (suc g) [] p q = refl
  decoded_fuel (suc f) zero [] p q = refl
  decoded_fuel (suc f) (suc g) [] p q = refl
  decoded_fuel zero g (c ∷ cs) p q = absurd (omega arith)
  decoded_fuel (suc f) zero (c ∷ cs) p q = absurd (omega arith)
  decoded_fuel (suc f) (suc g) (c ∷ cs) p q =
      ap (λ r. char_of (c ∷ cs) ∷ r)
        (decoded_fuel f g (next (c ∷ cs)) (omega (arith, length-next c cs))
          (omega (arith, length-next c cs)))

  pub length-decoded : (fuel : ℕ) (src : Bytes) → length (decoded fuel src) ≤ length src
  unfolding decoded
  length-decoded zero [] = omega arith
  length-decoded (suc fuel) [] = omega arith
  length-decoded zero (c ∷ cs) = omega arith
  length-decoded (suc fuel) (c ∷ cs) =
      omega (arith, length-decoded fuel (next (c ∷ cs)), length-next c cs)

  -- On fuel for the whole input, the loop stops between two characters, at the end of the input or
  -- of the output: the output so far and the output of the rest make up the whole output, the room
  -- left is what was not written, and no more bytes are written than are read.
  pub utf2ascii_loop_split :
      (fuel : ℕ) (src : Bytes) (left : ℕ)
      → length src ≤ fuel
      → ((utf2ascii_loop size u2c fuel src left).out
            ++ decoded fuel (utf2ascii_loop size u2c fuel src left).rest
          ≡ decoded fuel src)
        × (length (utf2ascii_loop size u2c fuel src left).out
              + (utf2ascii_loop size u2c fuel src left).left
            ≡ left)
        × (length (utf2ascii_loop size u2c fuel src left).out
              + length (utf2ascii_loop size u2c fuel src left).rest
            ≤ length src)
        × (((utf2ascii_loop size u2c fuel src left).rest ≡ [])
            ⊎ ((utf2ascii_loop size u2c fuel src left).left ≡ 0))
  unfolding utf2ascii_loop decoded
  utf2ascii_loop_split zero [] left h = (refl, omega arith, omega arith, inl refl)
  utf2ascii_loop_split (suc fuel) [] left h = (refl, omega arith, omega arith, inl refl)
  utf2ascii_loop_split zero (c ∷ cs) left h = absurd (omega arith)
  utf2ascii_loop_split (suc fuel) (c ∷ cs) zero h = (refl, omega arith, omega arith, inr refl)
  utf2ascii_loop_split (suc fuel) (c ∷ cs) (suc left) h =
      let shorter = length-next c cs in
      let (joined, counted, read, ended) =
        utf2ascii_loop_split fuel (next (c ∷ cs)) left (omega arith) in
      let rest = (utf2ascii_loop size u2c fuel (next (c ∷ cs)) left).rest in
      rw (loop_step fuel c cs left) (
        ap (λ r. char_of (c ∷ cs) ∷ r)
            (ap (λ r. (utf2ascii_loop size u2c fuel (next (c ∷ cs)) left).out ++ r)
                (decoded_fuel (suc fuel) fuel rest (omega arith) (omega arith))
              ∙ joined),
        omega arith,
        omega arith,
        ended,
      )

  -- With room for all, the loop reads all and writes all.
  pub utf2ascii_loop_whole :
      (fuel : ℕ) (src : Bytes) (left : ℕ)
      → length src ≤ fuel
      → length (decoded fuel src) ≤ left
      → utf2ascii_loop size u2c fuel src left
        ≡ record { rest = []; out = decoded fuel src; left = left - length (decoded fuel src) }
  unfolding utf2ascii_loop decoded
  utf2ascii_loop_whole zero [] left h k = ground arith
  utf2ascii_loop_whole (suc fuel) [] left h k = ground arith
  utf2ascii_loop_whole zero (c ∷ cs) left h k = absurd (omega arith)
  utf2ascii_loop_whole (suc fuel) (c ∷ cs) zero h k = absurd (omega arith)
  utf2ascii_loop_whole (suc fuel) (c ∷ cs) (suc left) h k = rw (loop_step fuel c cs left) (
      ground (
        arith,
        utf2ascii_loop_whole fuel (next (c ∷ cs)) left (omega (arith, length-next c cs))
            (omega arith),
      ))

  -- The character that `ascii2utf` wrote for `s` is read whole.
  next-put :
      (s : ℕ) (rest : Bytes)
      → s < 65536
      → s < size
      → (char_of (put s ++ rest) ≡ u2c s) × (next (put s ++ rest) ≡ rest)
  unfolding char_of next
  next-put s rest h k = rw (decode-put s rest h, lt→ltb s size k) (refl, drop-put s rest h)

  put_cons : (s : ℕ) → s < 65536 → (c : ℕ) × (cs : Bytes) × (put s ≡ c ∷ cs)
  put_cons s h = rw (put-utf8 s h) (utf8_cons s)

  decoded-put :
      (fuel s : ℕ) (rest : Bytes)
      → s < 65536
      → s < size
      → decoded (suc fuel) (put s ++ rest) ≡ u2c s ∷ decoded fuel rest
  decoded-put fuel s rest h k =
      let (c, cs, e) = put_cons s h in
      let whole : put s ++ rest ≡ c ∷ (cs ++ rest) = ap (λ r. r ++ rest) e in
      let (this, after) = next-put s rest h k in
      rw whole (unfold decoded in ground (arith, this, after, whole))

  pub decoded-encoded :
      (c2u : ℕ → ℕ) (fuel : ℕ) (bs : Bytes)
      → All (λ b. (c2u b < 65536) × (c2u b < size)) bs
      → length (encoded c2u bs) ≤ fuel
      → decoded fuel (encoded c2u bs) ≡ map (λ b. u2c (c2u b)) bs
  unfolding encoded
  decoded-encoded c2u zero [] h k = unfold decoded in refl
  decoded-encoded c2u (suc fuel) [] h k = unfold decoded in refl
  decoded-encoded c2u zero (b ∷ bs) h k = absurd (
      omega (
        arith,
        length-append (put (c2u b)) (encoded c2u bs),
        length-put (c2u b),
        one-le-utf_count (c2u b),
      ))
  decoded-encoded c2u (suc fuel) (b ∷ bs) h k =
      let shorter : length (encoded c2u bs) ≤ fuel = omega (
        arith,
        length-append (put (c2u b)) (encoded c2u bs),
        length-put (c2u b) h.0.0,
        one-le-utf_count (c2u b),
      ) in
      decoded-put fuel (c2u b) (encoded c2u bs) h.0.0 h.0.1
      ∙ ap (λ r. u2c (c2u b) ∷ r) (decoded-encoded c2u fuel bs h.1 shorter)
