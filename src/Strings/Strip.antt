-- ===== src/Strings/Strip.antt =====
-- djmount/string_util.c: what `String_StripSpaces` and `String_CleanFileName` keep.
use djmount.Base.{
  ℕ, zero, suc, ◌-◌, ◌<◌, true, false, ◌≡◌, ◌≢◌, refl, [], ◌∷◌, ◌++◌, none, some, arith, ap, ◌∙◌,
  sym, ◌⊎◌, inl, inr, append-nil, append_assoc, map,
}
use djmount.Base.Lists.{Bytes, length, All, All-append, length-take, take, get_or}
use djmount.Base.Tests.{Bool-cases}
use djmount.Base.Text.{isspace}
use djmount.Strings.{skip_spaces, strip_end, strip_spaces, clean_file_name, file_char}

abbrev pub IsBlank : Bytes → Type 0
IsBlank = All (λ c. isspace c ≡ true)

-- Neither the first nor the last byte is a space.
abbrev pub IsTrim : Bytes → Type 0
IsTrim [] = Unit
IsTrim (c ∷ cs) = (isspace c ≡ false) × (isspace (get_or (c ∷ cs) (length cs) 0) ≡ false)

skip_spaces-split :
    (s : Bytes)
    → (a : Bytes) × (s ≡ a ++ skip_spaces s)
      × IsBlank a
      × ((skip_spaces s ≡ []) ⊎ (isspace (get_or (skip_spaces s) 0 0) ≡ false))
unfolding skip_spaces
skip_spaces-split [] = ([], refl, tt, inl refl)
skip_spaces-split (c ∷ cs) = elim (Bool-cases (isspace c)) [
  | inl e ↦
      let (a, joined, blank, stop) = skip_spaces-split cs in
      (c ∷ a, rw e (ap (λ r. c ∷ r) joined), (e, blank), rw e stop)
  | inr e ↦ ([], rw e refl, tt, rw e (inr e))
]

take_last : (r : Bytes) (m : ℕ) → length r ≡ suc m → r ≡ take m r ++ get_or r m 0 ∷ []
take_last [] m h = absurd (omega arith)
take_last (c ∷ []) zero h = refl
take_last (c ∷ (d ∷ r)) zero h = absurd (omega arith)
take_last (c ∷ r) (suc m) h = ap (λ x. c ∷ x) (take_last r m (omega arith))

abbrev EndsWell : Bytes → Type 0
EndsWell r = (r ≡ []) ⊎ (isspace (get_or r (length r - 1) 0) ≡ false)

strip_end-split :
    (n : ℕ) (r : Bytes)
    → length r ≡ n
    → (b : Bytes) × (r ≡ strip_end n r ++ b) × IsBlank b × EndsWell (strip_end n r)
unfolding strip_end
strip_end-split zero r h = ([], sym (append-nil r), tt, inl (nil_of r h))
  where
    nil_of : (r : Bytes) → length r ≡ 0 → r ≡ []
    nil_of [] h = refl
    nil_of (c ∷ cs) h = absurd (omega arith)
strip_end-split (suc m) r h = elim (Bool-cases (isspace (get_or r m 0))) [
  | inr e ↦
      let last : length r - 1 ≡ m = omega arith in
      rw e ([], sym (append-nil r), tt, inr (rw last e))
  | inl e ↦
      let (b, joined, blank, ends) =
        strip_end-split m (take m r) (omega (arith, length-take m r)) in
      rw e (
        b ++ get_or r m 0 ∷ [],
        take_last r m h
            ∙ (ap (λ x. x ++ get_or r m 0 ∷ []) joined
                ∙ append_assoc (strip_end m (take m r)) b (get_or r m 0 ∷ [])),
        All-append _ b (get_or r m 0 ∷ []) blank (e, tt),
        ends,
      )
]

-- What is left of a text that starts with no space.
strip_end-IsTrim :
    (r b : Bytes)
    → (r ≡ []) ⊎ (isspace (get_or r 0 0) ≡ false)
    → (q : Bytes) → r ≡ q ++ b
    → IsBlank b
    → EndsWell q
    → IsTrim q
strip_end-IsTrim r b start [] e blank ends = tt
strip_end-IsTrim r b start (c ∷ q) e blank ends = (first (rw e at start), final (rw last at ends))
  where
    last : length (c ∷ q) - 1 ≡ length q
    last = omega arith

    first : (c ∷ (q ++ b) ≡ []) ⊎ (isspace c ≡ false) → isspace c ≡ false
    first (inl n) = cc
    first (inr k) = k

    final :
        (c ∷ q ≡ []) ⊎ (isspace (get_or (c ∷ q) (length q) 0) ≡ false)
        → isspace (get_or (c ∷ q) (length q) 0) ≡ false
    final (inl n) = cc
    final (inr k) = k

-- `String_StripSpaces` removes a blank text at each end, and what it returns neither starts nor ends
-- with a space; NULL stays NULL.
pub strip_spaces_lem :
    (s : Bytes)
    → (strip_spaces none ≡ none)
      × ((a : Bytes) × (r : Bytes) × (b : Bytes) × (strip_spaces (some s) ≡ some r)
          × (s ≡ a ++ (r ++ b))
          × IsBlank a
          × IsBlank b
          × IsTrim r)
unfolding strip_spaces
strip_spaces_lem s =
    let (a, joined, blank, start) = skip_spaces-split s in
    let r = skip_spaces s in
    let (b, joined', blank', ends) = strip_end-split (length r) r refl in
    (
      refl,
      (
        a,
        strip_end (length r) r,
        b,
        refl,
        joined ∙ ap (λ x. a ++ x) joined',
        blank,
        blank',
        strip_end-IsTrim r b start (strip_end (length r) r) joined' blank' ends,
      ),
    )

length-map : (f : ℕ → ℕ) (s : Bytes) → length (map f s) ≡ length s
length-map f [] = refl
length-map f (c ∷ s) = ap suc (length-map f s)

get_or-map :
    (f : ℕ → ℕ) (s : Bytes) (i : ℕ) → i < length s → get_or (map f s) i 0 ≡ f (get_or s i 0)
get_or-map f [] i h = absurd (omega arith)
get_or-map f (c ∷ s) zero h = refl
get_or-map f (c ∷ s) (suc i) h = get_or-map f s i (omega arith)

map-file_char-IsTrim : (r : Bytes) → IsTrim r → IsTrim (map file_char r)
map-file_char-IsTrim [] h = tt
map-file_char-IsTrim (c ∷ cs) (first, last) = (
  file_char_space c first,
  rw (length-map file_char cs, get_or-map file_char (c ∷ cs) (length cs) (omega arith))
      (file_char_space (get_or (c ∷ cs) (length cs) 0) last),
)
  where
    file_char_space : (c : ℕ) → isspace c ≡ false → isspace (file_char c) ≡ false
    file_char_space c h = ground arith

map-file_char-Lacks : (r : Bytes) → All (λ c. c ≢ b'/') (map file_char r)
map-file_char-Lacks [] = tt
map-file_char-Lacks (c ∷ r) = (ground arith, map-file_char-Lacks r)

map-file_char-same : (r : Bytes) → All (λ c. c ≢ b'/') r → map file_char r ≡ r
map-file_char-same [] h = refl
map-file_char-same (c ∷ r) (h, hs) = ground (arith, map-file_char-same r hs)

-- A name that `String_CleanFileName` makes can stand as one component of a path: it holds no `/`,
-- and it neither starts nor ends with a space. It is as long as the stripped text, and the same as
-- that where that holds no `/`.
pub clean_file_name_lem :
    (s : Bytes)
    → (r : Bytes) × (f : Bytes) × (strip_spaces (some s) ≡ some r)
      × (clean_file_name (some s) ≡ some f)
      × All (λ c. c ≢ b'/') f
      × IsTrim f
      × (length f ≡ length r)
      × (All (λ c. c ≢ b'/') r → f ≡ r)
unfolding clean_file_name
clean_file_name_lem s =
    let (_, (a, r, b, run, joined, blank, blank', trim)) = strip_spaces_lem s in
    (
      r,
      map file_char r,
      run,
      rw (run, clean_file_name),
      map-file_char-Lacks r,
      map-file_char-IsTrim r trim,
      length-map file_char r,
      map-file_char-same r,
    )
