-- ===== src/Vfs/Match.antt =====
-- Names and paths: what `vfs_match_start_of_path` matches (djmount/vfs.c).
use djmount.Base.{
  ℕ, zero, suc, Bool, true, not, ◌&&◌, ◌≡◌, ◌≢◌, refl, List, [], ◌∷◌, ◌++◌, none, some, arith, ap,
  ◌∙◌, inl, inr,
}
use djmount.Base.Lists.{Bytes, length, take, drop, All, bytes_eq, bytes_eq_sound}
use djmount.Base.Tests.{◌==◌, Bool-cases, if◌then◌else◌}
use djmount.Vfs.{match_start_of_path, skip_slashes, ends_name}

-- A name of a file or directory: not empty, and without a slash.
abbrev pub IsName : Bytes → Type 0
IsName name = (name ≢ []) × All (λ c. c ≢ b'/') name

-- The same as tests, for the names that the code spells out.
unfoldable pub has_no_slash : Bytes → Bool
has_no_slash [] = true
has_no_slash (c ∷ cs) = not (c == b'/') && has_no_slash cs

has_no_slash_lem : (name : Bytes) → has_no_slash name ≡ true → All (λ c. c ≢ b'/') name
unfolding has_no_slash
has_no_slash_lem [] h = tt
has_no_slash_lem (c ∷ cs) h = (ground arith, has_no_slash_lem cs (ground arith))

pub cons-IsName : (c : ℕ) (cs : Bytes) → has_no_slash (c ∷ cs) ≡ true → IsName (c ∷ cs)
cons-IsName c cs h = ((λ e. cc), has_no_slash_lem (c ∷ cs) h)

abbrev pub slashes : ℕ → Bytes
slashes zero = []
slashes (suc n) = b'/' ∷ slashes n

-- Names, each with a number of slashes after it.
abbrev pub Names : Type 0
Names = List (Bytes × ℕ)

-- The path that the names spell: one slash more than the number after each name but the last.
unfoldable pub spelled : Names → Bytes
spelled [] = []
spelled ((name, n) ∷ []) = name ++ slashes n
spelled ((name, n) ∷ (x ∷ xs)) = name ++ (b'/' ∷ (slashes n ++ spelled (x ∷ xs)))

abbrev pub AreNames : Names → Type 0
AreNames = All (λ x. IsName (x.0))

pub skip_slashes_append : (n : ℕ) (p : Bytes) → skip_slashes (slashes n ++ p) ≡ skip_slashes p
unfolding skip_slashes
skip_slashes_append zero p = refl
skip_slashes_append (suc n) p = skip_slashes_append n p

skip_slashes_name : (name p : Bytes) → IsName name → skip_slashes (name ++ p) ≡ name ++ p
unfolding skip_slashes
skip_slashes_name [] p h = absurd (h.0 refl)
skip_slashes_name (c ∷ cs) p h = ground (arith, h.1.0)

pub skip_slashes-spelled : (xs : Names) → AreNames xs → skip_slashes (spelled xs) ≡ spelled xs
unfolding spelled skip_slashes
skip_slashes-spelled [] h = refl
skip_slashes-spelled ((name, n) ∷ []) h = skip_slashes_name name (slashes n) (h.0)
skip_slashes-spelled ((name, n) ∷ (x ∷ xs)) h =
    skip_slashes_name name (b'/' ∷ (slashes n ++ spelled (x ∷ xs))) (h.0)

-- Where the path starts with a name that a slash or nothing follows, the test is the equality of the names.
match_name :
    (name c rest : Bytes)
    → All (λ b. b ≢ b'/') name
    → All (λ b. b ≢ b'/') c
    → ends_name rest ≡ true
    → (bytes_eq (take (length name) (c ++ rest)) name && ends_name (drop (length name) (c ++ rest)))
      ≡ bytes_eq name c
match_name [] [] rest hn hc e = e
match_name [] (y ∷ ys) rest hn hc e = ground (arith, hc.0)
match_name (x ∷ xs) [] [] hn hc e = refl
match_name (x ∷ xs) [] (r ∷ rest) hn hc e = ground (arith, hn.0)
match_name (x ∷ xs) (y ∷ ys) rest hn hc e = ground (arith, match_name xs ys rest (hn.1) (hc.1) e)

drop-length-append : (name rest : Bytes) → drop (length name) (name ++ rest) ≡ rest
drop-length-append [] rest = refl
drop-length-append (c ∷ cs) rest = drop-length-append cs rest

match_head :
    (name c rest : Bytes)
    → IsName name
    → IsName c
    → ends_name rest ≡ true
    → match_start_of_path (c ++ rest) name
      ≡ (if bytes_eq name c then some (skip_slashes rest) else none)
unfolding match_start_of_path
match_head name c rest hn hc e =
    let test = match_name name c rest (hn.1) (hc.1) e in
    elim (Bool-cases (bytes_eq name c)) [
      | inr ne ↦ rw (test, ne)
      | inl eq ↦
          let same : name ≡ c = bytes_eq_sound name c eq in
          let left : drop (length name) (c ++ rest) ≡ rest =
            ap (λ w. drop (length w) (c ++ rest)) same ∙ drop-length-append c rest in
          rw (test, eq, left)
    ]

skip_slashes-all : (n : ℕ) → skip_slashes (slashes n) ≡ []
unfolding skip_slashes
skip_slashes-all zero = refl
skip_slashes-all (suc n) = skip_slashes-all n

skip_one : (p : Bytes) → skip_slashes (b'/' ∷ p) ≡ skip_slashes p
unfolding skip_slashes
skip_one p = refl

ends_name-slashes : (n : ℕ) → ends_name (slashes n) ≡ true
ends_name-slashes zero = refl
ends_name-slashes (suc n) = refl

-- A path that spells names starts with a name just when that is the first of them, and what is left then spells the
-- others: a name that only begins like another does not match, and no slash is left before the next name.
pub match_start_of_path-spelled :
    (name c : Bytes) (n : ℕ) (xs : Names)
    → IsName name
    → AreNames ((c, n) ∷ xs)
    → match_start_of_path (spelled ((c, n) ∷ xs)) name
      ≡ (if bytes_eq name c then some (spelled xs) else none)
unfolding spelled
match_start_of_path-spelled name c n [] hn h =
    let none_left : skip_slashes (slashes n) ≡ [] = skip_slashes-all n in
    match_head name c (slashes n) hn (h.0) (ends_name-slashes n)
    ∙ ap (λ r. if bytes_eq name c then some r else none) none_left
match_start_of_path-spelled name c n (x ∷ xs) hn h =
    let left : skip_slashes (slashes n ++ spelled (x ∷ xs)) ≡ spelled (x ∷ xs) =
      skip_slashes_append n (spelled (x ∷ xs)) ∙ skip_slashes-spelled (x ∷ xs) (h.1) in
    match_head name c (b'/' ∷ (slashes n ++ spelled (x ∷ xs))) hn (h.0) refl
    ∙ ap (λ r. if bytes_eq name c then some r else none)
        (skip_one (slashes n ++ spelled (x ∷ xs)) ∙ left)
