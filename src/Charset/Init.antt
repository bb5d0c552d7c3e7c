-- ===== src/Charset/Init.antt =====
-- djmount/charset_internal.c: what `init_charset` leaves in the two tables.
use djmount.Base.{
  ℕ, zero, suc, ◌+◌, ◌≤◌, ◌<◌, Bool, true, false, not, ◌&&◌, ◌≡◌, refl, List, [], ◌∷◌, some, arith,
  ◌⊎◌, inl, inr,
}
use djmount.Base.Lists.{Bytes, length, get_or, bytes_eq}
use djmount.Base.Tests.{◌==◌, ==_iff, ltb, leb, if◌then◌else◌, Bool-cases}
use djmount.Charset.Codepages.{Nls, nls_list}
use djmount.Charset.{write, fill_low, fill_high, zeros, entries, find_nls, error_char_ucs}

-- A table names each code point once, 0 meaning "none"; no code point is ASCII or past 16 bits, and
-- none is the replacement character.
pub lacks : ℕ → List ℕ → Bool
lacks s [] = true
lacks s (t ∷ ts) = not (s == t) && lacks s ts

pub good_entries : List ℕ → Bool
unfolding lacks
good_entries [] = true
good_entries (s ∷ ss) =
    (if s == 0 then true else leb 128 s && (ltb s error_char_ucs && lacks s ss)) && good_entries ss

pub good_nls : Nls → Bool
unfolding good_entries zeros
good_nls nls = length (entries nls) == 128 && good_entries (entries nls)

pub good_nls_parts :
    (nls : Nls)
    → good_nls nls ≡ true
    → (length (entries nls) ≡ 128) × (good_entries (entries nls) ≡ true)
unfolding good_nls
good_nls_parts nls g = ground (arith, ==_iff (length (entries nls)) 128)

pub all_good : List Nls → Bool
unfolding good_nls
all_good [] = true
all_good (n ∷ ns) = good_nls n && all_good ns

-- Every table of the list is good.
pub nls_list_good : all_good nls_list ≡ true
unfolding all_good nls_list
nls_list_good = refl

pub find_nls_good :
    (name : Bytes) (ns : List Nls) (nls : Nls)
    → all_good ns ≡ true
    → find_nls name ns ≡ some nls
    → good_nls nls ≡ true
unfolding all_good find_nls
find_nls_good name [] nls h e = cc
find_nls_good name (n ∷ ns) nls h e = elim (Bool-cases (bytes_eq name n.name)) [
  | inl k ↦ let same : n ≡ nls = cc (rw k at e) in ground (arith, h, same)
  | inr k ↦ find_nls_good name ns nls (ground arith) (rw k at e)
]

pub entry_range :
    (ss : List ℕ) (i : ℕ)
    → good_entries ss ≡ true
    → (get_or ss i 0 ≡ 0) ⊎ ((128 ≤ get_or ss i 0) × (get_or ss i 0 < error_char_ucs))
unfolding good_entries
entry_range [] i g = inl refl
entry_range (s ∷ ss) zero g = ground arith
entry_range (s ∷ ss) (suc i) g = entry_range ss i (ground arith)

-- The first loop writes each ASCII index to both tables.
pub fill_low_lem :
    (n j : ℕ) (c u : ℕ → ℕ) (k : ℕ)
    → ((fill_low n j (c, u)).0 k ≡ (if leb j k && ltb k (j + n) then k else c k))
      × ((fill_low n j (c, u)).1 k ≡ (if leb j k && ltb k (j + n) then k else u k))
unfolding fill_low
fill_low_lem zero j c u k = ground arith
fill_low_lem (suc n) j c u k = ground (arith, fill_low_lem n (j + 1) (write c j j) (write u j j) k)

module _ (s : ℕ) (ss : List ℕ) (j : ℕ) (c u : ℕ → ℕ) where
  fill_none :
      (s == 0) ≡ true
      → fill_high (s ∷ ss) j (c, u) ≡ fill_high ss (j + 1) (write c j error_char_ucs, u)
  unfolding fill_high
  fill_none e = rw (e, fill_high)

  fill_code :
      (s == 0) ≡ false
      → fill_high (s ∷ ss) j (c, u) ≡ fill_high ss (j + 1) (write c j s, write u s j)
  unfolding fill_high
  fill_code e = rw (e, fill_high)

module _ (k : ℕ) where
  pub fill_high_below :
      (ss : List ℕ) (j : ℕ) (c u : ℕ → ℕ) → k < j → (fill_high ss j (c, u)).0 k ≡ c k
  fill_high_below [] j c u h = unfold fill_high in refl
  fill_high_below (s ∷ ss) j c u h = elim (Bool-cases (s == 0)) [
    | inl e ↦
        rw
          (
            fill_none s ss j c u e,
            fill_high_below ss (j + 1) (write c j error_char_ucs) u (omega arith),
          )
          (ground arith)
    | inr e ↦
        rw
          (
            fill_code s ss j c u e,
            fill_high_below ss (j + 1) (write c j s) (write u s j) (omega arith),
          )
          (ground arith)
  ]

  pub fill_high_other :
      (ss : List ℕ) (j : ℕ) (c u : ℕ → ℕ)
      → good_entries ss ≡ true
      → (k < 128) ⊎ (lacks k ss ≡ true)
      → (fill_high ss j (c, u)).1 k ≡ u k
  unfolding good_entries
  fill_high_other [] j c u g h = unfold fill_high in refl
  fill_high_other (s ∷ ss) j c u g h = elim (Bool-cases (s == 0)) [
    | inl e ↦ rw (
      fill_none s ss j c u e,
      fill_high_other ss (j + 1) (write c j error_char_ucs) u (ground arith) (ground arith),
    )
    | inr e ↦
        rw
          (
            fill_code s ss j c u e,
            fill_high_other ss (j + 1) (write c j s) (write u s j) (ground arith) (ground arith),
          )
          (ground arith)
  ]

-- What the second loop leaves at the index of each entry.
abbrev pub Filled : ℕ → ℕ → (ℕ → ℕ) × (ℕ → ℕ) → Type 0
Filled b s t = (t.0 b ≡ (if s == 0 then error_char_ucs else s)) × ((s == 0) ≡ false → t.1 s ≡ b)

pub fill_high_at :
    (ss : List ℕ) (j : ℕ) (c u : ℕ → ℕ) (i : ℕ)
    → good_entries ss ≡ true
    → i < length ss
    → Filled (j + i) (get_or ss i 0) (fill_high ss j (c, u))
unfolding good_entries
fill_high_at [] j c u i g h = absurd (omega arith)
fill_high_at (s ∷ ss) j c u zero g h =
    let here : j + 0 ≡ j = omega arith in
    elim (Bool-cases (s == 0)) [
      | inl e ↦
          rw (here, fill_none s ss j c u e)
            (ground
              (arith, fill_high_below j ss (j + 1) (write c j error_char_ucs) u (omega arith)))
      | inr e ↦
          rw (here, fill_code s ss j c u e)
            (
              ground
                  (arith, fill_high_below j ss (j + 1) (write c j s) (write u s j) (omega arith)),
              λ _. ground (arith, fill_high_other s ss (j + 1) (write c j s) (write u s j)),
            )
    ]
fill_high_at (s ∷ ss) j c u (suc i) g h =
    let there : j + suc i ≡ j + 1 + i = omega arith in
    elim (Bool-cases (s == 0)) [
      | inl e ↦
          rw (there, fill_none s ss j c u e)
            (fill_high_at ss (j + 1) (write c j error_char_ucs) u i (ground arith) (omega arith))
      | inr e ↦
          rw (there, fill_code s ss j c u e)
            (fill_high_at ss (j + 1) (write c j s) (write u s j) i (ground arith) (omega arith))
    ]
