-- ===== src/Charset/Table.antt =====
-- djmount/charset_internal.c: what `init_charset` makes of the tables of every charset it knows.
use djmount.Base.{
  ℕ, zero, suc, ◌+◌, ◌-◌, ◌≤◌, ◌<◌, true, ◌≡◌, refl, List, [], ◌∷◌, Option, none, some, arith, ◌⊎◌,
  inl, inr,
}
use djmount.Base.Lists.{Bytes, length, get_or, bytes_eq, bytes_eq_sound}
use djmount.Base.Tests.{ltb, if◌then◌else◌, Bool-cases, Option-cases}
use djmount.Base.Text.{codes}
use djmount.Charset.Codepages.{nls_list}
use djmount.Charset.Init.{
  Filled, good_entries, nls_list_good, find_nls_good, fill_low_lem, fill_high_below,
  fill_high_other, fill_high_at, good_nls, good_nls_parts, entry_range,
}
use djmount.Charset.{
  Tables, fill_low, fill_high, build, max_code, find_nls, init_charset, error_char_ucs,
  error_char_ascii, simple_name, no_tables, zeros,
}

-- The two tables are inverse on the bytes that the charset maps, and a byte that it does not map
-- is given the replacement character. Every code point of the charset is below the table's size.
pub record IsTable (size : ℕ) (c u : ℕ → ℕ) : Type 0 where
  pub ascii_size : 128 ≤ size
  pub ascii : (b : ℕ) → b < 128 → (c b ≡ b) × (u b ≡ b)
  pub high :
      (b : ℕ)
      → 128 ≤ b
      → b < 256
      → (c b ≡ error_char_ucs)
        ⊎ ((128 ≤ c b) × (c b < error_char_ucs) × (c b < size) × (u (c b) ≡ b))

le-max_code : (ss : List ℕ) (m : ℕ) → m ≤ max_code m ss
unfolding max_code
le-max_code [] m = omega arith
le-max_code (s ∷ ss) m = ground (arith, le-max_code ss (if ltb m s then s else m))

entry-le-max_code : (ss : List ℕ) (m i : ℕ) → i < length ss → get_or ss i 0 ≤ max_code m ss
unfolding max_code
entry-le-max_code [] m i h = absurd (omega arith)
entry-le-max_code (s ∷ ss) m zero h = ground (arith, le-max_code ss (if ltb m s then s else m))
entry-le-max_code (s ∷ ss) m (suc i) h =
    entry-le-max_code ss (if ltb m s then s else m) i (omega arith)

high_cases :
    (size : ℕ) (c u : ℕ → ℕ) (b s : ℕ)
    → (s ≡ 0) ⊎ ((128 ≤ s) × (s < error_char_ucs))
    → s < size
    → Filled b s (c, u)
    → (c b ≡ error_char_ucs) ⊎ ((128 ≤ c b) × (c b < error_char_ucs) × (c b < size) × (u (c b) ≡ b))
high_cases size c u b s (inl z) fits f = inl (ground arith)
high_cases size c u b s (inr (lo, hi)) fits (at, back) =
    let same : c b ≡ s = ground arith in
    inr (omega arith, omega arith, omega arith, rw same (back (ground arith)))

module _ (size : ℕ) (ss : List ℕ) (fresh : ℕ → ℕ) where
  abbrev filled : (ℕ → ℕ) × (ℕ → ℕ)
  filled = fill_high ss 128 (fill_low 128 0 (fresh, λ _. error_char_ascii))

  fill-IsTable :
      good_entries ss ≡ true
      → length ss ≡ 128
      → 128 ≤ size
      → ((i : ℕ) → i < 128 → get_or ss i 0 < size)
      → IsTable size filled.0 filled.1
  fill-IsTable g n wide below =
      let low = fill_low 128 0 (fresh, λ _. error_char_ascii) in
      record {
        ascii_size = wide;
        ascii = λ b h.
            rw
              (
                fill_high_below b ss 128 low.0 low.1 h,
                fill_high_other b ss 128 low.0 low.1 g (inl h),
              )
              (ground (arith, fill_low_lem 128 0 fresh (λ _. error_char_ascii) b));
        high = λ b lo hi.
            let i = b - 128 in
            let at : 128 + i ≡ b = omega arith in
            let entry : Filled b (get_or ss i 0) filled =
              rw at at (fill_high_at ss 128 low.0 low.1 i g (omega arith)) in
            high_cases size filled.0 filled.1 b (get_or ss i 0) (entry_range ss i g)
              (below i (omega arith)) entry;
      }

abbrev pub IsReady : Tables → Type 0
IsReady t = (c : ℕ → ℕ) × (u : ℕ → ℕ) × (t.c2u ≡ some c) × (t.u2c ≡ some u) × IsTable t.u2c_size c u

zero_entries : (n i : ℕ) → get_or (zeros n) i 0 ≡ 0
unfolding zeros
zero_entries zero i = refl
zero_entries (suc n) zero = refl
zero_entries (suc n) (suc i) = zero_entries n i

build_of :
    (fresh : ℕ → ℕ) (name : Bytes) (o : Option (List ℕ))
    → good_nls (record { name = name; c2u = o }) ≡ true
    → IsReady (build fresh (record { name = name; c2u = o }))
unfolding build
build_of fresh name none g =
    let (n, ok) = good_nls_parts (record { name = name; c2u = none }) g in
    (
      _,
      _,
      refl,
      refl,
      fill-IsTable 128 (zeros 128) fresh ok n (omega arith)
          (λ i h. rw (zero_entries 128 i) (omega arith)),
    )
build_of fresh name (some ss) g =
    let (n, ok) = good_nls_parts (record { name = name; c2u = some ss }) g in
    (
      _,
      _,
      refl,
      refl,
      fill-IsTable (max_code 127 ss + 1) ss fresh ok n (omega (arith, le-max_code ss 127))
          (λ i h. omega (arith, n, entry-le-max_code ss 127 i)),
    )

-- `init_charset` reports a failure and leaves no tables, or it succeeds: for UTF-8 with no tables,
-- for any other charset with tables that are inverse to one another on all that the charset maps.
pub init_charset-IsReady :
    (fresh : ℕ → ℕ) (name : Bytes)
    → (init_charset fresh name ≡ (0, no_tables))
      ⊎ ((simple_name name ≡ codes "utf8") × (init_charset fresh name ≡ (1, no_tables)))
      ⊎ (((init_charset fresh name).0 ≡ 1) × IsReady (init_charset fresh name).1)
unfolding init_charset
init_charset-IsReady fresh name = elim (Bool-cases (bytes_eq (simple_name name) (codes "utf8"))) [
  | inl e ↦ inr (inl (bytes_eq_sound (simple_name name) (codes "utf8") e, rw e))
  | inr e ↦ elim (Option-cases (find_nls (simple_name name) nls_list)) [
    | inl missing ↦ inl (rw (e, missing, init_charset))
    | inr (nls, found) ↦
        let good = find_nls_good (simple_name name) nls_list nls nls_list_good found in
        let run : init_charset fresh name ≡ (1, build fresh nls) = rw (e, found, init_charset) in
        inr (inr (rw run (refl, build_of fresh nls.name nls.c2u good)))
  ]
]

pub init_charset-utf8 :
    (fresh : ℕ → ℕ) (name : Bytes)
    → bytes_eq (simple_name name) (codes "utf8") ≡ true
    → (init_charset fresh name).1 ≡ no_tables
unfolding init_charset
init_charset-utf8 fresh name h = rw (h, init_charset) refl

-- The empty name is no charset; `Charset_Finish` uses it to free the tables.
pub init_charset-nil : (fresh : ℕ → ℕ) → init_charset fresh [] ≡ (0, no_tables)
unfolding init_charset nls_list
init_charset-nil fresh = refl
