-- ===== src/FileBuffer/Total.antt =====
-- Every read of djmount/file_buffer.c comes to an end, whatever the server does.
use djmount.FileBuffer.{
  FileBuffer, Http, Reading, read, read_loop, read_url, read_memory, adjust, size_mod, fetch,
  Access, returns, before_content, adjust_before, read_url_before, read_memory_before, read_at,
  is_known,
}
use djmount.Base.{
  ℕ, zero, suc, ◌+◌, ◌-◌, ◌%◌, ◌≤◌, ◌<◌, ◌^◌, Bool, true, false, ◌||◌, ◌&&◌, ◌≡◌, refl, Option,
  none, some, ◌++◌, [], arith, ◌⊎◌, inl, inr,
}
use djmount.FileBuffer.{is_success, max_content_length}
use djmount.Base.Lists.{Bytes, length, drop, length-append, length-take}
use djmount.Base.Int.{ℤ, ℤ-cases, pos_part, neg_part, pos, negsuc}
use djmount.Base.Tests.{ltb, if◌then◌else◌, Bool-cases, Option-cases, ◌==◌}

-- There is a result, and the bytes written to the buffer fit `size`.
abbrev pub Fits : ℕ → Option Reading → Type 0
Fits size o = (r : Reading) × (o ≡ some r) × (length (r.1) ≤ size)

-- `UpnpReadHttpGet` writes no more bytes than it is asked for.
abbrev pub IsBounded : Http → Type 0
IsBounded http = (h : http.Handle) (n : ℕ) → length ((http.read_get h n).1) ≤ n

module _ (http : Http) (bounded : IsBounded http) where
  read_loop-Fits :
      (fuel size : ℕ) (exact : Bool) (h : http.Handle) (got : Bytes)
      → length got ≤ size
      → size - length got < fuel
      → Fits size (read_loop http fuel exact size h got)
  unfolding read_loop
  read_loop-Fits zero size exact h got le lt = absurd (omega arith)
  read_loop-Fits (suc fuel) size exact h got le lt =
      let n = size - length got in
      let chunk = (http.read_get h n).1 in
      let h' = (http.read_get h n).2 in
      let bound : length chunk ≤ n = bounded h n in
      let sum = length-append got chunk in
      elim (Bool-cases (is_success ((http.read_get h n).0))) [
        | inr e ↦ rw (e) (_, refl, le)
        | inl rc ↦ elim (Bool-cases (length chunk == 0)) [
          | inl e ↦ rw (rc, e) (_, refl, le)
          | inr e ↦ elim (Bool-cases (exact && ltb (length (got ++ chunk)) size)) [
            | inl lt' ↦
                rw (rc, e, lt')
                  (read_loop-Fits fuel size exact h' (got ++ chunk) (ground arith) (ground arith))
            | inr ge ↦ rw (rc, e, ge) (_, refl, omega (arith, sum, bound))
          ]
        ]
      ]

adjust_le :
    (file_size : ℤ) (size offset : ℕ)
    → size < 2 ^ 64
    → pos_part file_size < 2 ^ 63
    → adjust file_size size offset ≤ size
unfolding adjust
adjust_le (negsuc n) size offset h fits = omega arith
adjust_le (pos n) size offset h fits = elim (Bool-cases (ltb n size)) [
  | inl e ↦ ground arith
  | inr e ↦ ground arith
]

module _ (http : Http) (bounded : IsBounded http) where
  open http use {open_get}

  fetch-Fits :
      (f : FileBuffer) (url : Bytes) (size offset : ℕ) → Fits size (fetch http f url size offset)
  unfolding fetch
  fetch-Fits f url size offset =
      let opened = open_get url offset ((offset + size + size_mod - 1) % size_mod) in
      elim (Bool-cases (is_success (opened.0))) [
        | inl rc ↦ rw rc (
            read_loop-Fits http bounded (size + 1) size f.exact_read (opened.1) [] (omega arith)
              (omega arith))
        | inr rc ↦ rw rc (_, refl, omega arith)
      ]

  read_url-Fits :
      (f : FileBuffer) (url : Bytes) (size offset : ℕ)
      → size < 2 ^ 64
      → pos_part f.file_size < 2 ^ 63
      → Fits size (read_url http f url size offset)
  unfolding read_url
  read_url-Fits f url size offset h fits =
      let n = adjust f.file_size size offset in
      let le : n ≤ size = adjust_le f.file_size size offset h fits in
      let got = fetch-Fits f url n offset in
      elim (Bool-cases (
        ltb max_content_length offset
        || ltb ((max_content_length + size_mod - size) % size_mod) offset)) [
          | inl e ↦ rw (e) (_, refl, omega arith)
          | inr e ↦ rw (e) (got.0, got.1, omega (arith, got.2, le))
        ]

  read_memory-Fits :
      (f : FileBuffer) (s : Bytes) (size offset : ℕ)
      → Fits size (some (read_memory http f s size offset))
  unfolding read_memory
  read_memory-Fits f s size offset = elim (ℤ-cases f.file_size) [
    | inr e ↦ rw (e.1) (_, refl, omega arith)
    | inl p ↦ elim (Bool-cases (ltb 0 (p.0) && ltb offset (p.0))) [
      | inr e ↦ rw (p.1, e) (_, refl, omega arith)
      | inl e ↦ elim (Bool-cases (ltb size (p.0 - offset))) [
        | inl e' ↦ rw (p.1, e, e') (_, refl, omega (arith, length-take size (drop offset s)))
        | inr e' ↦
            let block = length-take (p.0 - offset) (drop offset s) in
            rw (p.1, e, e') (_, refl, ground (arith, block))
      ]
    ]
  ]

-- What an `off_t` holds.
abbrev pub IsSized : Option FileBuffer → Type 0
IsSized none = Unit
IsSized (some f) = pos_part f.file_size < 2 ^ 63

-- At an offset that is not negative there is a result that fits `size`.
read-Fits :
    (http : Http)
    → IsBounded http
    → (f : Option FileBuffer) (buffer : Bool) (size offset : ℕ) → size < 2 ^ 64
    → IsSized f
    → Fits size (read http f buffer size offset)
unfolding read
read-Fits http bounded none buffer size offset h fits = (_, refl, omega arith)
read-Fits http bounded (some f) false size offset h fits = (_, refl, omega arith)
read-Fits http bounded (some f) true size offset h fits = elim (Option-cases f.content) [
  | inr c ↦ rw (c.1) (read_memory-Fits http bounded f (c.0) size offset)
  | inl e ↦ elim (Option-cases f.url) [
    | inl e' ↦ rw (e, e') (_, refl, omega arith)
    | inr u ↦ rw (e, u.1) (read_url-Fits http bounded f (u.0) size offset h fits)
  ]
]

reached_overflows :
    (size k : ℕ)
    → size < 2 ^ 64
    → k < size
    → ltb ((max_content_length + size_mod - size) % size_mod) (size_mod - suc k) ≡ true
reached_overflows size k h reached = ground arith

adjust_before_unknown :
    (file_size : ℤ) (size k : ℕ)
    → is_known file_size ≡ false
    → adjust_before file_size size k ≡ size
unfolding adjust_before
adjust_before_unknown (pos n) size k e = cc e
adjust_before_unknown (negsuc n) size k e = refl

read_memory_before-cases :
    (f : FileBuffer) (size k : ℕ)
    → ((r : Reading) × (read_memory_before f size k ≡ returns (some r)) × (length (r.1) ≤ size))
      ⊎ ((n : ℕ) × (0 < n) × (read_memory_before f size k ≡ before_content n))
unfolding read_memory_before
read_memory_before-cases f size k = elim (ℤ-cases f.file_size) [
  | inr e ↦ rw (e.1) (inl (_, refl, omega arith))
  | inl p ↦
      let n = if ltb size (p.0 + suc k) then size else p.0 + suc k in
      elim (Bool-cases (ltb 0 (p.0))) [
        | inr e ↦ rw (p.1, e) (inl (_, refl, omega arith))
        | inl e ↦ elim (Bool-cases (n == 0)) [
          | inl e' ↦ rw (p.1, e, e') (inl (_, refl, omega arith))
          | inr e' ↦ elim (Bool-cases (ltb n (2 ^ 63))) [
            | inl e'' ↦ rw (p.1, e, e', e'') (inr (n, ground arith, refl))
            | inr e'' ↦ rw (p.1, e, e', e'') (inl (_, refl, omega arith))
          ]
        ]
      ]
]

-- A result fits `size`, if a condition holds.
abbrev pub FitsIf : Type 0 → ℕ → Option Reading → Type 0
FitsIf C size o = (r : Reading) × (o ≡ some r) × (C → length (r.1) ≤ size)

module _ (http : Http) (bounded : IsBounded http) where
  read_url_before-FitsIf :
      (f : FileBuffer) (url : Bytes) (size k : ℕ)
      → size < 2 ^ 64
      → FitsIf
          ((k < size) ⊎ (is_known f.file_size ≡ false))
          size
          (read_url_before http f url size k)
  unfolding read_url_before adjust_before
  read_url_before-FitsIf f url size k h =
      let offset = size_mod - suc k in
      let n = adjust_before f.file_size size k in
      let got = fetch-Fits http bounded f url n offset in
      elim (Bool-cases (
        ltb max_content_length offset
        || ltb ((max_content_length + size_mod - size) % size_mod) offset)) [
          | inl e ↦ rw (e) (_, refl, λ c. omega arith)
          | inr e ↦ rw (e) (
            got.0,
            got.1,
            λ c. elim c [
              | inl reached ↦
                  (let high = reached_overflows size k h reached in absurd (ground arith))
              | inr unknown ↦
                  (let same = adjust_before_unknown f.file_size size k unknown in
                    omega (arith, got.2, same))
            ],
          )
        ]

-- The offset is not negative, or `size` reaches over it to the start of the file, or the file's size is not known or its
-- content is in memory.
abbrev pub Reaches : Option FileBuffer → ℕ → ℤ → Type 0
Reaches f size (pos offset) = Unit
Reaches none size (negsuc k) = Unit
Reaches (some f) size (negsuc k) =
    (k < size) ⊎ (is_known f.file_size ≡ false) ⊎ ((s : Bytes) × (f.content ≡ some s))

-- The code copies n bytes from before the content of a file in memory.
abbrev pub CopiesBefore : Option FileBuffer → ℤ → Access → Type 0
CopiesBefore none offset a = ⊥
CopiesBefore (some f) offset a =
    (s : Bytes) × (f.content ≡ some s)
    × ((n : ℕ) × (0 < n) × (0 < neg_part offset) × (a ≡ before_content n))

-- Every call of FileBuffer_Read comes to an end, with any file, server, size and offset that the machine's types
-- hold; of the server it is assumed that no piece it delivers is longer than asked for. It returns, or, at a
-- negative offset of a file in memory alone, it copies bytes from before the content. What it writes where it
-- returns is no longer than `size` bytes, but for a read over HTTP of a file of known size, at a negative offset
-- that the size does not reach over.
pub read_at-Fits :
    (http : Http)
    → IsBounded http
    → (f : Option FileBuffer) (buffer : Bool) (size : ℕ) (offset : ℤ) → size < 2 ^ 64
    → IsSized f
    → ((o : Option Reading) × (read_at http f buffer size offset ≡ returns o)
        × FitsIf (Reaches f size offset) size o)
      ⊎ CopiesBefore f offset (read_at http f buffer size offset)
unfolding read_at
read_at-Fits http bounded f buffer size (pos offset) h fits =
    let got = read-Fits http bounded f buffer size offset h fits in
    inl (_, refl, (got.0, got.1, λ c. got.2))
read_at-Fits http bounded none buffer size (negsuc k) h fits =
    inl (_, refl, (_, refl, λ c. omega arith))
read_at-Fits http bounded (some f) false size (negsuc k) h fits =
    inl (_, refl, (_, refl, λ c. omega arith))
read_at-Fits http bounded (some f) true size (negsuc k) h fits = elim (Option-cases f.content) [
  | inr c ↦ elim (read_memory_before-cases f size k) [
    | inl (r, e, le) ↦ rw (c.1) (inl (_, e, (r, refl, λ reach. le)))
    | inr (n, some_bytes, e) ↦ inr (c.0, c.1, (n, some_bytes, omega arith, rw (c.1) e))
  ]
  | inl missing ↦ elim (Option-cases f.url) [
    | inl missing' ↦ rw (missing, missing') (inl (_, refl, (_, refl, λ c. omega arith)))
    | inr u ↦
        let got = read_url_before-FitsIf http bounded f (u.0) size k h in
        rw (missing, u.1)
          (inl (
            _,
            refl,
            (
              got.0,
              got.1,
              λ reach. elim reach [
                | inl reached ↦ got.2 (inl reached)
                | inr (inl unknown) ↦ got.2 (inr unknown)
                | inr (inr (s, there)) ↦ (let both : none ≡ some s = there in cc)
              ],
            ),
          ))
  ]
]
