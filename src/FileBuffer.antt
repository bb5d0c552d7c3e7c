-- ===== src/FileBuffer.antt =====
-- djmount/file_buffer.c: the content of a file, from memory or over HTTP, on a 64-bit target:
-- `size_t` is unsigned and `off_t` and `ssize_t` are signed, of 64 bits. talloc is taken to succeed. The size of a
-- file is an `off_t`, so that it is below 2 ^ 63. `read` is `FileBuffer_Read` at an offset that is not negative, as that
-- of every read request is, and `read_at` at any offset.
pub mod Memory
pub mod Remote
pub mod Total
pub mod Tests
use djmount.Base.{
  ℕ, zero, suc, ◌+◌, ◌-◌, ◌%◌, ◌^◌, Bool, true, false, not, ◌&&◌, ◌||◌, List, [], ◌∷◌, ◌++◌, Option,
  none, some, min,
}
use djmount.Base.Lists.{Bytes, length, take, drop}
use djmount.Base.Tests.{ltb, leb, ◌==◌, if◌then◌else◌}
use djmount.Base.Int.{ℤ, pos, negsuc, neg, sub_ℕ}

-- <errno.h>
abbrev pub eio : ℕ
eio = 5

abbrev pub enomem : ℕ
enomem = 12

abbrev pub efault : ℕ
efault = 14

abbrev pub einval : ℕ
einval = 22

abbrev pub eoverflow : ℕ
eoverflow = 75

-- `size_t`
abbrev pub size_mod : ℕ
size_mod = 2 ^ 64

-- `FILE_BUFFER_MAX_CONTENT_LENGTH`
abbrev pub max_content_length : ℕ
max_content_length = 2 ^ 64 - 1

pub record FileBuffer : Type 0 where
  pub exact_read : Bool
  pub file_size : ℤ
  pub url : Option Bytes
  pub content : Option Bytes

-- `FileBuffer_CreateFromString`; how the bytes are allocated does not change them.
unfoldable pub create_from_string : Option Bytes → FileBuffer
create_from_string none = record {
  exact_read = true;
  file_size = pos 0;
  url = none;
  content = none;
}
create_from_string (some s) = record {
  exact_read = true;
  file_size = pos (length s);
  url = none;
  content = some s;
}

-- `file_size >= 0`
abbrev pub is_known : ℤ → Bool
is_known (pos n) = true
is_known (negsuc n) = false

-- `FileBuffer_CreateFromURL`
unfoldable pub create_from_url : Option Bytes → ℤ → FileBuffer
create_from_url url size = record {
  exact_read = is_known size;
  file_size = size;
  url = url;
  content = none;
}

-- `FileBuffer_GetSize`: `file && file->file_size` is 1 or 0.
pub get_size : Option FileBuffer → ℤ
get_size none = pos 0
get_size (some f) = elim (f.file_size) [
  | pos n ↦ if n == 0 then pos 0 else pos 1
  | negsuc n ↦ pos 1
]

-- `FileBuffer_HasExactRead`
pub has_exact_read : Option FileBuffer → Bool
has_exact_read none = false
has_exact_read (some f) = f.exact_read

-- What libupnp offers for HTTP downloads: a connection, its operations and its status codes.
pub record Http : Type 1 where
  pub Handle : Type 0
  -- `UpnpOpenHttpGetEx (url, …, lo, hi, …)`
  pub open_get : Bytes → ℕ → ℕ → ℤ × Handle
  -- `UpnpReadHttpGet (handle, buffer, &size, …)`: the status, the bytes read, the connection after.
  pub read_get : Handle → ℕ → ℤ × Bytes × Handle
  -- `UpnpCloseHttpGet (handle)`
  pub close_get : Handle → ℤ

-- UPNP_E_SUCCESS and UPNP_E_OUTOF_MEMORY
abbrev pub is_success : ℤ → Bool
is_success (pos n) = n == 0
is_success (negsuc n) = false

abbrev pub is_out_of_memory : ℤ → Bool
is_out_of_memory (pos n) = false
is_out_of_memory (negsuc n) = n == 103

-- The label HTTP_CHECK: the number of bytes, or the error for a status that is no success.
abbrev pub http_check : ℤ → ℕ → ℤ
http_check rc n =
    if is_success rc then pos n else if is_out_of_memory rc then neg enomem else neg eio

-- A read's result and what it wrote to the start of the buffer.
abbrev pub Reading : Type 0
Reading = ℤ × Bytes

-- `offset > file->file_size - size`, computed in `size_t`, then `size = MAX (0, …)`.
pub adjust : ℤ → ℕ → ℕ → ℕ
adjust (negsuc n) size offset = size
adjust (pos file_size) size offset =
    if ltb ((file_size + size_mod - size) % size_mod) offset
    then (if ltb file_size offset then 0 else file_size - offset)
    else size

module _ (http : Http) where
  open http use {Handle, open_get, read_get, close_get}

  -- The `do … while` loop, on fuel: `got` is what the buffer holds. The fuel's end is `none`.
  pub read_loop : ℕ → Bool → ℕ → Handle → Bytes → Option Reading
  read_loop zero exact size h got = none
  read_loop (suc fuel) exact size h got =
      let (rc, chunk, h') = read_get h (size - length got) in
      let all = got ++ chunk in
      let more = read_loop fuel exact size h' all in
      let done : Option Reading = some (http_check (close_get h') (length got), got) in
      let full : Option Reading = some (http_check (close_get h') (length all), all) in
      if not (is_success rc)
      then some (http_check rc (length got), got)
      else if length chunk == 0
      then done
      else if exact && ltb (length all) size
      then more
      else full

  -- The request for `size` bytes, and the loop. Every round but the last adds a byte, so `size` rounds and one are
  -- enough.
  pub fetch : FileBuffer → Bytes → ℕ → ℕ → Option Reading
  unfolding read_loop
  fetch f url size offset =
      let (rc, h) = open_get url offset ((offset + size + size_mod - 1) % size_mod) in
      if not (is_success rc)
      then some (http_check rc 0, [])
      else read_loop (size + 1) f.exact_read size h []

  -- The branch that reads from the URL.
  pub read_url : FileBuffer → Bytes → ℕ → ℕ → Option Reading
  unfolding fetch adjust
  read_url f url size offset =
      if ltb max_content_length offset
        || ltb ((max_content_length + size_mod - size) % size_mod) offset
      then some (neg eoverflow, [])
      else fetch f url (adjust f.file_size size offset) offset

  -- The branch that reads from memory, at an offset that is not negative.
  pub read_memory : FileBuffer → Bytes → ℕ → ℕ → Reading
  read_memory f content size offset = elim (f.file_size) [
    | negsuc n ↦ (pos 0, [])
    | pos file_size ↦
        if ltb 0 file_size && ltb offset file_size
        then (let n = if ltb size (file_size - offset) then size else file_size - offset in
            (pos n, take n (drop offset content)))
        else (pos 0, [])
  ]

  -- `FileBuffer_Read` at an offset that is not negative; the second argument tells whether `buffer` is not NULL.
  unfoldable pub read : Option FileBuffer → Bool → ℕ → ℕ → Option Reading
  unfolding read_memory read_url
  read none buffer size offset = some (neg einval, [])
  read (some f) false size offset = some (neg efault, [])
  read (some f) true size offset = elim (f.content) [
    | some content ↦ some (read_memory f content size offset)
    | none ↦ elim (f.url) [ some url ↦ read_url f url size offset | none ↦ some (pos 0, []) ]
  ]

-- What a call of `FileBuffer_Read` does: it returns, or it copies n bytes from before the content, which is undefined.
pub data Access : Type 0 where
  returns : Option Reading → Access
  before_content : ℕ → Access

-- `adjust` at the offset -(k + 1): in `size_t` the offset is size_mod - (k + 1), and file_size + k + 1 is an `off_t`.
pub adjust_before : ℤ → ℕ → ℕ → ℕ
adjust_before (negsuc n) size k = size
adjust_before (pos file_size) size k =
    if ltb ((file_size + size_mod - size) % size_mod) (size_mod - suc k)
    then (if ltb (file_size + suc k) (2 ^ 63) then file_size + suc k else 0)
    else size

-- The branch that reads from memory, at the offset -(k + 1): `n` is an `ssize_t`.
pub read_memory_before : FileBuffer → ℕ → ℕ → Access
read_memory_before f size k = elim (f.file_size) [
  | negsuc n ↦ returns (some (pos 0, []))
  | pos file_size ↦
      if ltb 0 file_size
      then (let n = if ltb size (file_size + suc k) then size else file_size + suc k in
          if n == 0
          then returns (some (pos 0, []))
          else if ltb n (2 ^ 63)
          then before_content n
          else returns (some (negsuc (size_mod - n - 1), [])))
      else returns (some (pos 0, []))
]

module _ (http : Http) where
  -- The branch that reads from the URL, at the offset -(k + 1).
  pub read_url_before : FileBuffer → Bytes → ℕ → ℕ → Option Reading
  unfolding fetch adjust_before
  read_url_before f url size k =
      let offset = size_mod - suc k in
      if ltb max_content_length offset
        || ltb ((max_content_length + size_mod - size) % size_mod) offset
      then some (neg eoverflow, [])
      else fetch http f url (adjust_before f.file_size size k) offset

  -- `FileBuffer_Read`
  unfoldable pub read_at : Option FileBuffer → Bool → ℕ → ℤ → Access
  unfolding read read_memory_before read_url_before
  read_at f buffer size (pos offset) = returns (read http f buffer size offset)
  read_at none buffer size (negsuc k) = returns (some (neg einval, []))
  read_at (some f) false size (negsuc k) = returns (some (neg efault, []))
  read_at (some f) true size (negsuc k) = elim (f.content) [
    | some content ↦ read_memory_before f size k
    | none ↦ elim (f.url) [
      | some url ↦ returns (read_url_before f url size k)
      | none ↦ returns (some (pos 0, []))
    ]
  ]
