-- ===== src/FileBuffer/Remote.antt =====
-- Reads of a file over HTTP (djmount/file_buffer.c), for a server that delivers one document.
use djmount.FileBuffer.{Http}
use djmount.Base.{ℕ, ◌+◌, ◌-◌, ◌≤◌, ◌<◌, ◌≡◌, ◌++◌, []}
use djmount.Base.Lists.{Bytes, length, take, drop}
use djmount.Base.Int.{pos}

-- What RFC 2616 and libupnp's documentation say of a download that meets no error: the connection opened on a
-- range delivers the document's bytes of that range, in pieces, none of them longer than asked for, and an
-- empty piece only at the end.
pub record Serves (http : Http) (doc : Bytes) : Type 1 where
  pub rest : http.Handle → Bytes
  pub open_rc :
      (url : Bytes) (lo hi : ℕ) → lo ≤ hi → lo < length doc → (http.open_get url lo hi).0 ≡ pos 0
  pub open_rest :
      (url : Bytes) (lo hi : ℕ)
      → lo ≤ hi
      → lo < length doc
      → rest ((http.open_get url lo hi).1) ≡ take (hi + 1 - lo) (drop lo doc)
  pub read_rc : (h : http.Handle) (n : ℕ) → (http.read_get h n).0 ≡ pos 0
  pub read_rest :
      (h : http.Handle) (n : ℕ) → rest h ≡ (http.read_get h n).1 ++ rest ((http.read_get h n).2)
  pub read_bound : (h : http.Handle) (n : ℕ) → length ((http.read_get h n).1) ≤ n
  pub read_end :
      (h : http.Handle) (n : ℕ) → 0 < n → length ((http.read_get h n).1) ≡ 0 → rest h ≡ []
  pub close_rc : (h : http.Handle) → http.close_get h ≡ pos 0

module _ (http : Http) (doc : Bytes) (serves : Serves http doc) where
  open serves use {rest}

  -- What the loop delivers from a connection: the bytes read so far and those left in the range.
  whole : ℕ → Bytes → http.Handle → Bytes
  whole size got h = got ++ take (size - length got) (rest h)
