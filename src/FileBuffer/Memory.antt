-- ===== src/FileBuffer/Memory.antt =====
-- Reads of a file whose content is in memory (djmount/file_buffer.c).
use djmount.FileBuffer.{FileBuffer, Http, Reading, create_from_string, read, read_memory}
use djmount.Base.{
  ℕ, zero, suc, ◌+◌, ◌-◌, ◌*◌, ◌≤◌, min, true, ◌≡◌, Option, none, some, ◌++◌, [], arith, ap, sym,
  inl, inr,
}
use djmount.Base.Lists.{
  Bytes, length, take, drop, length-drop, take-all, drop-all, take-append-drop, take-nil, drop-drop,
}
use djmount.Base.Int.{pos}
use djmount.Base.Tests.{ltb, Bool-cases}

read_memory_lem :
    (http : Http) (s : Bytes) (size offset : ℕ)
    → read_memory http (create_from_string (some s)) s size offset
      ≡ (pos (min size (length s - offset)), take size (drop offset s))
unfolding create_from_string read_memory
read_memory_lem http s size offset =
    let left : length (drop offset s) ≡ length s - offset = length-drop offset s in
    elim (Bool-cases (ltb offset (length s))) [
      | inl h ↦ elim (Bool-cases (ltb size (length s - offset))) [
        | inl h' ↦ ground (arith)
        | inr h' ↦
            (let all : take size (drop offset s) ≡ drop offset s =
                take-all size (drop offset s) (ground arith) in
              let all' : take (length s - offset) (drop offset s) ≡ drop offset s =
                take-all (length s - offset) (drop offset s) (ground arith) in
              ground (arith))
      ]
      | inr h ↦
          (let nothing : drop offset s ≡ [] = drop-all offset s (ground arith) in
            let none_left = take-nil {A = ℕ} size in ground (arith))
    ]

-- A file created from a text and read at any offset that is not negative delivers the bytes of the text from there, as many as asked
-- for or as the text has left, and their number; nothing past its end.
pub read-create_from_string :
    (http : Http) (s : Bytes) (size offset : ℕ)
    → read http (some (create_from_string (some s))) true size offset
      ≡ some (pos (min size (length s - offset)), take size (drop offset s))
unfolding create_from_string read
read-create_from_string http s size offset = ap some (read_memory_lem http s size offset)

abbrev delivered : Option Reading → Bytes
delivered none = []
delivered (some r) = r.1

-- What `rounds` reads of `size` bytes deliver together, each made where the one before has ended.
pub read_rounds : Http → FileBuffer → ℕ → ℕ → ℕ → Bytes
read_rounds http f size zero offset = []
read_rounds http f size (suc rounds) offset =
    delivered (read http (some f) true size offset)
    ++ read_rounds http f size rounds (offset + size)

-- Reading a text in consecutive blocks of one size gives the text back, from the first offset on, when the blocks
-- reach its end.
pub read_rounds-whole :
    (http : Http) (s : Bytes) (size rounds offset : ℕ)
    → length s ≤ offset + rounds * size
    → read_rounds http (create_from_string (some s)) size rounds offset ≡ drop offset s
unfolding read_rounds
read_rounds-whole http s size zero offset h = sym (drop-all offset s (omega arith))
read_rounds-whole http s size (suc rounds) offset h =
    let rest = read_rounds-whole http s size rounds (offset + size) (omega arith) in
    rw (ap delivered (read-create_from_string http s size offset), rest, ← drop-drop offset size s)
      (take-append-drop size (drop offset s))
