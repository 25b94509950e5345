-- ===== src/Encoding/Varint.antt =====
-- encoding/binary of the standard library, which is not part of the repository: what the writer and
-- the reader use of it, and what its documentation says.
use accumulate.Common.{ℕ, ◌^◌, ◌≤◌, ◌<◌, ◌≡◌, [], ◌∷◌, ◌++◌, length}
use accumulate.Common.Bytes.{Bytes}

-- How `ReadUvarint` ends: with a value, with io.EOF before the first byte, or with another error.
pub data VarintRead : Type 0 where
  value : ℕ → VarintRead
  end_of_input : VarintRead
  malformed : VarintRead

-- `PutUvarint` and `ReadUvarint`, and `PutVarint` and `ReadVarint` on the bit pattern of an int64.
-- Reading returns what is left of the input.
pub record Varint : Type 0 where
  pub put_uvarint : ℕ → Bytes
  pub read_uvarint : Bytes → VarintRead × Bytes
  pub put_varint : ℕ → Bytes
  pub read_varint : Bytes → VarintRead × Bytes

-- A 64-bit number is read back, and the rest of the input is left; below 128 it is one byte, and at
-- most MaxVarintLen64 bytes; an empty input is io.EOF.
pub record IsVarint (v : Varint) : Type 0 where
  pub read_uvarint-put_uvarint :
      (x : ℕ) (rest : Bytes)
      → x < 2 ^ 64
      → v.read_uvarint (v.put_uvarint x ++ rest) ≡ (VarintRead.value x, rest)
  pub read_varint-put_varint :
      (x : ℕ) (rest : Bytes)
      → x < 2 ^ 64
      → v.read_varint (v.put_varint x ++ rest) ≡ (VarintRead.value x, rest)
  pub put_uvarint-small : (x : ℕ) → x < 128 → v.put_uvarint x ≡ x ∷ []
  pub length-put_uvarint : (x : ℕ) → x < 2 ^ 64 → length (v.put_uvarint x) ≤ 10
  pub read_uvarint-empty : v.read_uvarint [] ≡ (VarintRead.end_of_input, [])
