-- ===== src/Encoding/Writer.antt =====
-- internal/encoding/writer.go, on a buffer in memory, whose `Write` never fails.
use Prim.Native.String.{String}
use accumulate.Common.{ℕ, ◌+◌, ◌^◌, [], ◌∷◌, ◌++◌, Option, none, some}
use accumulate.Common.{Bool, ◌||◌, ◌==◌, ltb, if◌then◌else◌, length}
use accumulate.Common.Bytes.{Bytes}
use accumulate.Encoding.Varint.{Varint}

-- `out` is what the buffer holds.
pub record Writer : Type 0 where
  pub out : Bytes
  pub error : Option String
  pub last : ℕ
  pub written : ℕ

abbrev pub new_writer : Writer
new_writer = record { out = []; error = none; last = 0; written = 0 }

abbrev pub max_value_size : ℕ
max_value_size = 2 ^ 20

abbrev pub empty_object : ℕ
empty_object = 128

-- The bytes of a slice that may be nil.
abbrev pub bytes_of : Option Bytes → Bytes
bytes_of none = []
bytes_of (some b) = b

-- A write to the buffer and the `didWrite` after it.
unfoldable pub emit : Writer → ℕ → Bytes → Writer
emit w field b = record w { out = w.out ++ b; last = field; written = w.written + length b }

-- `didWrite` with an error, which writes nothing.
unfoldable pub did_fail : Writer → ℕ → String → Writer
did_fail w field e = record w { last = field; error = some e }

-- `if w.err != nil { return }`
unfoldable pub unless_failed : Writer → Writer → Writer
unless_failed w next = elim w.error [ none ↦ next | some e ↦ w ]

unfoldable pub write_raw : Writer → ℕ → Bytes → Writer
write_raw w field b = unless_failed w (
    if ltb max_value_size (length b)
    then did_fail w field "failed to write field: too large"
    else emit w field b)

unfoldable pub did_marshal : Writer → ℕ → Option String → Writer
did_marshal w field none = w
did_marshal w field (some e) = unless_failed w (did_fail w field "failed to marshal field")

-- `Reset`: an object without fields is a byte of its own. The field's name in the error is not
-- modelled.
unfoldable pub reset_writer : Writer → Option String × Writer
reset_writer w =
    let done = if w.written == 0 then emit w 0 (empty_object ∷ []) else w in
    (done.error, record done { error = none; last = 0; written = 0 })

module _ (v : Varint) where
  unfoldable pub write_uint_part : Writer → ℕ → ℕ → Writer
  write_uint_part w field x = unless_failed w (emit w field (v.put_uvarint x))

  unfoldable pub write_int_part : Writer → ℕ → ℕ → Writer
  write_int_part w field x = unless_failed w (emit w field (v.put_varint x))

  unfoldable pub write_field : Writer → ℕ → Writer
  write_field w field = unless_failed w (
      if ltb field 1 || ltb 32 field
      then did_fail w field "field number is invalid"
      else emit w field (v.put_uvarint field))

  unfoldable pub write_hash : Writer → ℕ → Bytes → Writer
  write_hash w n b = write_raw (write_field w n) n b

  unfoldable pub write_int : Writer → ℕ → ℕ → Writer
  write_int w n x = write_int_part (write_field w n) n x

  unfoldable pub write_uint : Writer → ℕ → ℕ → Writer
  write_uint w n x = write_uint_part (write_field w n) n x

  unfoldable pub write_bool : Writer → ℕ → Bool → Writer
  write_bool w n b = write_uint_part (write_field w n) n (if b then 1 else 0)

  -- `WriteBytes`, and `WriteString` of the string's bytes.
  unfoldable pub write_bytes : Writer → ℕ → Option Bytes → Writer
  write_bytes w n b =
      write_raw (write_uint_part (write_field w n) n (length (bytes_of b))) n (bytes_of b)

  -- `WriteValue` of what `marshal` returned: the bytes and the error.
  unfoldable pub write_value : Writer → ℕ → Option Bytes × Option String → Writer
  write_value w n (b, e) = write_bytes (did_marshal w n e) n b
