-- ===== src/Encoding/Receipts.antt =====
-- smt/managed/types_gen.go: the binary form of receipts. The extra data behind the known fields is
-- not modelled, nor the numbers of the fields seen.
use Prim.Native.String.{String}
use accumulate.Common.{ℕ, zero, suc, List, [], ◌∷◌, Option, none, some, Bool, false}
use accumulate.Common.{◌==◌, if◌then◌else◌, length}
use accumulate.Common.Bytes.{Bytes}
use accumulate.Encoding.Varint.{Varint}
use accumulate.Encoding.Writer.{
  Writer, new_writer, bytes_of, write_bool, write_bytes, write_int, write_value, reset_writer,
}
use accumulate.Encoding.Reader.{Reader, new_reader, read_bool, read_bytes, read_int, read_value}
use accumulate.Merkle.Receipt.{Receipt, ReceiptEntry}

-- What `Reset` and the buffer give: the bytes, nil with an error.
unfoldable pub marshalled : Option String × Writer → Option Bytes × Option String
marshalled (none, w) = (some w.out, none)
marshalled (some e, w) = (none, some e)

-- `if x, ok := ...; ok { v.X = x }`, on a zero value.
abbrev pub or_zero {ℓ} : {A : Type ℓ} → A → Option A → A
or_zero z none = z
or_zero z (some x) = x

module _ (v : Varint) where
  -- `if !(len(b) == 0) { writer.WriteBytes(n, b) }`
  unfoldable pub write_bytes_field : Writer → ℕ → Option Bytes → Writer
  write_bytes_field w n b = if length (bytes_of b) == 0 then w else write_bytes v w n b

  unfoldable pub write_int_field : Writer → ℕ → ℕ → Writer
  write_int_field w n x = if x == 0 then w else write_int v w n x

  unfoldable pub write_bool_field : Writer → ℕ → Bool → Writer
  write_bool_field w n b = if b then write_bool v w n b else w

  -- `ReceiptEntry.MarshalBinary`
  unfoldable pub marshal_entry : ReceiptEntry → Option Bytes × Option String
  marshal_entry e =
      let w = write_bool_field new_writer 1 e.right in
      marshalled (reset_writer (write_bytes_field w 2 e.hash))

  unfoldable pub write_entries : Writer → List ReceiptEntry → Writer
  write_entries w [] = w
  write_entries w (e ∷ es) = write_entries (write_value v w 6 (marshal_entry e)) es

  -- `Receipt.MarshalBinary`
  unfoldable pub marshal_receipt : Receipt → Option Bytes × Option String
  marshal_receipt r =
      let w1 = write_bytes_field new_writer 1 r.start in
      let w2 = write_int_field w1 2 r.start_index in
      let w3 = write_bytes_field w2 3 r.end in
      let w4 = write_int_field w3 4 r.end_index in
      let w5 = write_bytes_field w4 5 r.anchor in
      marshalled (reset_writer (write_entries w5 r.entries))

  -- `ReceiptEntry.UnmarshalBinary` into a new entry; `none` is an error.
  unfoldable pub unmarshal_entry : Option Bytes → Option ReceiptEntry
  unmarshal_entry b =
      let (right, r1) = read_bool v (new_reader (bytes_of b)) 1 in
      let (hash, r2) = read_bytes v r1 2 in
      elim r2.error [
        | some e ↦ none
        | none ↦ some (record { right = or_zero false right; hash = or_zero none hash })
      ]

  -- The loop that reads the entries. A value that is read takes bytes from the input, so there
  -- are at most as many as the input has bytes.
  unfoldable pub read_entries : ℕ → Reader → List ReceiptEntry × Reader
  read_entries zero r = ([], r)
  read_entries (suc fuel) r =
      let (x, next) = read_value v r 6 unmarshal_entry in
      let (rest, last) = read_entries fuel next in
      elim x [ none ↦ ([], next) | some e ↦ (e ∷ rest, last) ]

  -- `Receipt.UnmarshalBinary` into a new receipt; `none` is an error.
  unfoldable pub unmarshal_receipt : Bytes → Option Receipt
  unmarshal_receipt b =
      let (start, r1) = read_bytes v (new_reader b) 1 in
      let (start_index, r2) = read_int v r1 2 in
      let (end, r3) = read_bytes v r2 3 in
      let (end_index, r4) = read_int v r3 4 in
      let (anchor, r5) = read_bytes v r4 5 in
      let (entries, r6) = read_entries (suc (length b)) r5 in
      elim r6.error [
        | some e ↦ none
        | none ↦ some (record {
          start = or_zero none start;
          start_index = or_zero 0 start_index;
          end = or_zero none end;
          end_index = or_zero 0 end_index;
          anchor = or_zero none anchor;
          entries = entries;
        })
      ]
