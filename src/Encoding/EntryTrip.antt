-- ===== src/Encoding/EntryTrip.antt =====
-- The entries of a receipt in its binary form, written and read back.
use accumulate.Common.{
  ℕ, zero, suc, ◌+◌, ◌<◌, ◌≡◌, inl, inr, refl, List, [], ◌∷◌, ◌++◌, Option, none, some, Bool, true,
  false, ◌==◌, length, All, arith, length-append, Bool-cases,
}
use accumulate.Common.Bytes.{Bytes}
use mathlib.Core.List.{append_assoc, append-nil}
use accumulate.Merkle.Receipt.{ReceiptEntry}
use accumulate.Encoding.Varint.{Varint, IsVarint}
use accumulate.Encoding.Writer.{
  Writer, bytes_of, max_value_size, new_writer, did_marshal, write_value,
}
use accumulate.Encoding.Reader.{Reader, new_reader}
use accumulate.Encoding.Fields.{
  Field, field, IsNumber, encode, bytes_payload, bytes_field, int_field, bool_field,
}
use accumulate.Encoding.Written.{
  object, Wrote, new_writer-Wrote, write_bytes_field-Wrote, write_bool_field-Wrote,
  write_bytes-Wrote, reset_writer-Wrote,
}
use accumulate.Encoding.Receipts.{marshal_entry, unmarshal_entry, read_entries, write_entries}
use accumulate.Encoding.Reading.{Place, At}
use accumulate.Encoding.RoundTrip.{
  IsSlice, AreAfter, read_bytes-bytes_field, read_bool-bool_field, read_value-present,
  read_value-end,
}

-- An entry whose binary form is small enough to be a field.
abbrev pub IsEntry : ReceiptEntry → Type 0
IsEntry e = IsSlice e.hash × (length (bytes_of e.hash) + 13 < max_value_size)

module _ (v : Varint) (is : IsVarint v) where
  unfoldable pub entry_fields : ReceiptEntry → List Field
  entry_fields e = bool_field v 1 e.right ++ bytes_field v 2 e.hash

  unfoldable pub entries_fields : List ReceiptEntry → List Field
  entries_fields [] = []
  entries_fields (e ∷ es) =
      field 6 (bytes_payload v (some (object (entry_fields e)))) ∷ entries_fields es

  -- Fields with the number `n` only.
  abbrev pub OnlyNumber : ℕ → List Field → Type 0
  OnlyNumber n fs = All (λ f. f.number ≡ n) fs

  pub OnlyNumber-bytes_field : (n : ℕ) (b : Option Bytes) → OnlyNumber n (bytes_field v n b)
  unfolding bytes_field
  OnlyNumber-bytes_field n b = elim (Bool-cases (length (bytes_of b) == 0)) [
    | inl t ↦ rw t tt
    | inr f ↦ rw f (refl, tt)
  ]

  pub OnlyNumber-int_field : (n x : ℕ) → OnlyNumber n (int_field v n x)
  unfolding int_field
  OnlyNumber-int_field n x = elim (Bool-cases (x == 0)) [
    | inl t ↦ rw t tt
    | inr f ↦ rw f (refl, tt)
  ]

  pub OnlyNumber-bool_field : (n : ℕ) (b : Bool) → OnlyNumber n (bool_field v n b)
  unfolding bool_field
  OnlyNumber-bool_field n true = (refl, tt)
  OnlyNumber-bool_field n false = tt

  pub OnlyNumber-entries_fields : (es : List ReceiptEntry) → OnlyNumber 6 (entries_fields es)
  unfolding entries_fields
  OnlyNumber-entries_fields [] = tt
  OnlyNumber-entries_fields (e ∷ es) = (refl, OnlyNumber-entries_fields es)

  -- Fields are after a number, and have valid numbers, where the first of them does and the rest does.
  pub AreAfter-append :
      (m n : ℕ) (fs gs : List Field)
      → OnlyNumber n fs
      → m < n
      → AreAfter m gs
      → AreAfter m (fs ++ gs)
  AreAfter-append m n [] gs h lt after = after
  AreAfter-append m n (f ∷ fs) gs h lt after =
      (omega (arith, h.0), AreAfter-append m n fs gs h.1 lt after)

  pub numbers-append :
      (n : ℕ) (fs gs : List Field)
      → OnlyNumber n fs
      → IsNumber n
      → All (λ f. IsNumber f.number) gs
      → All (λ f. IsNumber f.number) (fs ++ gs)
  numbers-append n [] gs h number rest = rest
  numbers-append n (f ∷ fs) gs h number rest = (
    (omega (arith, h.0, number.0), omega (arith, h.0, number.1)),
    numbers-append n fs gs h.1 number rest,
  )

  -- A reader of an object stands before its fields.
  pub At-new_reader :
      (fs : List Field) → All (λ f. IsNumber f.number) fs → At (new_reader (object fs)) fs
  unfolding object
  At-new_reader [] h = record {
    ok = refl;
    numbers = h;
    place = Place.before_empty refl refl refl refl;
  }
  At-new_reader (f ∷ fs) h = record { ok = refl; numbers = h; place = Place.before refl refl }

  pub marshal_entry-object :
      (e : ReceiptEntry) → IsEntry e → marshal_entry v e ≡ (some (object (entry_fields e)), none)
  unfolding marshal_entry entry_fields
  marshal_entry-object e (slice, small) =
      let w1 =
        write_bool_field-Wrote v is new_writer [] 1 e.right new_writer-Wrote
          (omega arith, omega arith) in
      reset_writer-Wrote v is _ _ (
        write_bytes_field-Wrote v is _ _ 2 e.hash w1 (omega arith, omega arith)
          (omega (arith, small)))

  pub unmarshal_entry-object :
      (e : ReceiptEntry) → IsEntry e → unmarshal_entry v (some (object (entry_fields e))) ≡ some e
  unfolding unmarshal_entry
  unmarshal_entry-object e (slice, small) =
      let hash_field = bytes_field v 2 e.hash in
      let two : bytes_field v 2 e.hash ++ [] ≡ hash_field = append-nil hash_field in
      let after : AreAfter 1 (hash_field ++ []) =
        AreAfter-append 1 2 hash_field [] (OnlyNumber-bytes_field 2 e.hash) (omega arith) tt in
      let numbers : All (λ f. IsNumber f.number) (entry_fields e) =
        unfold entry_fields in
        numbers-append 1 (bool_field v 1 e.right) hash_field (OnlyNumber-bool_field 1 e.right)
          (omega arith, omega arith)
          (rw two at (
            numbers-append 2 hash_field [] (OnlyNumber-bytes_field 2 e.hash)
              (omega arith, omega arith) tt)) in
      let start = new_reader (object (entry_fields e)) in
      let (y, r1, reads1, same1, at1) =
        read_bool-bool_field v is start 1 e.right hash_field (omega arith, omega arith)
          (rw two at after) (unfold entry_fields in At-new_reader (entry_fields e) numbers) in
      let (z, r2, reads2, same2, at2) =
        read_bytes-bytes_field v is r1 2 e.hash [] (omega arith, omega arith) slice tt
          (rw two at1) in
      rw (unmarshal_entry, reads1, reads2, at2.ok, reads1, reads2, same1, same2) refl

  -- An entry's form is small enough to be read back as a field.
  pub object-IsSlice : (e : ReceiptEntry) → IsEntry e → IsSlice (some (object (entry_fields e)))
  unfolding object entry_fields encode bool_field bytes_field bytes_payload
  object-IsSlice e (slice, small) =
      let b = bytes_of e.hash in
      let n = v.put_uvarint (length b) in
      let short = is.length-put_uvarint (length b) (omega (arith, small)) in
      let size = length-append (n ++ b) [] in
      let size2 = length-append n b in
      elim (Bool-cases (length b == 0)) [
        | inl t ↦ elim (Bool-cases e.right) [
          | inl r ↦ rw (t, r) (λ q. absurd cc, omega arith)
          | inr r ↦ rw (t, r) (λ q. absurd cc, omega arith)
        ]
        | inr f ↦ elim (Bool-cases e.right) [
          | inl r ↦ rw (f, r) (λ q. absurd cc, omega (arith, short, size, size2, small))
          | inr r ↦ rw (f, r) (λ q. absurd cc, omega (arith, short, size, size2, small))
        ]
      ]

  pub write_entries-Wrote :
      (w : Writer) (fs : List Field) (es : List ReceiptEntry)
      → Wrote w fs
      → All IsEntry es
      → Wrote (write_entries v w es) (fs ++ entries_fields es)
  unfolding write_entries entries_fields write_value did_marshal
  write_entries-Wrote w fs [] h good = rw append-nil h
  write_entries-Wrote w fs (e ∷ es) h good =
      let slice = object-IsSlice e good.0 in
      let next =
        write_bytes-Wrote v is w fs 6 (some (object (entry_fields e))) h (omega arith, omega arith)
          (omega (arith, slice.1)) in
      rw (marshal_entry-object e good.0) (
        rw append_assoc at (
          write_entries-Wrote (write_value v w 6 (some (object (entry_fields e)), none)) _ es next
            good.1))

  pub read_entries-entries_fields :
      (fuel : ℕ) (r : Reader) (es : List ReceiptEntry)
      → length es < fuel
      → All IsEntry es
      → At r (entries_fields es)
      → (next : Reader) × (read_entries v fuel r ≡ (es, next)) × At next []
  unfolding read_entries entries_fields
  read_entries-entries_fields zero r es more good at = absurd (omega arith)
  read_entries-entries_fields (suc fuel) r [] more good at =
      let (next, ends, h) =
        read_value-end v is r 6 (unmarshal_entry v) (omega arith, omega arith) at in
      (next, rw (read_entries, ends, ends) refl, h)
  read_entries-entries_fields (suc fuel) r (e ∷ es) more good at =
      let (r1, reads, at1) =
        read_value-present v is r 6 (some (object (entry_fields e))) (entries_fields es)
          (unmarshal_entry v) e (object-IsSlice e good.0) (unmarshal_entry-object e good.0) at in
      let (next, rest, h) = read_entries-entries_fields fuel r1 es (omega arith) good.1 at1 in
      (next, rw (read_entries, reads, reads, rest) refl, h)
