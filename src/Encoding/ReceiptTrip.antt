-- ===== src/Encoding/ReceiptTrip.antt =====
-- Receipts are read back from their binary form.
use accumulate.Common.{
  ℕ, suc, ◌^◌, ◌≤◌, ◌<◌, ◌≡◌, refl, ap, ◌∙◌, List, [], ◌∷◌, ◌++◌, Option, none, some, length, All,
  arith, length-append,
}
use accumulate.Common.Bytes.{Bytes}
use mathlib.Core.List.{append_assoc, append-nil}
use accumulate.Merkle.Receipt.{Receipt, ReceiptEntry}
use accumulate.Encoding.Varint.{Varint, IsVarint}
use accumulate.Encoding.Writer.{new_writer}
use accumulate.Encoding.Reader.{Reader, new_reader, read_bytes, read_int}
use accumulate.Encoding.Fields.{
  Field, IsNumber, encode, encode-append, bytes_payload, bytes_field, int_field,
}
use accumulate.Encoding.Written.{
  object, new_writer-Wrote, write_bytes_field-Wrote, write_int_field-Wrote, reset_writer-Wrote,
}
use accumulate.Encoding.Receipts.{or_zero, marshal_receipt, unmarshal_receipt, read_entries}
use accumulate.Encoding.RoundTrip.{IsSlice, AreAfter, read_bytes-bytes_field, read_int-int_field}
use accumulate.Encoding.EntryTrip.{
  IsEntry, entry_fields, entries_fields, OnlyNumber-bytes_field, OnlyNumber-int_field,
  OnlyNumber-entries_fields, AreAfter-append, numbers-append, At-new_reader, write_entries-Wrote,
  read_entries-entries_fields,
}

-- A receipt whose parts can be written.
pub record IsReceipt (r : Receipt) : Type 0 where
  pub start_ok : IsSlice r.start
  pub start_index_ok : r.start_index < 2 ^ 64
  pub end_ok : IsSlice r.end
  pub end_index_ok : r.end_index < 2 ^ 64
  pub anchor_ok : IsSlice r.anchor
  pub entries_ok : All IsEntry r.entries

module _ (v : Varint) (is : IsVarint v) where
  unfoldable receipt_fields : Receipt → List Field
  receipt_fields r =
      bytes_field v 1 r.start
      ++ (int_field v 2 r.start_index
          ++ (bytes_field v 3 r.end
              ++ (int_field v 4 r.end_index
                  ++ (bytes_field v 5 r.anchor ++ entries_fields v is r.entries))))

  marshal_receipt-object :
      (r : Receipt) → IsReceipt r → marshal_receipt v r ≡ (some (object (receipt_fields r)), none)
  unfolding marshal_receipt receipt_fields
  marshal_receipt-object r h =
      let w1 =
        write_bytes_field-Wrote v is new_writer [] 1 r.start new_writer-Wrote
          (omega arith, omega arith) (omega (arith, h.start_ok.1)) in
      let w2 = write_int_field-Wrote v is _ _ 2 r.start_index w1 (omega arith, omega arith) in
      let w3 =
        write_bytes_field-Wrote v is _ _ 3 r.end w2 (omega arith, omega arith)
          (omega (arith, h.end_ok.1)) in
      let w4 = write_int_field-Wrote v is _ _ 4 r.end_index w3 (omega arith, omega arith) in
      let w5 =
        write_bytes_field-Wrote v is _ _ 5 r.anchor w4 (omega arith, omega arith)
          (omega (arith, h.anchor_ok.1)) in
      simp append_assoc at
        (reset_writer-Wrote v is _ _ (write_entries-Wrote v is _ _ r.entries w5 h.entries_ok))

  AreAfter-entries_fields :
      (m : ℕ) (es : List ReceiptEntry) → m < 6 → AreAfter m (entries_fields v is es)
  AreAfter-entries_fields m es lt = rw append-nil at (
      AreAfter-append v is m 6 (entries_fields v is es) [] (OnlyNumber-entries_fields v is es) lt
        tt)

  length-entries_fields :
      (es : List ReceiptEntry) → length es ≤ length (encode (entries_fields v is es))
  unfolding entries_fields encode
  length-entries_fields [] = omega arith
  length-entries_fields (e ∷ es) =
      let p = bytes_payload v (some (object (entry_fields v is e))) in
      omega (arith, length-entries_fields es, length-append p (encode (entries_fields v is es)))

  length-encode_append : (fs gs : List Field) → length (encode gs) ≤ length (encode (fs ++ gs))
  length-encode_append fs gs =
      omega (arith, ap length (encode-append fs gs), length-append (encode fs) (encode gs))

  length-object : (fs : List Field) → length (encode fs) ≤ length (object fs)
  unfolding object encode
  length-object [] = omega arith
  length-object (f ∷ fs) = omega arith

  -- The receipt of what each method returns.
  unmarshal_receipt-reads :
      (b : Bytes) (x1 x3 x5 : Option (Option Bytes)) (x2 x4 : Option ℕ) (r1 r2 r3 r4 r5 r6 : Reader)
      (es : List ReceiptEntry)
      → read_bytes v (new_reader b) 1 ≡ (x1, r1)
      → read_int v r1 2 ≡ (x2, r2)
      → read_bytes v r2 3 ≡ (x3, r3)
      → read_int v r3 4 ≡ (x4, r4)
      → read_bytes v r4 5 ≡ (x5, r5)
      → read_entries v (suc (length b)) r5 ≡ (es, r6)
      → r6.error ≡ none
      → unmarshal_receipt v b
        ≡ some (record {
          start = or_zero none x1;
          start_index = or_zero 0 x2;
          end = or_zero none x3;
          end_index = or_zero 0 x4;
          anchor = or_zero none x5;
          entries = es;
        })
  unfolding unmarshal_receipt
  unmarshal_receipt-reads b x1 x3 x5 x2 x4 r1 r2 r3 r4 r5 r6 es e1 e2 e3 e4 e5 e6 ok =
      rw (unmarshal_receipt, e1, e2, e3, e4, e5, e6, ok) (rw (e1, e2, e3, e4, e5, e6) refl)

  module _ (r : Receipt) where
    -- The fields from each number on.
    abbrev from_anchor : List Field
    from_anchor = bytes_field v 5 r.anchor ++ entries_fields v is r.entries

    abbrev from_end_index : List Field
    from_end_index = int_field v 4 r.end_index ++ from_anchor

    abbrev from_end : List Field
    from_end = bytes_field v 3 r.end ++ from_end_index

    abbrev from_start_index : List Field
    from_start_index = int_field v 2 r.start_index ++ from_end

    length-receipt_fields : length r.entries ≤ length (object (receipt_fields r))
    unfolding receipt_fields
    length-receipt_fields = omega (
      arith,
      length-entries_fields r.entries,
      length-encode_append (bytes_field v 5 r.anchor) (entries_fields v is r.entries),
      length-encode_append (int_field v 4 r.end_index) from_anchor,
      length-encode_append (bytes_field v 3 r.end) from_end_index,
      length-encode_append (int_field v 2 r.start_index) from_end,
      length-encode_append (bytes_field v 1 r.start) from_start_index,
      length-object (receipt_fields r),
    )

    from_anchor-AreAfter : (m : ℕ) → m < 5 → AreAfter m from_anchor
    from_anchor-AreAfter m lt =
        AreAfter-append v is m 5 _ _ (OnlyNumber-bytes_field v is 5 r.anchor) lt
          (AreAfter-entries_fields m r.entries (omega arith))

    from_end_index-AreAfter : (m : ℕ) → m < 4 → AreAfter m from_end_index
    from_end_index-AreAfter m lt =
        AreAfter-append v is m 4 _ _ (OnlyNumber-int_field v is 4 r.end_index) lt
          (from_anchor-AreAfter m (omega arith))

    from_end-AreAfter : (m : ℕ) → m < 3 → AreAfter m from_end
    from_end-AreAfter m lt =
        AreAfter-append v is m 3 _ _ (OnlyNumber-bytes_field v is 3 r.end) lt
          (from_end_index-AreAfter m (omega arith))

    from_start_index-AreAfter : (m : ℕ) → m < 2 → AreAfter m from_start_index
    from_start_index-AreAfter m lt =
        AreAfter-append v is m 2 _ _ (OnlyNumber-int_field v is 2 r.start_index) lt
          (from_end-AreAfter m (omega arith))

    numbers-receipt_fields : All (λ f. IsNumber f.number) (receipt_fields r)
    unfolding receipt_fields
    numbers-receipt_fields =
        numbers-append v is 1 _ _ (OnlyNumber-bytes_field v is 1 r.start) (omega arith, omega arith)
          (numbers-append v is 2 _ _ (OnlyNumber-int_field v is 2 r.start_index)
            (omega arith, omega arith)
            (numbers-append v is 3 _ _ (OnlyNumber-bytes_field v is 3 r.end)
              (omega arith, omega arith)
              (numbers-append v is 4 _ _ (OnlyNumber-int_field v is 4 r.end_index)
                (omega arith, omega arith)
                (numbers-append v is 5 _ _ (OnlyNumber-bytes_field v is 5 r.anchor)
                  (omega arith, omega arith)
                  (rw append-nil at (
                    numbers-append v is 6 _ [] (OnlyNumber-entries_fields v is r.entries)
                      (omega arith, omega arith) tt))))))

    unmarshal_receipt-object :
        IsReceipt r → unmarshal_receipt v (object (receipt_fields r)) ≡ some r
    unfolding receipt_fields
    unmarshal_receipt-object h =
        let start = new_reader (object (receipt_fields r)) in
        let (x1, r1, reads1, same1, at1) =
          read_bytes-bytes_field v is start 1 r.start from_start_index (omega arith, omega arith)
            h.start_ok (from_start_index-AreAfter 1 (omega arith))
            (At-new_reader v is (receipt_fields r) numbers-receipt_fields) in
        let (x2, r2, reads2, same2, at2) =
          read_int-int_field v is r1 2 r.start_index from_end (omega arith, omega arith)
            h.start_index_ok (from_end-AreAfter 2 (omega arith)) at1 in
        let (x3, r3, reads3, same3, at3) =
          read_bytes-bytes_field v is r2 3 r.end from_end_index (omega arith, omega arith) h.end_ok
            (from_end_index-AreAfter 3 (omega arith)) at2 in
        let (x4, r4, reads4, same4, at4) =
          read_int-int_field v is r3 4 r.end_index from_anchor (omega arith, omega arith)
            h.end_index_ok (from_anchor-AreAfter 4 (omega arith)) at3 in
        let (x5, r5, reads5, same5, at5) =
          read_bytes-bytes_field v is r4 5 r.anchor (entries_fields v is r.entries)
            (omega arith, omega arith) h.anchor_ok
            (AreAfter-entries_fields 5 r.entries (omega arith)) at4 in
        let (r6, reads6, at6) =
          read_entries-entries_fields v is (suc (length (object (receipt_fields r)))) r5 r.entries
            (omega (arith, length-receipt_fields)) h.entries_ok at5 in
        unmarshal_receipt-reads (object (receipt_fields r)) x1 x3 x5 x2 x4 r1 r2 r3 r4 r5 r6
          r.entries reads1 reads2 reads3 reads4 reads5 reads6 at6.ok
        ∙ (λ i. some (record {
          start = same1 i;
          start_index = same2 i;
          end = same3 i;
          end_index = same4 i;
          anchor = same5 i;
          entries = r.entries;
        }))

  -- MarshalBinary of a receipt whose slices are nil or not empty and shorter than MaxValueSize, whose
  -- indices have 64 bits, and whose entries' hashes leave room for the entry's own fields, succeeds, and
  -- UnmarshalBinary of its bytes into a new receipt succeeds and gives the receipt back.
  pub marshal_receipt-unmarshal_receipt :
      (r : Receipt)
      → IsReceipt r
      → (b : Bytes) × (marshal_receipt v r ≡ (some b, none)) × (unmarshal_receipt v b ≡ some r)
  marshal_receipt-unmarshal_receipt r h =
      (object (receipt_fields r), marshal_receipt-object r h, unmarshal_receipt-object r h)
