-- ===== src/Encoding/Limits.antt =====
-- The largest value: the writer's limit and the reader's are not the same.
use accumulate.Common.{
  ℕ, ◌≤◌, ◌≡◌, refl, ap, ◌∙◌, List, ◌∷◌, ◌++◌, Option, none, some, true, false, ◌==◌, ltb, leb,
  length, length-append, arith,
}
use accumulate.Common.Bytes.{Bytes}
use mathlib.Core.List.{append_assoc}
use accumulate.Encoding.Varint.{Varint, IsVarint}
use accumulate.Encoding.Writer.{Writer, bytes_of, max_value_size, write_bytes}
use accumulate.Encoding.Reader.{
  Reader, did_read, read_uint_part, read_raw, read_sized, behind, read_bytes,
}
use accumulate.Encoding.Fields.{Field, field, IsNumber, encode, bytes_payload}
use accumulate.Encoding.Written.{write_bytes-Appends}
use accumulate.Encoding.Reading.{At, read_field-present}
use accumulate.Encoding.Values.{Behind, read_uint_part-Behind}

did_read-failed :
    (r : Reader) (n : ℕ) (next : Reader)
    → r.error ≡ none
    → record r { last = n; error = some "failed to read field: too big" } ≡ next
    → did_read r n (some "failed to read field: too big") ≡ next
unfolding did_read
did_read-failed r n next ok h = rw (did_read, ok) h

read_raw-large :
    (r : Reader) (n k : ℕ) (out : Option (Option Bytes) × Reader)
    → r.error ≡ none
    → max_value_size ≤ k
    → k ≤ length r.input
    → (none, did_read r n (some "failed to read field: too big")) ≡ out
    → read_raw r n k ≡ out
unfolding read_raw
read_raw-large r n k out ok large fits h =
    let some_ : (k == 0) ≡ false = ground arith in
    let enough : ltb (length r.input) k ≡ false = ground arith in
    let high : leb max_value_size k ≡ true = ground arith in
    rw (read_raw, ok, some_, enough, high) h

module _ (v : Varint) (is : IsVarint v) where
  -- A value of just MaxValueSize bytes is written by WriteBytes, under a valid number and by a writer
  -- without an error, and leaves no error; but ReadBytes of such a field returns no value and leaves
  -- the error for a value that is too big.
  pub write_bytes-read_bytes :
      (w : Writer) (r : Reader) (n : ℕ) (b : Option Bytes) (fs : List Field)
      → IsNumber n
      → length (bytes_of b) ≡ max_value_size
      → w.error ≡ none
      → At r (field n (bytes_payload v b) ∷ fs)
      → ((write_bytes v w n b).error ≡ none)
        × (next : Reader) × (read_bytes v r n ≡ (none, next))
        × (next.error ≡ some "failed to read field: too big")
  unfolding read_bytes behind read_sized bytes_payload
  write_bytes-read_bytes w r n b fs number size ok at =
      let (r1, found, c1, i1, ok1) = read_field-present v is r n (bytes_payload v b) fs at in
      let h1 : Behind v is r1 (v.put_uvarint (length (bytes_of b)) ++ (bytes_of b ++ encode fs)) =
        record {
          ok = ok1;
          current_eq = c1;
          input_eq =
              i1 ∙ append_assoc (v.put_uvarint (length (bytes_of b))) (bytes_of b) (encode fs);
        } in
      let (r2, sized, h2) =
        read_uint_part-Behind v is r1 n (length (bytes_of b)) (bytes_of b ++ encode fs)
          (omega (arith, size)) h1 in
      let room : length (bytes_of b) ≤ length r2.input =
        omega (arith, ap length h2.input_eq, length-append (bytes_of b) (encode fs)) in
      let raw =
        read_raw-large r2 n (length (bytes_of b)) _ h2.ok (omega (arith, size)) room
          (ap (λ x. (none, x)) (did_read-failed r2 n _ h2.ok refl)) in
      (
        (write_bytes-Appends v is w n b ok number (omega (arith, size))).ok,
        record r2 { last = n; error = some "failed to read field: too big" },
        ap (behind (λ next. read_sized n (read_uint_part v next n))) found
            ∙ ap (read_sized n) sized
            ∙ raw,
        refl,
      )
