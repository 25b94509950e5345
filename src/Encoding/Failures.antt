-- ===== src/Encoding/Failures.antt =====
-- Errors of a writer and a reader, and what the methods for single values do after them.
use Prim.Native.String.{String}
use accumulate.Common.{
  ℕ, ◌<◌, ◌≡◌, ◌⊎◌, refl, ap, ◌∙◌, List, ◌∷◌, ◌++◌, Option, none, some, Bool, true, false, ◌||◌,
  ltb, length, arith, lt→ltb,
}
use accumulate.Common.Bytes.{Bytes}
use accumulate.Encoding.Varint.{Varint, IsVarint}
use accumulate.Encoding.Writer.{
  Writer, unless_failed, did_fail, did_marshal, write_field, write_raw, write_uint_part,
  write_int_part, write_hash, write_int, write_uint, write_bool, write_bytes, write_value, bytes_of,
  max_value_size,
}
use accumulate.Encoding.Reader.{
  Reader, behind, read_field, read_hash, read_int, read_uint, read_bool, read_bytes,
}
use accumulate.Encoding.Fields.{Field, IsNumber}
use accumulate.Encoding.Written.{
  unless_failed-ok, Appends-trans, write_field-Appends, write_uint_part-Appends,
}
use accumulate.Encoding.Reading.{At, read_field-out_of_order}

unless_failed-failed : (w next : Writer) (e : String) → w.error ≡ some e → unless_failed w next ≡ w
unfolding unless_failed
unless_failed-failed w next e h = dead w.error h
  where
    dead :
        (o : Option String) → o ≡ some e → elim o as (λ x. Writer) [ none ↦ next | some s ↦ w ] ≡ w
    dead none h = absurd cc
    dead (some s) h = refl

module _ (v : Varint) where
  -- The methods that write a hash, an integer, a Boolean, bytes or an object's bytes leave the writer as it
  -- is.
  pub Silent : Writer → Type 0
  Silent w =
      (n : ℕ)
      → ((b : Bytes) → write_hash v w n b ≡ w)
        × ((x : ℕ) → write_int v w n x ≡ w)
        × ((x : ℕ) → write_uint v w n x ≡ w)
        × ((b : Bool) → write_bool v w n b ≡ w)
        × ((b : Option Bytes) → write_bytes v w n b ≡ w)
        × ((m : Option Bytes × Option String) → write_value v w n m ≡ w)

  write_field-failed : (w : Writer) (n : ℕ) (e : String) → w.error ≡ some e → write_field v w n ≡ w
  unfolding write_field
  write_field-failed w n e h = unless_failed-failed w _ e h

  write_uint_part-failed :
      (w : Writer) (n x : ℕ) (e : String) → w.error ≡ some e → write_uint_part v w n x ≡ w
  unfolding write_uint_part
  write_uint_part-failed w n x e h = unless_failed-failed w _ e h

  write_raw-failed :
      (w : Writer) (n : ℕ) (b : Bytes) (e : String) → w.error ≡ some e → write_raw w n b ≡ w
  unfolding write_raw
  write_raw-failed w n b e h = unless_failed-failed w _ e h

  write_bytes-failed :
      (w : Writer) (n : ℕ) (b : Option Bytes) (e : String)
      → w.error ≡ some e
      → write_bytes v w n b ≡ w
  unfolding write_bytes
  write_bytes-failed w n b e h =
      rw (write_field-failed w n e h, write_uint_part-failed w n (length (bytes_of b)) e h)
        (write_raw-failed w n (bytes_of b) e h)

  did_marshal-failed :
      (w : Writer) (n : ℕ) (m : Option String) (e : String)
      → w.error ≡ some e
      → did_marshal w n m ≡ w
  unfolding did_marshal
  did_marshal-failed w n none e h = refl
  did_marshal-failed w n (some s) e h = unless_failed-failed w _ e h

  failed-Silent : (w : Writer) (e : String) → w.error ≡ some e → Silent w
  unfolding Silent write_hash write_int write_uint write_bool write_value write_int_part
  failed-Silent w e h n = (
    (λ b. rw (write_field-failed w n e h) (write_raw-failed w n b e h)),
    (λ x. rw (write_field-failed w n e h) (unless_failed-failed w _ e h)),
    (λ x. rw (write_field-failed w n e h) (write_uint_part-failed w n x e h)),
    (λ b. rw (write_field-failed w n e h) (write_uint_part-failed w n _ e h)),
    (λ b. write_bytes-failed w n b e h),
    (λ m. rw (did_marshal-failed w n m.1 e h) (write_bytes-failed w n m.0 e h)),
  )

  write_field-invalid :
      (w : Writer) (n : ℕ)
      → w.error ≡ none
      → n < 1 ⊎ 32 < n
      → write_field v w n ≡ did_fail w n "field number is invalid"
  unfolding write_field
  write_field-invalid w n ok h =
      let bad : (ltb n 1 || ltb 32 n) ≡ true = ground (arith, h) in rw bad (unless_failed-ok w _ ok)

  write_raw-large :
      (w : Writer) (n : ℕ) (b : Bytes)
      → w.error ≡ none
      → max_value_size < length b
      → write_raw w n b ≡ did_fail w n "failed to write field: too large"
  unfolding write_raw
  write_raw-large w n b ok h =
      let large : ltb max_value_size (length b) ≡ true = lt→ltb _ _ h in
      rw large (unless_failed-ok w _ ok)

  -- WriteBytes, on a writer without an error: a field number outside 1 to 32 writes nothing and leaves
  -- its error, and a value longer than MaxValueSize is written as its number and length only and
  -- leaves another; after either, WriteHash, WriteInt, WriteUint, WriteBool, WriteBytes and WriteValue
  -- leave the writer as it is.
  pub write_bytes-Silent :
      IsVarint v
      → (w : Writer) (n : ℕ) (b : Option Bytes) → w.error ≡ none
      → (n < 1 ⊎ 32 < n
          → (write_bytes v w n b ≡ record w { last = n; error = some "field number is invalid" })
            × Silent (write_bytes v w n b))
        × (IsNumber n
            → max_value_size < length (bytes_of b)
            → ((write_bytes v w n b).out ≡ w.out ++ n ∷ v.put_uvarint (length (bytes_of b)))
              × ((write_bytes v w n b).error ≡ some "failed to write field: too large")
              × Silent (write_bytes v w n b))
  unfolding write_bytes did_fail
  write_bytes-Silent is w n b ok = (invalid, large)
    where
      invalid :
          n < 1 ⊎ 32 < n
          → (write_bytes v w n b ≡ record w { last = n; error = some "field number is invalid" })
            × Silent (write_bytes v w n b)
      invalid h =
          let failed = did_fail w n "field number is invalid" in
          let same_ : write_bytes v w n b ≡ failed =
            ap (λ x. write_raw (write_uint_part v x n (length (bytes_of b))) n (bytes_of b))
              (write_field-invalid w n ok h)
            ∙ ap (λ x. write_raw x n (bytes_of b))
                (write_uint_part-failed failed n (length (bytes_of b)) _ refl)
            ∙ write_raw-failed failed n (bytes_of b) _ refl in
          (same_, rw same_ (failed-Silent failed _ refl))

      large :
          IsNumber n
          → max_value_size < length (bytes_of b)
          → ((write_bytes v w n b).out ≡ w.out ++ n ∷ v.put_uvarint (length (bytes_of b)))
            × ((write_bytes v w n b).error ≡ some "failed to write field: too large")
            × Silent (write_bytes v w n b)
      large number h =
          let one = write_field-Appends v is w n ok number in
          let two =
            write_uint_part-Appends v is (write_field v w n) n (length (bytes_of b)) one.ok in
          let same_ =
            write_raw-large (write_uint_part v (write_field v w n) n (length (bytes_of b))) n
              (bytes_of b) two.ok h in
          (
            ap (λ x. x.out) same_ ∙ (Appends-trans one two).out_eq,
            ap (λ x. x.error) same_,
            rw same_ (failed-Silent _ _ refl),
          )

  -- The methods that read a hash, an integer, a Boolean or bytes return no value and leave the reader as it
  -- is.
  pub Mute : Reader → Type 0
  Mute r =
      (n : ℕ)
      → (read_hash v r n ≡ (none, r))
        × (read_int v r n ≡ (none, r))
        × (read_uint v r n ≡ (none, r))
        × (read_bool v r n ≡ (none, r))
        × (read_bytes v r n ≡ (none, r))

  read_field-failed :
      (r : Reader) (n : ℕ) (e : String) → r.error ≡ some e → read_field v r n ≡ (false, r)
  unfolding read_field
  read_field-failed r n e h = dead (false, r) refl
    where
      dead : (out : Bool × Reader) → (false, r) ≡ out → read_field v r n ≡ out
      dead out same_ = rw (read_field, h) same_

  failed-Mute : (r : Reader) (e : String) → r.error ≡ some e → Mute r
  unfolding Mute read_hash read_int read_uint read_bool read_bytes behind
  failed-Mute r e h n = (
    ap (behind _) (read_field-failed r n e h),
    ap (behind _) (read_field-failed r n e h),
    ap (behind _) (read_field-failed r n e h),
    ap (behind _) (read_field-failed r n e h),
    ap (behind _) (read_field-failed r n e h),
  )

  -- A reader that has no error, before a field with a valid number, records that the fields are out of
  -- order when it is asked for a field with a larger number; from then on ReadHash, ReadInt,
  -- ReadUint, ReadBool and ReadBytes return no value and leave it as it is.
  pub read_field-Mute :
      IsVarint v
      → (r : Reader) (n : ℕ) (f : Field) (fs : List Field) → IsNumber n
      → f.number < n
      → At r (f ∷ fs)
      → (next : Reader) × (read_field v r n ≡ (false, next))
        × (next.error ≡ some "fields are out of order")
        × Mute next
  read_field-Mute is r n f fs number early at =
      let (next, reads, e) = read_field-out_of_order v is r n f fs number early at in
      (next, reads, e, failed-Mute next _ e)
