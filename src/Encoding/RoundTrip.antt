-- ===== src/Encoding/RoundTrip.antt =====
-- What the methods of a reader return for a field, written or left out.
use accumulate.Common.{
  ℕ, ◌^◌, ◌<◌, ◌≡◌, ◌≢◌, inl, inr, refl, ap, sym, ◌∙◌, List, [], ◌∷◌, ◌++◌, Option, none, some,
  Bool, true, false, ◌==◌, length, All, arith, Bool-cases,
}
use accumulate.Common.Bytes.{Bytes}
use mathlib.Core.List.{append_assoc}
use accumulate.Encoding.Varint.{Varint, IsVarint}
use accumulate.Encoding.Writer.{bytes_of, max_value_size}
use accumulate.Encoding.Reader.{
  Reader, read_uint_part, read_int_part, read_sized, behind, bool_of, value_of, read_bytes,
  read_int, read_bool, read_value, did_read,
}
use accumulate.Encoding.Fields.{
  Field, field, IsNumber, encode, bytes_payload, bytes_field, int_field, bool_field,
}
use accumulate.Encoding.Receipts.{or_zero}
use accumulate.Encoding.Reading.{Place, At, read_field-present, read_field-absent}
use accumulate.Encoding.Values.{
  Behind, read_uint_part-Behind, read_int_part-Behind, read_raw-Behind, Behind-did_read,
}

-- A slice that can be written: nil where it is empty, and small enough to be read.
abbrev pub IsSlice : Option Bytes → Type 0
IsSlice b = (b ≢ some []) × (length (bytes_of b) < max_value_size)

-- The fields that are left have numbers, and larger ones than `n`.
abbrev pub AreAfter : ℕ → List Field → Type 0
AreAfter n fs = All (λ f. n < f.number) fs

module _ (v : Varint) (is : IsVarint v) where
  pub At-Behind :
      (r : Reader) (fs : List Field)
      → All (λ f. IsNumber f.number) fs
      → Behind v is r (encode fs)
      → At r fs
  At-Behind r fs numbers h = record {
    ok = h.ok;
    numbers = numbers;
    place = Place.before h.current_eq h.input_eq;
  }

  pub read_bytes-present :
      (r : Reader) (n : ℕ) (b : Option Bytes) (fs : List Field)
      → IsSlice b
      → At r (field n (bytes_payload v b) ∷ fs)
      → (next : Reader) × (read_bytes v r n ≡ (some b, next)) × Behind v is next (encode fs)
  unfolding read_bytes behind read_sized bytes_payload
  read_bytes-present r n b fs slice at =
      let (r1, found, c1, i1, ok1) = read_field-present v is r n (bytes_payload v b) fs at in
      let h1 : Behind v is r1 (v.put_uvarint (length (bytes_of b)) ++ (bytes_of b ++ encode fs)) =
        record {
          ok = ok1;
          current_eq = c1;
          input_eq =
              i1 ∙ append_assoc (v.put_uvarint (length (bytes_of b))) (bytes_of b) (encode fs);
        } in
      let (r2, sized, h2) =
        read_uint_part-Behind v is r1 n (length (bytes_of b)) (bytes_of b ++ encode fs)
          (omega (arith, slice.1)) h1 in
      let (r3, raw, h3) = read_raw-Behind v is r2 n b (encode fs) slice.0 slice.1 h2 in
      (
        r3,
        ap (behind (λ next. read_sized n (read_uint_part v next n))) found
            ∙ ap (read_sized n) sized
            ∙ raw,
        h3,
      )

  -- A byte string that may be left out.
  pub read_bytes-bytes_field :
      (r : Reader) (n : ℕ) (b : Option Bytes) (fs : List Field)
      → IsNumber n
      → IsSlice b
      → AreAfter n fs
      → At r (bytes_field v n b ++ fs)
      → (x : Option (Option Bytes)) × (next : Reader) × (read_bytes v r n ≡ (x, next))
        × (or_zero none x ≡ b)
        × At next fs
  unfolding bytes_field read_bytes behind
  read_bytes-bytes_field r n b fs number slice after at =
      elim (Bool-cases (length (bytes_of b) == 0)) [
        | inl t ↦
            let left : At r fs = rw t at at in
            let (next, absent, h) = read_field-absent v is r n fs number after left in
            (
              none,
              next,
              ap (behind (λ next. read_sized n (read_uint_part v next n))) absent,
              nil_of b slice (ground (arith, t)),
              h,
            )
        | inr f ↦
            let here : At r (field n (bytes_payload v b) ∷ fs) = rw f at at in
            let (next, reads, h) = read_bytes-present r n b fs slice here in
            (some b, next, reads, refl, At-Behind next fs here.numbers.1 h)
      ]
    where
      nil_of : (b : Option Bytes) → IsSlice b → length (bytes_of b) ≡ 0 → none ≡ b
      nil_of none slice e = refl
      nil_of (some []) slice e = absurd (slice.0 refl)
      nil_of (some (x ∷ b)) slice e = absurd (omega arith)

  pub read_int-int_field :
      (r : Reader) (n x : ℕ) (fs : List Field)
      → IsNumber n
      → x < 2 ^ 64
      → AreAfter n fs
      → At r (int_field v n x ++ fs)
      → (y : Option ℕ) × (next : Reader) × (read_int v r n ≡ (y, next))
        × (or_zero 0 y ≡ x)
        × At next fs
  unfolding int_field read_int behind
  read_int-int_field r n x fs number small after at = elim (Bool-cases (x == 0)) [
    | inl t ↦
        let left : At r fs = rw t at at in
        let (next, absent, h) = read_field-absent v is r n fs number after left in
        (none, next, ap (behind (λ next. read_int_part v next n)) absent, ground (arith, t), h)
    | inr f ↦
        let here : At r (field n (v.put_varint x) ∷ fs) = rw f at at in
        let (r1, found, c1, i1, ok1) = read_field-present v is r n (v.put_varint x) fs here in
        let (next, reads, h) =
          read_int_part-Behind v is r1 n x (encode fs) small
            (record { ok = ok1; current_eq = c1; input_eq = i1 }) in
        (
          some x,
          next,
          ap (behind (λ next. read_int_part v next n)) found ∙ reads,
          refl,
          At-Behind next fs here.numbers.1 h,
        )
  ]

  pub read_bool-bool_field :
      (r : Reader) (n : ℕ) (b : Bool) (fs : List Field)
      → IsNumber n
      → AreAfter n fs
      → At r (bool_field v n b ++ fs)
      → (y : Option Bool) × (next : Reader) × (read_bool v r n ≡ (y, next))
        × (or_zero false y ≡ b)
        × At next fs
  unfolding bool_field read_bool behind bool_of
  read_bool-bool_field r n false fs number after at =
      let (next, absent, h) = read_field-absent v is r n fs number after at in
      (none, next, ap (behind (λ next. bool_of n (read_uint_part v next n))) absent, refl, h)
  read_bool-bool_field r n true fs number after at =
      let (r1, found, c1, i1, ok1) = read_field-present v is r n (1 ∷ []) fs at in
      let (next, reads, h) = read_uint_part-Behind v is r1 n 1 (encode fs) (omega arith) (record {
        ok = ok1;
        current_eq = c1;
        input_eq = i1 ∙ ap (λ p. p ++ encode fs) (sym (is.put_uvarint-small 1 (omega arith)));
      }) in
      (
        some true,
        next,
        ap (behind (λ next. bool_of n (read_uint_part v next n))) found ∙ ap (bool_of n) reads,
        refl,
        At-Behind next fs at.numbers.1 h,
      )

  -- A value that is read, and the end of the fields.
  pub read_value-present :
      {A : Type 0} (r : Reader) (n : ℕ) (b : Option Bytes) (fs : List Field)
      (unmarshal : Option Bytes → Option A) (x : A)
      → IsSlice b
      → unmarshal b ≡ some x
      → At r (field n (bytes_payload v b) ∷ fs)
      → (next : Reader) × (read_value v r n unmarshal ≡ (some x, next)) × At next fs
  unfolding read_value value_of
  read_value-present r n b fs unmarshal x slice good at =
      let (r1, reads, h) = read_bytes-present r n b fs slice at in
      (
        did_read r1 n none,
        ap (value_of n unmarshal) reads ∙ rw (value_of, good) refl,
        At-Behind (did_read r1 n none) fs at.numbers.1 (Behind-did_read v is r1 n (encode fs) h),
      )

  pub read_value-end :
      {A : Type 0} (r : Reader) (n : ℕ) (unmarshal : Option Bytes → Option A)
      → IsNumber n
      → At r []
      → (next : Reader) × (read_value v r n unmarshal ≡ (none, next)) × At next []
  unfolding read_value value_of read_bytes behind
  read_value-end r n unmarshal number at =
      let (next, absent, h) = read_field-absent v is r n [] number tt at in
      (
        next,
        ap
            (λ found.
              value_of n unmarshal (behind (λ next. read_sized n (read_uint_part v next n)) found))
            absent,
        h,
      )
