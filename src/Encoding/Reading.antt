-- ===== src/Encoding/Reading.antt =====
-- What `readField` answers for the fields that are left.
use accumulate.Common.{
  ℕ, ◌<◌, ◌≡◌, refl, ap, sym, ◌∙◌, List, [], ◌∷◌, ◌++◌, none, some, true, false, All, arith,
}
use accumulate.Common.Bytes.{Bytes}
use accumulate.Encoding.Varint.{Varint, IsVarint}
use accumulate.Encoding.Writer.{empty_object}
use accumulate.Encoding.Reader.{Reader, match_found, read_field}
use accumulate.Encoding.Fields.{Field, field, IsNumber, encode}
pub use accumulate.Encoding.NextField.{Place, At}
use accumulate.Encoding.NextField.{
  before, behind, before_empty, behind_empty, first_number, first_payload, later,
  field_number-encode, next_field-encode, next_field-empty_object, next_field-end, read_field-fresh,
  read_field-current, match_field-same, match_field-later, match_field-earlier,
}

module _ (v : Varint) (is : IsVarint v) where
  -- `readField` of a number behind that of the first field that is left.
  pub read_field-out_of_order :
      (r : Reader) (n : ℕ) (f : Field) (fs : List Field)
      → IsNumber n
      → f.number < n
      → At r (f ∷ fs)
      → (next : Reader) × (read_field v r n ≡ (false, next))
        × (next.error ≡ some "fields are out of order")
  unfolding match_found
  read_field-out_of_order r n f fs number early at = elim at.place [
    | before c e ↦
        let (next, reads, cur, input, ok) =
          field_number-encode v is r f.number f.payload fs at.numbers.0 at.ok e in
        let found =
          next_field-encode v is r f.number f.payload fs (true, next) at.numbers.0 e reads in
        (
          record next { last = 0; error = some "fields are out of order" },
          read_field-fresh v is r n (true, next) _ number at.ok c found
              (match_field-earlier v is next n (omega (arith, cur, early))),
          refl,
        )
    | behind m q gs e c i ↦
        let same_ : m ≡ f.number = sym (ap first_number e) in
        (
          record r { last = 0; error = some "fields are out of order" },
          read_field-current v is r n _ number at.ok (omega (arith, c, same_, at.numbers.0.0))
              (match_field-earlier v is r n (omega (arith, c, same_, early))),
          refl,
        )
    | before_empty e c z i ↦ absurd cc
    | behind_empty e c ↦ absurd cc
  ]

  -- `readField` of the number of the first field that is left.
  pub read_field-present :
      (r : Reader) (n : ℕ) (p : Bytes) (fs : List Field)
      → At r (field n p ∷ fs)
      → (next : Reader) × (read_field v r n ≡ (true, next))
        × (next.current ≡ 0)
        × (next.input ≡ p ++ encode fs)
        × (next.error ≡ none)
  unfolding match_found
  read_field-present r n p fs at = elim at.place [
    | before c e ↦
        let (next, reads, cur, input, ok) =
          field_number-encode v is r n p fs at.numbers.0 at.ok e in
        let found = next_field-encode v is r n p fs (true, next) at.numbers.0 e reads in
        (
          record next { current = 0 },
          read_field-fresh v is r n (true, next) _ at.numbers.0 at.ok c found
              (match_field-same v is next n cur),
          refl,
          input,
          ok,
        )
    | behind m q gs e c i ↦
        let number : m ≡ n = sym (ap first_number e) in
        let bytes : q ≡ p = sym (ap first_payload e) in
        let others : gs ≡ fs = sym (ap later e) in
        (
          record r { current = 0 },
          read_field-current v is r n _ at.numbers.0 at.ok
              (omega (arith, c, number, at.numbers.0.0)) (match_field-same v is r n (c ∙ number)),
          refl,
          i ∙ rw (bytes, others) refl,
          at.ok,
        )
    | before_empty e c z i ↦ absurd cc
    | behind_empty e c ↦ absurd cc
  ]

  -- `readField` of a number before those of the fields that are left.
  pub read_field-absent :
      (r : Reader) (n : ℕ) (fs : List Field)
      → IsNumber n
      → All (λ f. n < f.number) fs
      → At r fs
      → (next : Reader) × (read_field v r n ≡ (false, next)) × At next fs
  unfolding match_found encode
  read_field-absent r n [] number later_ at = elim at.place [
    | before c e ↦
        let (next, ends, cur, input, ok) = next_field-end v is r e in
        (
          next,
          read_field-fresh v is r n (false, next) _ number at.ok c ends refl,
          record { ok = ok ∙ at.ok; numbers = tt; place = Place.before (cur ∙ c) input },
        )
    | behind m q gs e c i ↦ absurd cc
    | before_empty e c z i ↦ (
      record r { input = []; current = empty_object },
      read_field-fresh v is r n _ _ number at.ok c (next_field-empty_object v is r _ z i refl) refl,
      record { ok = at.ok; numbers = tt; place = Place.behind_empty refl refl },
    )
    | behind_empty e c ↦ (
      r,
      read_field-current v is r n _ number at.ok (omega (arith, c))
          (match_field-later v is r n (omega (arith, c, number.1))),
      at,
    )
  ]
  read_field-absent r n (f ∷ fs) number later_ at = elim at.place [
    | before c e ↦
        let (next, reads, cur, input, ok) =
          field_number-encode v is r f.number f.payload fs at.numbers.0 at.ok e in
        let found =
          next_field-encode v is r f.number f.payload fs (true, next) at.numbers.0 e reads in
        (
          next,
          read_field-fresh v is r n (true, next) _ number at.ok c found
              (match_field-later v is next n (omega (arith, cur, later_.0))),
          record {
            ok = ok;
            numbers = at.numbers;
            place = Place.behind f.number f.payload fs refl cur input;
          },
        )
    | behind m q gs e c i ↦
        let same_ : m ≡ f.number = sym (ap first_number e) in
        (
          r,
          read_field-current v is r n _ number at.ok (omega (arith, c, same_, later_.0))
              (match_field-later v is r n (omega (arith, c, same_, later_.0))),
          at,
        )
    | before_empty e c z i ↦ absurd cc
    | behind_empty e c ↦ absurd cc
  ]
