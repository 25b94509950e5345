-- ===== src/Encoding/NextField.antt =====
-- Where a reader stands among the fields that are left, and how it finds the next.
use accumulate.Common.{
  ℕ, ◌-◌, ◌<◌, ◌≡◌, inl, inr, refl, ap, sym, ◌∙◌, List, [], ◌∷◌, ◌++◌, none, some, Bool, true,
  false, ◌||◌, ◌==◌, ltb, length, replicate, All, arith, List-cases, lt→ltb,
}
use accumulate.Common.Bytes.{Bytes}
use accumulate.Encoding.Varint.{Varint, IsVarint, VarintRead}
use accumulate.Encoding.Writer.{empty_object}
use accumulate.Encoding.Reader.{
  Reader, number_result, field_number, next_field, match_field, match_found, read_field,
}
use accumulate.Encoding.Fields.{Field, field, IsNumber, encode}

-- Where a reader without an error stands: before the number of the first field that is left, behind
-- it, before the byte of an object without fields, or behind that.
pub data Place (r : Reader) (fs : List Field) : Type 0 where
  before : r.current ≡ 0 → r.input ≡ encode fs → Place r fs
  behind :
      (n : ℕ) (p : Bytes) (gs : List Field)
      → fs ≡ field n p ∷ gs
      → r.current ≡ n
      → r.input ≡ p ++ encode gs
      → Place r fs
  before_empty : fs ≡ [] → r.current ≡ 0 → r.seen ≡ [] → r.input ≡ empty_object ∷ [] → Place r fs
  behind_empty : fs ≡ [] → r.current ≡ empty_object → Place r fs

pub record At (r : Reader) (fs : List Field) : Type 0 where
  pub ok : r.error ≡ none
  pub numbers : All (λ f. IsNumber f.number) fs
  pub place : Place r fs

abbrev pub first_number : List Field → ℕ
first_number [] = 0
first_number (f ∷ fs) = f.number

abbrev pub first_payload : List Field → Bytes
first_payload [] = []
first_payload (f ∷ fs) = f.payload

abbrev pub later : List Field → List Field
later [] = []
later (f ∷ fs) = fs

module _ (v : Varint) (is : IsVarint v) where
  -- The number of the next field.
  pub field_number-encode :
      (r : Reader) (n : ℕ) (p : Bytes) (fs : List Field)
      → IsNumber n
      → r.error ≡ none
      → r.input ≡ encode (field n p ∷ fs)
      → (next : Reader) × (field_number v r ≡ (true, next))
        × (next.current ≡ n)
        × (next.input ≡ p ++ encode fs)
        × (next.error ≡ none)
  unfolding field_number number_result encode
  field_number-encode r n p fs (lo, hi) ok e =
      let small = is.put_uvarint-small n (omega arith) in
      let reads : v.read_uvarint r.input ≡ (VarintRead.value n, p ++ encode fs) =
        ap v.read_uvarint (e ∙ ap (λ b. b ++ (p ++ encode fs)) (sym small))
        ∙ is.read_uvarint-put_uvarint n (p ++ encode fs) (omega arith) in
      let good : (ltb n 1 || ltb 32 n) ≡ false = ground arith in
      (
        record r {
          input = p ++ encode fs;
          current = n;
          seen = r.seen ++ replicate (n - 1 - length r.seen) false ++ true ∷ [];
        },
        ap (number_result r) reads ∙ rw good refl,
        refl,
        refl,
        ok,
      )

  -- At the end of the input there is no field.
  pub field_number-end :
      (r : Reader) → r.input ≡ [] → field_number v r ≡ (false, record r { input = [] })
  unfolding field_number number_result
  field_number-end r e = ap (number_result r) (ap v.read_uvarint e ∙ is.read_uvarint-empty)

  -- Before a field, `nextField` reads its number.
  pub next_field-encode :
      (r : Reader) (n : ℕ) (p : Bytes) (fs : List Field) (out : Bool × Reader)
      → IsNumber n
      → r.input ≡ encode (field n p ∷ fs)
      → field_number v r ≡ out
      → next_field v r ≡ out
  unfolding next_field encode
  next_field-encode r n p fs out (lo, hi) e h = elim (List-cases r.seen) [
    | inl z ↦
        let other : (n == empty_object) ≡ false = ground arith in rw (next_field, z, e, other) h
    | inr (s, ss, z) ↦ rw (next_field, z) h
  ]

  pub next_field-nil :
      (r : Reader) (out : Bool × Reader)
      → r.seen ≡ []
      → r.input ≡ []
      → (false, r) ≡ out
      → next_field v r ≡ out
  unfolding next_field
  next_field-nil r out z e h = rw (next_field, z, e) h

  pub next_field-seen :
      (r : Reader) (out : Bool × Reader) (s : Bool) (ss : List Bool)
      → r.seen ≡ s ∷ ss
      → field_number v r ≡ out
      → next_field v r ≡ out
  unfolding next_field
  next_field-seen r out s ss z h = rw (next_field, z) h

  pub next_field-empty_object :
      (r : Reader) (out : Bool × Reader)
      → r.seen ≡ []
      → r.input ≡ empty_object ∷ []
      → (false, record r { input = []; current = empty_object }) ≡ out
      → next_field v r ≡ out
  unfolding next_field
  next_field-empty_object r out z e h = rw (next_field, z, e) h

  -- At the end of the input it finds none.
  pub next_field-end :
      (r : Reader)
      → r.input ≡ []
      → (next : Reader) × (next_field v r ≡ (false, next))
        × (next.current ≡ r.current)
        × (next.input ≡ [])
        × (next.error ≡ r.error)
  next_field-end r e = elim (List-cases r.seen) [
    | inl z ↦ (r, next_field-nil r (false, r) z e refl, refl, e, refl)
    | inr (s, ss, z) ↦ (
      record r { input = [] },
      next_field-seen r _ s ss z (field_number-end r e),
      refl,
      refl,
      refl,
    )
  ]

  pub read_field-fresh :
      (r : Reader) (n : ℕ) (found out : Bool × Reader)
      → IsNumber n
      → r.error ≡ none
      → r.current ≡ 0
      → next_field v r ≡ found
      → match_found n found ≡ out
      → read_field v r n ≡ out
  unfolding read_field
  read_field-fresh r n found out (lo, hi) ok c f h =
      let good : (ltb n 1 || ltb 32 n) ≡ false = ground arith in
      let fresh : (r.current == 0) ≡ true = ground (arith, c) in
      rw (read_field, ok, good, fresh, f) h

  pub read_field-current :
      (r : Reader) (n : ℕ) (out : Bool × Reader)
      → IsNumber n
      → r.error ≡ none
      → 0 < r.current
      → match_field r n ≡ out
      → read_field v r n ≡ out
  unfolding read_field
  read_field-current r n out (lo, hi) ok c h =
      let good : (ltb n 1 || ltb 32 n) ≡ false = ground arith in
      let fresh : (r.current == 0) ≡ false = ground (arith, c) in rw (read_field, ok, good, fresh) h

  pub match_field-same :
      (r : Reader) (n : ℕ) → r.current ≡ n → match_field r n ≡ (true, record r { current = 0 })
  unfolding match_field
  match_field-same r n c =
      let low : ltb r.current n ≡ false = ground (arith, c) in
      let high : ltb n r.current ≡ false = ground (arith, c) in rw (low, high) refl

  pub match_field-later : (r : Reader) (n : ℕ) → n < r.current → match_field r n ≡ (false, r)
  unfolding match_field
  match_field-later r n c =
      let low : ltb r.current n ≡ false = ground (arith, c) in
      let high : ltb n r.current ≡ true = ground (arith, c) in rw (low, high) refl

  pub match_field-earlier :
      (r : Reader) (n : ℕ)
      → r.current < n
      → match_field r n ≡ (false, record r { last = 0; error = some "fields are out of order" })
  unfolding match_field
  match_field-earlier r n c = let low = lt→ltb r.current n c in rw low refl
