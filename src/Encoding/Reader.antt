-- ===== src/Encoding/Reader.antt =====
-- internal/encoding/reader.go, on a bytes.Reader.
use Prim.Native.String.{String}
use accumulate.Common.{ℕ, zero, suc, ◌-◌, List, [], ◌∷◌, ◌++◌, Option, none, some}
use accumulate.Common.{
  Bool, true, false, ◌||◌, ◌==◌, ltb, leb, if◌then◌else◌, length, take, drop, replicate,
}
use accumulate.Common.Bytes.{Bytes}
use accumulate.Encoding.Varint.{Varint, VarintRead, value, end_of_input, malformed}
use accumulate.Encoding.Writer.{max_value_size, empty_object}

-- `input` is what the bytes.Reader has left.
pub record Reader : Type 0 where
  pub input : Bytes
  pub current : ℕ
  pub seen : List Bool
  pub error : Option String
  pub last : ℕ

abbrev pub new_reader : Bytes → Reader
new_reader b = record { input = b; current = 0; seen = []; error = none; last = 0 }

-- `didRead`
unfoldable pub did_read : Reader → ℕ → Option String → Reader
did_read r field e = elim r.error [ some old ↦ r | none ↦ record r { last = field; error = e } ]

-- The error of a failed call on the bytes.Reader.
abbrev pub read_failed : Option String
read_failed = some "failed to read field"

-- What `readUint` and `readInt` make of the varint they read.
unfoldable pub read_result : Reader → ℕ → VarintRead × Bytes → Option ℕ × Reader
read_result r field (value x, rest) = (some x, did_read (record r { input = rest }) field none)
read_result r field (end_of_input, rest) =
    (none, did_read (record r { input = rest }) field read_failed)
read_result r field (malformed, rest) =
    (none, did_read (record r { input = rest }) field read_failed)

-- What `nextField` makes of the varint it reads.
unfoldable pub number_result : Reader → VarintRead × Bytes → Bool × Reader
number_result r (end_of_input, rest) = (false, record r { input = rest })
number_result r (malformed, rest) =
    (false, record r { input = rest; last = 0; error = some "failed to read field number" })
number_result r (value x, rest) =
    if ltb x 1 || ltb 32 x
    then (false, record r { input = rest; last = 0; error = some "failed to read field number" })
    else (
      true,
      record r {
        input = rest;
        current = x;
        seen = r.seen ++ replicate (x - 1 - length r.seen) false ++ true ∷ [];
      },
    )

-- The end of `readField`, once there is a current field.
unfoldable pub match_field : Reader → ℕ → Bool × Reader
match_field r field =
    if ltb r.current field
    then (false, record r { last = 0; error = some "fields are out of order" })
    else (if ltb field r.current then (false, r) else (true, record r { current = 0 }))

unfoldable pub match_found : ℕ → Bool × Reader → Bool × Reader
match_found field (true, r) = match_field r field
match_found field (false, r) = (false, r)

-- A value behind its field number: the method's result, and its ok.
unfoldable pub behind {ℓ} :
    {A : Type ℓ} → (Reader → Option A × Reader) → Bool × Reader → Option A × Reader
behind read (true, r) = read r
behind read (false, r) = (none, r)

-- `ReadBool` of the number that it has read.
unfoldable pub bool_of : ℕ → Option ℕ × Reader → Option Bool × Reader
bool_of n (none, r) = (none, r)
bool_of n (some zero, r) = (some false, r)
bool_of n (some (suc zero), r) = (some true, r)
bool_of n (some (suc (suc x)), r) =
    (none, did_read r n (some "failed to unmarshal field: not a valid boolean"))

-- `ReadValue` of the bytes that it has read; `unmarshal` is none where it returns an error.
unfoldable pub value_of {ℓ} :
    {A : Type ℓ}
    → ℕ
    → (Option Bytes → Option A)
    → Option (Option Bytes) × Reader
    → Option A × Reader
value_of n unmarshal (none, r) = (none, r)
value_of n unmarshal (some bytes, r) = elim (unmarshal bytes) [
  | none ↦ (none, did_read r n (some "failed to unmarshal value"))
  | some x ↦ (some x, did_read r n none)
]

-- `readRaw`: a slice of no bytes is nil. A short input is found by its `Len` first.
unfoldable pub read_raw : Reader → ℕ → ℕ → Option (Option Bytes) × Reader
read_raw r field n = elim r.error [
  | some e ↦ (none, r)
  | none ↦
      if n == 0
      then (some none, r)
      else (let short = ltb (length r.input) n in
          let checked = if short then did_read r field read_failed else r in
          if leb max_value_size n
          then (none, did_read checked field (some "failed to read field: too big"))
          else (if short
              then (none, did_read (record checked { input = [] }) field read_failed)
              else (
                some (some (take n r.input)),
                did_read (record checked { input = drop n r.input }) field none,
              )))
]

-- The length and the bytes of `ReadBytes`.
unfoldable pub read_sized : ℕ → Option ℕ × Reader → Option (Option Bytes) × Reader
read_sized n (none, r) = (none, r)
read_sized n (some l, r) = read_raw r n l

module _ (v : Varint) where
  unfoldable pub read_uint_part : Reader → ℕ → Option ℕ × Reader
  read_uint_part r field = elim r.error [
    | some e ↦ (none, r)
    | none ↦ read_result r field (v.read_uvarint r.input)
  ]

  unfoldable pub read_int_part : Reader → ℕ → Option ℕ × Reader
  read_int_part r field = elim r.error [
    | some e ↦ (none, r)
    | none ↦ read_result r field (v.read_varint r.input)
  ]

  -- The last part of `nextField`: the number of the next field.
  unfoldable pub field_number : Reader → Bool × Reader
  field_number r = number_result r (v.read_uvarint r.input)

  -- `nextField`: before the first field, the byte of an object without fields is looked for.
  unfoldable pub next_field : Reader → Bool × Reader
  next_field r = elim r.seen [
    | s ∷ ss ↦ field_number r
    | [] ↦ elim r.input [
      | [] ↦ (false, r)
      | b ∷ bs ↦
          if b == empty_object
          then (false, record r { input = bs; current = empty_object })
          else field_number r
    ]
  ]

  unfoldable pub read_field : Reader → ℕ → Bool × Reader
  read_field r field = elim r.error [
    | some e ↦ (false, r)
    | none ↦
        if ltb field 1 || ltb 32 field
        then (false, record r { error = some "field number is invalid" })
        else (if r.current == 0 then match_found field (next_field r) else match_field r field)
  ]

  unfoldable pub read_hash : Reader → ℕ → Option (Option Bytes) × Reader
  read_hash r n = behind (λ next. read_raw next n 32) (read_field r n)

  unfoldable pub read_int : Reader → ℕ → Option ℕ × Reader
  read_int r n = behind (λ next. read_int_part next n) (read_field r n)

  unfoldable pub read_uint : Reader → ℕ → Option ℕ × Reader
  read_uint r n = behind (λ next. read_uint_part next n) (read_field r n)

  unfoldable pub read_bool : Reader → ℕ → Option Bool × Reader
  read_bool r n = behind (λ next. bool_of n (read_uint_part next n)) (read_field r n)

  -- `ReadBytes`, and `ReadString` of the string's bytes.
  unfoldable pub read_bytes : Reader → ℕ → Option (Option Bytes) × Reader
  read_bytes r n = behind (λ next. read_sized n (read_uint_part next n)) (read_field r n)

  unfoldable pub read_value {ℓ} :
      {A : Type ℓ} → Reader → ℕ → (Option Bytes → Option A) → Option A × Reader
  read_value r n unmarshal = value_of n unmarshal (read_bytes r n)

-- `Reset`: the fields seen and the error. The field's name in the error is not modelled.
unfoldable pub reset_reader : Reader → List Bool × Option String × Reader
reset_reader r = (r.seen, r.error, record r { seen = []; last = 0; error = none })
