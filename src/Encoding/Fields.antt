-- ===== src/Encoding/Fields.antt =====
-- The bytes of numbered fields, one after the other.
use accumulate.Common.{
  ℕ, ◌≤◌, ◌≡◌, refl, ap, List, [], ◌∷◌, ◌++◌, Option, Bool, length, ◌==◌, if◌then◌else◌, ◌∙◌, sym,
}
use mathlib.Core.List.{append_assoc}
use accumulate.Common.Bytes.{Bytes}
use accumulate.Encoding.Varint.{Varint}
use accumulate.Encoding.Writer.{bytes_of}

-- A field's number and the bytes behind it.
pub record Field : Type 0 where
  pub number : ℕ
  pub payload : Bytes

abbrev pub field : ℕ → Bytes → Field
field n p = record { number = n; payload = p }

-- Its number is one of 1 to 32, so it is written as one byte.
abbrev pub IsNumber : ℕ → Type 0
IsNumber n = (1 ≤ n) × (n ≤ 32)

unfoldable pub encode : List Field → Bytes
encode [] = []
encode (f ∷ fs) = f.number ∷ f.payload ++ encode fs

pub encode-append : (fs gs : List Field) → encode (fs ++ gs) ≡ encode fs ++ encode gs
unfolding encode
encode-append [] gs = refl
encode-append (f ∷ fs) gs =
    ap (λ b. f.number ∷ b)
      (ap (λ t. f.payload ++ t) (encode-append fs gs)
        ∙ sym (append_assoc f.payload (encode fs) (encode gs)))

module _ (v : Varint) where
  -- The payload of a byte string: its length and its bytes.
  unfoldable pub bytes_payload : Option Bytes → Bytes
  bytes_payload b = v.put_uvarint (length (bytes_of b)) ++ bytes_of b

  -- The field of a byte string that is left out where it is empty, of a number where it is 0, and of a
  -- Boolean where it is false.
  unfoldable pub bytes_field : ℕ → Option Bytes → List Field
  bytes_field n b = if length (bytes_of b) == 0 then [] else field n (bytes_payload b) ∷ []

  unfoldable pub int_field : ℕ → ℕ → List Field
  int_field n x = if x == 0 then [] else field n (v.put_varint x) ∷ []

  unfoldable pub bool_field : ℕ → Bool → List Field
  bool_field n b = if b then field n (1 ∷ []) ∷ [] else []
