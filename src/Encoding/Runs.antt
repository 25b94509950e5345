-- ===== src/Encoding/Runs.antt =====
-- Runs of the encoding, with varints that are written out.
use accumulate.Common.{
  ℕ, zero, suc, ◌+◌, ◌-◌, ◌*◌, ◌/◌, ◌%◌, ◌≤◌, ◌<◌, ◌≡◌, ◌⊎◌, inl, inr, refl, ap, [], ◌∷◌, ◌++◌,
  none, some, true, false, ltb, if◌then◌else◌, length, arith, replicate, Bool-cases,
}
use accumulate.Common.Bytes.{Bytes}
use accumulate.Merkle.Receipt.{Receipt}
use accumulate.Encoding.Varint.{Varint, IsVarint, VarintRead, value, end_of_input, malformed}
use accumulate.Encoding.Writer.{new_writer, write_bytes, bytes_of, max_value_size}
use accumulate.Encoding.Reader.{Reader, new_reader, read_field, read_bytes}
use accumulate.Encoding.Fields.{field, IsNumber, encode, bytes_payload}
use accumulate.Encoding.Reading.{Place, At}
use accumulate.Encoding.Receipts.{marshal_receipt, unmarshal_receipt}
use accumulate.Encoding.ReceiptTrip.{IsReceipt, marshal_receipt-unmarshal_receipt}
use accumulate.Encoding.Limits.{write_bytes-read_bytes}
use accumulate.Encoding.Failures.{Silent, Mute, write_bytes-Silent, read_field-Mute}

-- Groups of seven bits from the lowest on; all but the last have 128 added.
unfoldable put : ℕ → ℕ → Bytes
put zero x = x ∷ []
put (suc k) x = let rest = put k (x / 128) in if ltb x 128 then x ∷ [] else (x % 128 + 128) ∷ rest

unfoldable join_group : ℕ → VarintRead × Bytes → VarintRead × Bytes
join_group b (value y, rest) = (value (b - 128 + 128 * y), rest)
join_group b (end_of_input, rest) = (malformed, rest)
join_group b (malformed, rest) = (malformed, rest)

unfoldable get : Bytes → VarintRead × Bytes
unfolding join_group
get [] = (end_of_input, [])
get (b ∷ bs) = let rest = get bs in if ltb b 128 then (value b, bs) else join_group b rest

-- The number has at most `k + 1` groups.
abbrev HasGroups : ℕ → ℕ → Type 0
HasGroups zero x = x < 128
HasGroups (suc k) x = HasGroups k (x / 128)

get-put :
    (k x : ℕ) (rest : Bytes) → HasGroups k x → get (put k x ++ rest) ≡ (VarintRead.value x, rest)
unfolding put get
get-put zero x rest h = let small : ltb x 128 ≡ true = ground arith in rw small refl
get-put (suc k) x rest h = elim (Bool-cases (ltb x 128)) [
  | inl t ↦ rw t (rw t refl)
  | inr f ↦
      let large : ltb (x % 128 + 128) 128 ≡ false = ground arith in
      let whole : x % 128 + 128 - 128 + 128 * (x / 128) ≡ x = omega arith in
      rw (f, large, get-put k (x / 128) rest h) (unfold join_group in rw whole refl)
]

length-put : (k x : ℕ) → length (put k x) ≤ suc k
unfolding put
length-put zero x = omega arith
length-put (suc k) x = elim (Bool-cases (ltb x 128)) [
  | inl t ↦ rw t (omega arith)
  | inr f ↦ rw f (omega (arith, length-put k (x / 128)))
]

put-small : (k x : ℕ) → x < 128 → put k x ≡ x ∷ []
unfolding put
put-small zero x h = refl
put-small (suc k) x h = let small : ltb x 128 ≡ true = ground arith in rw small refl

abbrev groups : Varint
groups = record {
  put_uvarint = λ x. put 9 x;
  read_uvarint = λ b. get b;
  put_varint = λ x. put 9 x;
  read_varint = λ b. get b;
}

groups-IsVarint : IsVarint groups
groups-IsVarint = record {
  read_uvarint-put_uvarint = λ x rest h. get-put 9 x rest (omega arith);
  read_varint-put_varint = λ x rest h. get-put 9 x rest (omega arith);
  put_uvarint-small = λ x h. put-small 9 x h;
  length-put_uvarint = λ x h. length-put 9 x;
  read_uvarint-empty = unfold get in refl;
}

abbrev sample : Receipt
sample = record {
  start = some (1 ∷ 2 ∷ []);
  start_index = 0;
  end = none;
  end_index = 300;
  anchor = some (replicate 32 7);
  entries =
      record { right = false; hash = none }
      ∷ record { right = true; hash = some (replicate 32 9) }
      ∷ [];
}

sample-IsReceipt : IsReceipt sample
sample-IsReceipt = record {
  start_ok = ((λ e. cc), omega arith);
  start_index_ok = omega arith;
  end_ok = ((λ e. cc), omega arith);
  end_index_ok = omega arith;
  anchor_ok = ((λ e. cc), omega arith);
  entries_ok =
      ((((λ e. cc), omega arith), omega arith), ((((λ e. cc), omega arith), omega arith), tt));
}

marshal_receipt-unmarshal_receipt_example :
    (b : Bytes) × (marshal_receipt groups sample ≡ (some b, none))
    × (unmarshal_receipt groups b ≡ some sample)
marshal_receipt-unmarshal_receipt_example =
    marshal_receipt-unmarshal_receipt groups groups-IsVarint sample sample-IsReceipt

write_bytes-Silent_example :
    (33 < 1 ⊎ 32 < 33
      → (write_bytes groups new_writer 33 none
          ≡ record new_writer { last = 33; error = some "field number is invalid" })
        × Silent groups (write_bytes groups new_writer 33 none))
    × (IsNumber 33
        → max_value_size < length (bytes_of none)
        → ((write_bytes groups new_writer 33 none).out
            ≡ [] ++ 33 ∷ groups.put_uvarint (length (bytes_of none)))
          × ((write_bytes groups new_writer 33 none).error
              ≡ some "failed to write field: too large")
          × Silent groups (write_bytes groups new_writer 33 none))
write_bytes-Silent_example = write_bytes-Silent groups groups-IsVarint new_writer 33 none refl

abbrev reader : Reader
reader = new_reader (1 ∷ 5 ∷ [])

reader-At : At reader (field 1 (5 ∷ []) ∷ [])
reader-At = record {
  ok = refl;
  numbers = ((omega arith, omega arith), tt);
  place = Place.before refl (unfold encode in refl);
}

read_field-Mute_example :
    (next : Reader) × (read_field groups reader 2 ≡ (false, next))
    × (next.error ≡ some "fields are out of order")
    × Mute groups next
read_field-Mute_example =
    read_field-Mute groups groups-IsVarint reader 2 (field 1 (5 ∷ [])) [] (omega arith, omega arith)
      (omega arith) reader-At

-- Zeros, as many as are asked for.
zeros : (n : ℕ) → (b : Bytes) × (length b ≡ n)
zeros zero = ([], refl)
zeros (suc n) = let (b, h) = zeros n in (0 ∷ b, ap suc h)

largest : (b : Bytes) × (length b ≡ max_value_size)
largest = zeros max_value_size

abbrev large_reader : Reader
large_reader = new_reader (encode (field 1 (bytes_payload groups (some largest.0)) ∷ []))

large_reader-At : At large_reader (field 1 (bytes_payload groups (some largest.0)) ∷ [])
large_reader-At = record {
  ok = refl;
  numbers = ((omega arith, omega arith), tt);
  place = Place.before refl refl;
}

write_bytes-read_bytes_example :
    ((write_bytes groups new_writer 1 (some largest.0)).error ≡ none)
    × (next : Reader) × (read_bytes groups large_reader 1 ≡ (none, next))
    × (next.error ≡ some "failed to read field: too big")
write_bytes-read_bytes_example =
    write_bytes-read_bytes groups groups-IsVarint new_writer large_reader 1 (some largest.0) []
      (omega arith, omega arith) largest.1 refl large_reader-At
