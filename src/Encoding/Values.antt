-- ===== src/Encoding/Values.antt =====
-- What a reader's methods return for the fields that a writer's have written.
use accumulate.Common.{
  ℕ, suc, ◌^◌, ◌≤◌, ◌<◌, ◌≡◌, ◌≢◌, refl, ap, ◌∙◌, [], ◌∷◌, ◌++◌, Option, none, some, false, ◌==◌,
  ltb, leb, length, take, drop, arith, take-append, drop-append, length-append,
}
use accumulate.Common.Bytes.{Bytes}
use accumulate.Encoding.Varint.{Varint, IsVarint}
use accumulate.Encoding.Writer.{bytes_of, max_value_size}
use accumulate.Encoding.Reader.{
  Reader, did_read, read_result, read_uint_part, read_int_part, read_raw,
}

did_read-ok :
    (r next : Reader) (n : ℕ)
    → r.error ≡ none
    → record r { last = n; error = none } ≡ next
    → did_read r n none ≡ next
unfolding did_read
did_read-ok r next n ok h = rw (did_read, ok) h

module _ (v : Varint) (is : IsVarint v) where
  -- A reader behind a field number: it has no error, and the payload and the rest are left.
  pub record Behind (r : Reader) (b : Bytes) : Type 0 where
    pub ok : r.error ≡ none
    pub current_eq : r.current ≡ 0
    pub input_eq : r.input ≡ b

  pub Behind-did_read : (r : Reader) (n : ℕ) (b : Bytes) → Behind r b → Behind (did_read r n none) b
  Behind-did_read r n b h =
      rw (did_read-ok r _ n h.ok refl)
        (record { ok = refl; current_eq = h.current_eq; input_eq = h.input_eq })

  read_uint_part-ok :
      (r : Reader) (n : ℕ) (out : Option ℕ × Reader)
      → r.error ≡ none
      → read_result r n (v.read_uvarint r.input) ≡ out
      → read_uint_part v r n ≡ out
  unfolding read_uint_part
  read_uint_part-ok r n out ok h = rw (read_uint_part, ok) h

  read_int_part-ok :
      (r : Reader) (n : ℕ) (out : Option ℕ × Reader)
      → r.error ≡ none
      → read_result r n (v.read_varint r.input) ≡ out
      → read_int_part v r n ≡ out
  unfolding read_int_part
  read_int_part-ok r n out ok h = rw (read_int_part, ok) h

  after_value :
      (r : Reader) (n : ℕ) (b rest : Bytes)
      → Behind r b
      → Behind (did_read (record r { input = rest }) n none) rest
  after_value r n b rest h =
      Behind-did_read (record r { input = rest }) n rest
        (record { ok = h.ok; current_eq = h.current_eq; input_eq = refl })

  pub read_uint_part-Behind :
      (r : Reader) (n x : ℕ) (rest : Bytes)
      → x < 2 ^ 64
      → Behind r (v.put_uvarint x ++ rest)
      → (next : Reader) × (read_uint_part v r n ≡ (some x, next)) × Behind next rest
  unfolding read_result
  read_uint_part-Behind r n x rest small h = (
    did_read (record r { input = rest }) n none,
    read_uint_part-ok r n _ h.ok (
        ap (read_result r n)
          (ap v.read_uvarint h.input_eq ∙ is.read_uvarint-put_uvarint x rest small)),
    after_value r n _ rest h,
  )

  pub read_int_part-Behind :
      (r : Reader) (n x : ℕ) (rest : Bytes)
      → x < 2 ^ 64
      → Behind r (v.put_varint x ++ rest)
      → (next : Reader) × (read_int_part v r n ≡ (some x, next)) × Behind next rest
  unfolding read_result
  read_int_part-Behind r n x rest small h = (
    did_read (record r { input = rest }) n none,
    read_int_part-ok r n _ h.ok (
        ap (read_result r n)
          (ap v.read_varint h.input_eq ∙ is.read_varint-put_varint x rest small)),
    after_value r n _ rest h,
  )

  read_raw-nil :
      (r : Reader) (n : ℕ) (out : Option (Option Bytes) × Reader)
      → r.error ≡ none
      → (some none, r) ≡ out
      → read_raw r n 0 ≡ out
  unfolding read_raw
  read_raw-nil r n out ok h = rw (read_raw, ok) h

  read_raw-some :
      (r : Reader) (n k : ℕ) (out : Option (Option Bytes) × Reader)
      → r.error ≡ none
      → 0 < k
      → k < max_value_size
      → k ≤ length r.input
      → (some (some (take k r.input)), did_read (record r { input = drop k r.input }) n none) ≡ out
      → read_raw r n k ≡ out
  unfolding read_raw
  read_raw-some r n k out ok pos small fits h =
      let some_ : (k == 0) ≡ false = ground arith in
      let enough : ltb (length r.input) k ≡ false = ground arith in
      let low : leb max_value_size k ≡ false = ground arith in
      rw (read_raw, ok, some_, enough, low) h

  -- The bytes of a slice that was not written as nil, or nil.
  pub read_raw-Behind :
      (r : Reader) (n : ℕ) (b : Option Bytes) (rest : Bytes)
      → (b ≢ some [])
      → length (bytes_of b) < max_value_size
      → Behind r (bytes_of b ++ rest)
      → (next : Reader) × (read_raw r n (length (bytes_of b)) ≡ (some b, next)) × Behind next rest
  read_raw-Behind r n none rest kept small h = (r, nil r h.ok, h)
    where
      nil : (r : Reader) → r.error ≡ none → read_raw r n 0 ≡ (some none, r)
      nil r ok = read_raw-nil r n _ ok refl
  read_raw-Behind r n (some []) rest kept small h = absurd (kept refl)
  read_raw-Behind r n (some (x ∷ b)) rest kept small h =
      let size = length-append (x ∷ b) rest in
      let first =
        ap (take (suc (length b))) h.input_eq ∙ take-append (suc (length b)) (x ∷ b) rest refl in
      let others =
        ap (drop (suc (length b))) h.input_eq ∙ drop-append (suc (length b)) (x ∷ b) rest refl in
      (
        did_read (record r { input = rest }) n none,
        read_raw-some r n (suc (length b)) _ h.ok (omega arith) small
            (omega (arith, ap length h.input_eq, size)) (rw (first, others) refl),
        after_value r n _ rest h,
      )
