-- ===== src/Encoding/Written.antt =====
-- What the methods of a writer add to its buffer.
use accumulate.Common.{
  ℕ, ◌+◌, ◌≤◌, ◌≡◌, refl, ap, sym, ◌∙◌, inl, inr, List, [], ◌∷◌, ◌++◌, Option, none, some, Bool,
  true, false, ◌||◌, ◌==◌, ltb, length, length-append, arith, Bool-cases,
}
use mathlib.Core.List.{append_assoc, append-nil}
use accumulate.Common.Bytes.{Bytes}
use accumulate.Encoding.Varint.{Varint, IsVarint}
use accumulate.Encoding.Writer.{
  Writer, new_writer, bytes_of, emit, unless_failed, write_field, write_uint_part, write_int_part,
  write_raw, write_bytes, write_int, write_bool, reset_writer, max_value_size, empty_object,
}
use accumulate.Encoding.Fields.{
  Field, field, IsNumber, encode, encode-append, bytes_payload, bytes_field, int_field, bool_field,
}
use accumulate.Encoding.Receipts.{write_bytes_field, write_int_field, write_bool_field, marshalled}

-- A writer without an error has written `b` since it was `w`.
pub record Appends (w next : Writer) (b : Bytes) : Type 0 where
  pub ok : next.error ≡ none
  pub out_eq : next.out ≡ w.out ++ b
  pub written_eq : next.written ≡ w.written + length b

emit-Appends : (w : Writer) (n : ℕ) (b : Bytes) → w.error ≡ none → Appends w (emit w n b) b
unfolding emit
emit-Appends w n b e = record { ok = e; out_eq = refl; written_eq = refl }

pub Appends-trans :
    {u w x : Writer} {a b : Bytes} → Appends u w a → Appends w x b → Appends u x (a ++ b)
Appends-trans {u} {w} {x} {a} {b} p q = record {
  ok = q.ok;
  out_eq = q.out_eq ∙ ap (λ o. o ++ b) p.out_eq ∙ append_assoc u.out a b;
  written_eq = omega (arith, q.written_eq, p.written_eq, length-append a b);
}

pub unless_failed-ok : (w next : Writer) → w.error ≡ none → unless_failed w next ≡ next
unfolding unless_failed
unless_failed-ok w next e = rw (unless_failed, e) refl

module _ (v : Varint) (is : IsVarint v) where
  pub write_field-Appends :
      (w : Writer) (n : ℕ) → w.error ≡ none → IsNumber n → Appends w (write_field v w n) (n ∷ [])
  unfolding write_field
  write_field-Appends w n e (lo, hi) =
      let good : (ltb n 1 || ltb 32 n) ≡ false = ground arith in
      let small = is.put_uvarint-small n (omega arith) in
      rw (write_field, good, small, unless_failed-ok w _ e) (emit-Appends w n (n ∷ []) e)

  pub write_uint_part-Appends :
      (w : Writer) (n x : ℕ)
      → w.error ≡ none
      → Appends w (write_uint_part v w n x) (v.put_uvarint x)
  unfolding write_uint_part
  write_uint_part-Appends w n x e =
      rw (unless_failed-ok w _ e) (emit-Appends w n (v.put_uvarint x) e)

  write_int_part-Appends :
      (w : Writer) (n x : ℕ) → w.error ≡ none → Appends w (write_int_part v w n x) (v.put_varint x)
  unfolding write_int_part
  write_int_part-Appends w n x e = rw (unless_failed-ok w _ e) (emit-Appends w n (v.put_varint x) e)

  write_raw-Appends :
      (w : Writer) (n : ℕ) (b : Bytes)
      → w.error ≡ none
      → length b ≤ max_value_size
      → Appends w (write_raw w n b) b
  unfolding write_raw
  write_raw-Appends w n b e fits =
      let small : ltb max_value_size (length b) ≡ false = ground (arith, fits) in
      rw (small, unless_failed-ok w _ e) (emit-Appends w n b e)

  -- A field behind its number.
  pub write_bytes-Appends :
      (w : Writer) (n : ℕ) (b : Option Bytes)
      → w.error ≡ none
      → IsNumber n
      → length (bytes_of b) ≤ max_value_size
      → Appends w (write_bytes v w n b) (n ∷ bytes_payload v b)
  unfolding write_bytes bytes_payload
  write_bytes-Appends w n b e number fits =
      let one = write_field-Appends w n e number in
      let two = write_uint_part-Appends (write_field v w n) n (length (bytes_of b)) one.ok in
      Appends-trans one (Appends-trans two (write_raw-Appends _ n (bytes_of b) two.ok fits))

-- An object's bytes: those of its fields, or one byte where it has none.
unfoldable pub object : List Field → Bytes
object [] = empty_object ∷ []
object (f ∷ fs) = encode (f ∷ fs)

-- A writer without an error whose buffer holds these fields.
pub record Wrote (w : Writer) (fs : List Field) : Type 0 where
  pub ok : w.error ≡ none
  pub out_eq : w.out ≡ encode fs
  pub written_eq : w.written ≡ length (encode fs)

pub new_writer-Wrote : Wrote new_writer []
unfolding encode
new_writer-Wrote = record { ok = refl; out_eq = refl; written_eq = refl }

Wrote-more :
    {w next : Writer} {fs : List Field} (n : ℕ) (p : Bytes)
    → Wrote w fs
    → Appends w next (n ∷ p)
    → Wrote next (fs ++ field n p ∷ [])
unfolding encode
Wrote-more {w} {next} {fs} n p before after =
    let all : encode (fs ++ field n p ∷ []) ≡ encode fs ++ n ∷ p =
      encode-append fs (field n p ∷ []) ∙ ap (λ t. encode fs ++ n ∷ t) (append-nil p) in
    record {
      ok = after.ok;
      out_eq = after.out_eq ∙ ap (λ o. o ++ n ∷ p) before.out_eq ∙ sym all;
      written_eq = omega (
        arith,
        after.written_eq,
        before.written_eq,
        ap length all,
        length-append (encode fs) (n ∷ p),
      );
    }

Wrote-none : {w : Writer} {fs : List Field} → Wrote w fs → Wrote w (fs ++ [])
Wrote-none {w} {fs} h = rw append-nil h

module _ (v : Varint) (is : IsVarint v) where
  pub write_bytes-Wrote :
      (w : Writer) (fs : List Field) (n : ℕ) (b : Option Bytes)
      → Wrote w fs
      → IsNumber n
      → length (bytes_of b) ≤ max_value_size
      → Wrote (write_bytes v w n b) (fs ++ field n (bytes_payload v b) ∷ [])
  write_bytes-Wrote w fs n b h number fits =
      Wrote-more n (bytes_payload v b) h (write_bytes-Appends v is w n b h.ok number fits)

  -- A field that is left out where it has the zero value.
  pub write_bytes_field-Wrote :
      (w : Writer) (fs : List Field) (n : ℕ) (b : Option Bytes)
      → Wrote w fs
      → IsNumber n
      → length (bytes_of b) ≤ max_value_size
      → Wrote (write_bytes_field v w n b) (fs ++ bytes_field v n b)
  unfolding write_bytes_field bytes_field
  write_bytes_field-Wrote w fs n b h number fits = elim (Bool-cases (length (bytes_of b) == 0)) [
    | inl t ↦ rw t (Wrote-none h)
    | inr f ↦ rw f (write_bytes-Wrote w fs n b h number fits)
  ]

  pub write_int_field-Wrote :
      (w : Writer) (fs : List Field) (n x : ℕ)
      → Wrote w fs
      → IsNumber n
      → Wrote (write_int_field v w n x) (fs ++ int_field v n x)
  unfolding write_int_field write_int int_field
  write_int_field-Wrote w fs n x h number = elim (Bool-cases (x == 0)) [
    | inl t ↦ rw t (Wrote-none h)
    | inr f ↦
        let one = write_field-Appends v is w n h.ok number in
        rw f (
          Wrote-more n (v.put_varint x) h
            (Appends-trans one (write_int_part-Appends v is (write_field v w n) n x one.ok)))
  ]

  pub write_bool_field-Wrote :
      (w : Writer) (fs : List Field) (n : ℕ) (b : Bool)
      → Wrote w fs
      → IsNumber n
      → Wrote (write_bool_field v w n b) (fs ++ bool_field v n b)
  unfolding write_bool_field write_bool bool_field
  write_bool_field-Wrote w fs n false h number = Wrote-none h
  write_bool_field-Wrote w fs n true h number =
      let one = write_field-Appends v is w n h.ok number in
      let two = write_uint_part-Appends v is (write_field v w n) n 1 one.ok in
      Wrote-more n (1 ∷ []) h (Appends-trans one (rw (is.put_uvarint-small 1 (omega arith)) at two))

  -- The bytes of an object: those of its fields, or the byte for an object without fields.
  pub reset_writer-Wrote :
      (w : Writer) (fs : List Field)
      → Wrote w fs
      → marshalled (reset_writer w) ≡ (some (object fs), none)
  unfolding marshalled reset_writer emit encode object
  reset_writer-Wrote w [] h =
      let z : (w.written == 0) ≡ true = ground (arith, h.written_eq) in
      rw (reset_writer, z, h.ok, h.out_eq) refl
  reset_writer-Wrote w (f ∷ fs) h =
      let z : (w.written == 0) ≡ false = ground (arith, h.written_eq) in
      rw (reset_writer, z, h.ok, h.out_eq) refl
