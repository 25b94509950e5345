-- ===== src/Merkle/Receipt/Combine.antt =====
-- Combining receipts joins their paths.
use accumulate.Common.{List, [], ◌∷◌, ◌++◌, true, ◌≡◌, refl, ap}
use accumulate.Common.{arith, ◌∙◌, Bool-cases, All, inl, inr}
use accumulate.Common.Outcome.{ok, >>=-ok}
use accumulate.Common.Bytes.{Bytes, equal_bytes→eq, equal_bytes_refl}
use accumulate.Merkle.Hash.{Hash, bytes, equal}
use accumulate.Merkle.Receipt.{
  Receipt, ReceiptEntry, apply, follow, validate, combine_with, combine_from, combine_receipts,
}

module _ (sum : Bytes → Bytes) where
  pub follow-append :
      (ns ms : List ReceiptEntry) (h : Hash)
      → follow sum (ns ++ ms) h ≡ follow sum ms (follow sum ns h)
  unfolding follow
  follow-append [] ms h = refl
  follow-append (n ∷ ns) ms h = follow-append ns ms (apply sum n h)

  -- An entry sees only the content of a hash, which nil shares with the empty slice.
  apply-bytes : (n : ReceiptEntry) (g h : Hash) → bytes g ≡ bytes h → apply sum n g ≡ apply sum n h
  unfolding apply
  apply-bytes n g h e = rw e refl

  pub follow-bytes :
      (ns : List ReceiptEntry) (g h : Hash)
      → bytes g ≡ bytes h
      → bytes (follow sum ns g) ≡ bytes (follow sum ns h)
  unfolding follow
  follow-bytes [] g h e = e
  follow-bytes (n ∷ ns) g h e = rw (apply-bytes n g h e) refl

  pub validate→bytes :
      (r : Receipt) → validate sum r ≡ true → bytes (follow sum r.entries r.start) ≡ bytes r.anchor
  unfolding validate
  validate→bytes r h = equal_bytes→eq _ _ h

  pub bytes→validate :
      (r : Receipt) → bytes (follow sum r.entries r.start) ≡ bytes r.anchor → validate sum r ≡ true
  unfolding validate
  bytes→validate r e = rw e (equal_bytes_refl (bytes r.anchor))

  combine_with-validate :
      (r rm c : Receipt)
      → validate sum r ≡ true
      → validate sum rm ≡ true
      → combine_with r rm ≡ ok c
      → (validate sum c ≡ true) × (c.start ≡ r.start) × (c.anchor ≡ rm.anchor)
  unfolding combine_with
  combine_with-validate r rm c v w h = elim (Bool-cases (equal r.anchor rm.start)) [
    | inr other ↦ ground (arith, other)
    | inl same ↦
        (let meets : bytes r.anchor ≡ bytes rm.start = equal_bytes→eq _ _ same in
          let joined : Receipt = record r {
            anchor = rm.anchor;
            entries = r.entries ++ rm.entries;
          } in
          let made : ok joined ≡ ok c = rw (same, combine_with) at h in
          let ends : bytes (follow sum (r.entries ++ rm.entries) r.start) ≡ bytes rm.anchor =
            ap bytes (follow-append r.entries rm.entries r.start)
            ∙ follow-bytes rm.entries (follow sum r.entries r.start) rm.start
                (validate→bytes r v ∙ meets)
            ∙ validate→bytes rm w in
          let eq : joined ≡ c = cc in rw (← eq) (bytes→validate joined ends, refl, refl))
  ]

  abbrev AllValid : List Receipt → Type 0
  AllValid = All (λ r. validate sum r ≡ true)

  combine_from-validate :
      (r : Receipt) (rs : List Receipt) (c : Receipt)
      → validate sum r ≡ true
      → AllValid rs
      → combine_from r rs ≡ ok c
      → (validate sum c ≡ true) × (c.start ≡ r.start)
  unfolding combine_from
  combine_from-validate r [] c v w h = let e : r ≡ c = cc in rw (← e) (v, refl)
  combine_from-validate r (s ∷ ss) c v w h =
      let (t, first, rest) = >>=-ok (λ t. combine_from t ss) (combine_with r s) _ h in
      let good = combine_with-validate r s t v w.0 first in
      let tail = combine_from-validate t ss c good.0 w.1 rest in (tail.0, tail.1 ∙ good.1)

  -- Whatever `CombineReceipts` makes of valid receipts is valid, and starts where the first does.
  pub combine_receipts-validate :
      (r : Receipt) (rs : List Receipt) (c : Receipt)
      → AllValid (r ∷ rs)
      → combine_receipts (r ∷ rs) ≡ ok c
      → (validate sum c ≡ true) × (c.start ≡ r.start)
  unfolding combine_receipts
  combine_receipts-validate r rs c v h = combine_from-validate r rs c v.0 v.1 h
