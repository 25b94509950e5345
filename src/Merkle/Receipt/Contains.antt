-- ===== src/Merkle/Receipt/Contains.antt =====
-- Containment of one receipt's path in another's.
use accumulate.Common.{ℕ, zero, suc, take, List, [], ◌∷◌, ◌++◌, Option, some, true, ◌≡◌, refl, ap}
use accumulate.Common.{arith, ◌∙◌, Bool-cases, Option-cases, inl, inr, length}
use accumulate.Common.Bytes.{Bytes, equal_bytes→eq}
use accumulate.Merkle.Hash.{Hash, bytes, equal}
use accumulate.Merkle.Receipt.{Receipt, ReceiptEntry, apply, follow, meet, walk, contains}
use accumulate.Merkle.Receipt.Combine.{follow-append}

module _ (sum : Bytes → Bytes) where
  -- What `meet` leaves is the rest of the path after a prefix, at the hash of that prefix.
  meet-prefix :
      (ns : List ReceiptEntry) (self other : Hash) (rest : List ReceiptEntry) (at : Hash)
      → meet sum ns self other ≡ some (rest, at)
      → (pre : List ReceiptEntry) × (ns ≡ pre ++ rest)
        × (at ≡ follow sum pre self)
        × (bytes at ≡ bytes other)
  unfolding meet follow
  meet-prefix [] self other rest at h = elim (Bool-cases (equal self other)) [
    | inl e ↦
        (let found : ◌≡◌ {A = Option (List ReceiptEntry × Hash)} (some ([], self))
              (some (rest, at)) =
            rw e at h in
          ([], cc, cc, cc (equal_bytes→eq _ _ e)))
    | inr e ↦ ground (arith, e)
  ]
  meet-prefix (n ∷ ns) self other rest at h = elim (Bool-cases (equal self other)) [
    | inl e ↦
        (let found : ◌≡◌ {A = Option (List ReceiptEntry × Hash)} (some (n ∷ ns, self))
              (some (rest, at)) =
            rw e at h in
          ([], cc, cc, cc (equal_bytes→eq _ _ e)))
    | inr e ↦
        (let (pre, split, here, same) =
            meet-prefix ns (apply sum n self) other rest at (rw e at h) in
          (n ∷ pre, ap (λ t. n ∷ t) split, here, same))
  ]

  -- One step more in front of two paths.
  stretch :
      (n o : ReceiptEntry) (mid os : List ReceiptEntry) (self other : Hash)
      → bytes self ≡ bytes other
      → ((i : ℕ)
          → bytes (follow sum (take i mid) (apply sum n self))
            ≡ bytes (follow sum (take i os) (apply sum o other)))
      → (i : ℕ)
      → bytes (follow sum (take i (n ∷ mid)) self) ≡ bytes (follow sum (take i (o ∷ os)) other)
  unfolding follow
  stretch n o mid os self other e along zero = e
  stretch n o mid os self other e along (suc i) = along i

  walk-ends :
      (ns os : List ReceiptEntry) (self other : Hash)
      → bytes self ≡ bytes other
      → walk sum ns os self other ≡ true
      → (mid post : List ReceiptEntry) × (ns ≡ mid ++ post)
        × (length mid ≡ length os)
        × ((i : ℕ) → bytes (follow sum (take i mid) self) ≡ bytes (follow sum (take i os) other))
  unfolding walk follow
  walk-ends ns [] self other e h = ([], ns, refl, refl, nothing)
    where
      nothing : (i : ℕ) → bytes (follow sum (take i []) self) ≡ bytes (follow sum (take i []) other)
      nothing zero = e
      nothing (suc i) = e
  walk-ends [] (o ∷ os) self other e h = cc
  walk-ends (n ∷ ns) (o ∷ os) self other e h =
      elim (Bool-cases (equal (apply sum n self) (apply sum o other))) [
        | inl same ↦
            (let (mid, post, split, count, along) =
                walk-ends ns os (apply sum n self) (apply sum o other) (equal_bytes→eq _ _ same)
                  (rw same at h) in
              (
                n ∷ mid,
                post,
                ap (λ t. n ∷ t) split,
                ap suc count,
                stretch n o mid os self other e along,
              ))
        | inr other_ ↦ ground (arith, other_)
      ]

  -- The path of `r` has a stretch, as long as the path of `other`, that begins at the start of
  -- `other` and has, after each step, the hash that the path of `other` has after as many steps.
  pub record PassesThrough (r other : Receipt) : Type 0 where
    pub pre : List ReceiptEntry
    pub mid : List ReceiptEntry
    pub post : List ReceiptEntry
    pub split : r.entries ≡ pre ++ (mid ++ post)
    pub count : length mid ≡ length other.entries
    pub begins : bytes (follow sum pre r.start) ≡ bytes other.start
    pub along :
        (i : ℕ)
        → bytes (follow sum (pre ++ take i mid) r.start)
          ≡ bytes (follow sum (take i other.entries) other.start)

  -- Where `Contains` holds, the path of the first receipt passes through that of the second: it has a
  -- stretch of the same length that begins at the second's start and has the same hash after each step.
  pub contains-PassesThrough :
      (r other : Receipt) → contains sum r other ≡ true → PassesThrough r other
  unfolding contains
  contains-PassesThrough r other h = elim (Option-cases (meet sum r.entries r.start other.start)) [
    | inl missing ↦ absurd (cc (rw missing at h))
    | inr ((rest, at), met) ↦
        (let (pre, split, here, same) = meet-prefix r.entries r.start other.start rest at met in
          let (mid, post, split', count, along) =
            walk-ends rest other.entries at other.start same (rw met at h) in
          record {
            pre = pre;
            mid = mid;
            post = post;
            split = split ∙ ap (λ t. pre ++ t) split';
            count = count;
            begins = cc (ap bytes here);
            along =
                λ i. ap bytes (follow-append sum pre (take i mid) r.start) ∙ rw (← here) (along i);
          })
  ]
