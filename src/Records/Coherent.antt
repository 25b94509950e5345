-- ===== src/Records/Coherent.antt =====
-- What a value that is not dirty holds is what there is around it, so that loading cannot be seen.
use accumulate.Common.{
  ℕ, zero, suc, ◌≡◌, refl, ap, sym, ◌∙◌, List, [], ◌∷◌, Option, Bool, true, false, if◌then◌else◌,
  drop,
}
use accumulate.Common.Bytes.{Bytes}
use accumulate.Records.{
  Status, undefined, not_found, clean, dirty, Got, got, missing, failed, Value, Codec, kv_get,
  loaded, get, is_dirty,
}

module _ {A : Type 0} (codec : Codec A) where
  -- A missing value is the fresh one where that is allowed.
  unfoldable pub or_fresh : Bool → Got A → Got A
  or_fresh allow (got x) = got x
  or_fresh allow (failed e) = failed e
  or_fresh true missing = got codec.fresh
  or_fresh false missing = missing

  -- The value that the batches' own writes and the store make: the innermost write, else what is
  -- stored. It looks at no loaded value.
  unfoldable pub contents : List (Value A) → Option Bytes → Got A
  unfolding or_fresh
  contents [] kv = kv_get codec kv
  contents (v ∷ vs) kv =
      let below = contents vs kv in
      if is_dirty codec v then got v.value else or_fresh v.allow_missing below

  abbrev Agrees : Value A → Got A → Status → Type 0
  Agrees v below undefined = Unit
  Agrees v below dirty = Unit
  Agrees v below clean = or_fresh v.allow_missing below ≡ got v.value
  Agrees v below not_found = or_fresh v.allow_missing below ≡ missing

  -- Each value that was loaded is what there is around it.
  unfoldable pub IsCoherent : List (Value A) → Option Bytes → Type 0
  IsCoherent [] kv = Unit
  IsCoherent (v ∷ vs) kv = Agrees v (contents vs kv) v.status × IsCoherent vs kv

  -- The same writes: the contents of each batch are those of another stack.
  unfoldable pub SameContents : List (Value A) → List (Value A) → Option Bytes → Type 0
  SameContents vs ws kv = (n : ℕ) → contents (drop n vs) kv ≡ contents (drop n ws) kv

  -- What a call of `Get` gives: the contents, and a stack that is coherent and has the same writes.
  unfoldable pub IsGot : Got A × List (Value A) → List (Value A) → Option Bytes → Type 0
  IsGot (r, ws) vs kv = (r ≡ contents vs kv) × IsCoherent ws kv × SameContents ws vs kv

  SameContents-cons :
      (w v : Value A) (ws vs : List (Value A)) (kv : Option Bytes)
      → contents (w ∷ ws) kv ≡ contents (v ∷ vs) kv
      → SameContents ws vs kv
      → SameContents (w ∷ ws) (v ∷ vs) kv
  unfolding SameContents
  SameContents-cons w v ws vs kv e same_ zero = e
  SameContents-cons w v ws vs kv e same_ (suc n) = same_ n

  loaded-IsGot :
      (x : A) (a : Bool) (r : Got A) (ws vs : List (Value A)) (kv : Option Bytes)
      → IsGot (r, ws) vs kv
      → IsGot
          (loaded codec (record { status = undefined; value = x; allow_missing = a }) (r, ws))
          (record { status = undefined; value = x; allow_missing = a } ∷ vs)
          kv
  unfolding loaded contents IsCoherent SameContents IsGot is_dirty or_fresh
  loaded-IsGot x a (got y) ws vs kv (e, h, same_) = (
    ap (or_fresh a) e,
    (ap (or_fresh a) (same_ 0 ∙ sym e), h),
    SameContents-cons _ _ ws vs kv (ap (or_fresh a) (same_ 0)) same_,
  )
  loaded-IsGot x a (failed f) ws vs kv (e, h, same_) =
      (ap (or_fresh a) e, (tt, h), SameContents-cons _ _ ws vs kv (ap (or_fresh a) (same_ 0)) same_)
  loaded-IsGot x true missing ws vs kv (e, h, same_) = (
    ap (or_fresh true) e,
    (ap (or_fresh true) (same_ 0 ∙ sym e), h),
    SameContents-cons _ _ ws vs kv (ap (or_fresh true) (same_ 0)) same_,
  )
  loaded-IsGot x false missing ws vs kv (e, h, same_) = (
    ap (or_fresh false) e,
    (ap (or_fresh false) (same_ 0 ∙ sym e), h),
    SameContents-cons _ _ ws vs kv (ap (or_fresh false) (same_ 0)) same_,
  )

  get-IsGot_status :
      (s : Status) (x : A) (a : Bool) (vs : List (Value A)) (kv : Option Bytes)
      → IsGot (get codec vs kv) vs kv
      → IsCoherent (record { status = s; value = x; allow_missing = a } ∷ vs) kv
      → IsGot
          (get codec (record { status = s; value = x; allow_missing = a } ∷ vs) kv)
          (record { status = s; value = x; allow_missing = a } ∷ vs)
          kv
  unfolding get contents IsCoherent SameContents IsGot is_dirty
  get-IsGot_status undefined x a vs kv below h =
      loaded-IsGot x a (get codec vs kv).0 (get codec vs kv).1 vs kv below
  get-IsGot_status not_found x a vs kv below h = (sym h.0, h, λ n. refl)
  get-IsGot_status clean x a vs kv below h = (sym h.0, h, λ n. refl)
  get-IsGot_status dirty x a vs kv below h = (refl, h, λ n. refl)

  -- Get of the value of the innermost of nested batches returns the innermost write, or what is stored;
  -- what it loads on the way changes the contents of no batch.
  pub get-contents :
      (vs : List (Value A)) (kv : Option Bytes) → IsCoherent vs kv → IsGot (get codec vs kv) vs kv
  unfolding get contents IsCoherent SameContents IsGot
  get-contents [] kv h = (refl, tt, λ n. refl)
  get-contents (v ∷ vs) kv h =
      get-IsGot_status v.status v.value v.allow_missing vs kv (get-contents vs kv h.1) h
