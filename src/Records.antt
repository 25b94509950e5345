-- ===== src/Records.antt =====
-- internal/database/record/value.go and kv_store.go, and how batch.go nests them: one record's values
-- in a stack of batches, the innermost first, over the key-value store.
pub mod Coherent
pub mod Committed
pub mod History
mod Runs
use Prim.Native.String.{String}
use accumulate.Common.{ℕ, List, [], ◌∷◌, Option, none, some, Bool, true, false, if◌then◌else◌}
use accumulate.Common.Bytes.{Bytes}

pub data Status : Type 0 where
  undefined : Status
  not_found : Status
  clean : Status
  dirty : Status

-- What `Get` returns: a value, an error that is storage.ErrNotFound, or another.
pub data Got (A : Type 0) : Type 0 where
  got : A → Got A
  missing : Got A
  failed : String → Got A

-- The encodable value is the value it holds, and copying it makes no difference.
pub record Value (A : Type 0) : Type 0 where
  pub status : Status
  pub value : A
  pub allow_missing : Bool

-- How a type of values is made and encoded; `marshal` and `unmarshal` are none where they return an
-- error.
pub record Codec (A : Type 0) : Type 0 where
  pub unset : A
  pub fresh : A
  pub marshal : A → Option Bytes
  pub unmarshal : Bytes → Option A

module _ {A : Type 0} (codec : Codec A) where
  -- `NewValue`
  abbrev pub new_value : Bool → Value A
  new_value allow = record { status = undefined; value = codec.unset; allow_missing = allow }

  -- `KvStore.GetValue` and `LoadBytes` of the key's bytes: no bytes count as not found.
  unfoldable pub kv_get : Option Bytes → Got A
  kv_get none = missing
  kv_get (some []) = missing
  kv_get (some (b ∷ bs)) = elim (codec.unmarshal (b ∷ bs)) [
    | none ↦ failed "cannot unmarshal"
    | some x ↦ got x
  ]

  -- The part of `Get` after `store.GetValue`, for what it has loaded.
  unfoldable pub loaded : Value A → Got A × List (Value A) → Got A × List (Value A)
  loaded v (got x, vs) = (got x, record v { status = clean; value = x } ∷ vs)
  loaded v (failed e, vs) = (failed e, v ∷ vs)
  loaded v (missing, vs) =
      if v.allow_missing
      then (got codec.fresh, record v { status = clean; value = codec.fresh } ∷ vs)
      else (missing, record v { status = not_found } ∷ vs)

  -- `Get`. A batch's store is the batch around it, whose value is got and copied by `LoadValue`; the
  -- outermost batch's is the key-value store.
  unfoldable pub get : List (Value A) → Option Bytes → Got A × List (Value A)
  get [] kv = (kv_get kv, [])
  get (v ∷ vs) kv =
      let below = get vs kv in
      elim v.status [
        | not_found ↦ (missing, v ∷ vs)
        | clean ↦ (got v.value, v ∷ vs)
        | dirty ↦ (got v.value, v ∷ vs)
        | undefined ↦ loaded v below
      ]

  -- `Put`
  abbrev pub put_value : Value A → A → Value A
  put_value v u = record v { status = dirty; value = u }

  -- `IsDirty`
  unfoldable pub is_dirty : Value A → Bool
  is_dirty v = elim v.status [
    | dirty ↦ true
    | undefined ↦ false
    | not_found ↦ false
    | clean ↦ false
  ]

  -- `Commit` of the innermost batch's value: what is around it, and the key's bytes. `LoadValue` makes
  -- the value dirty there, and `KvStore.PutValue` marshals it; `none` is an error of that.
  unfoldable pub commit :
      Value A → List (Value A) → Option Bytes → Option (List (Value A) × Option Bytes)
  commit v vs kv =
      if is_dirty v
      then (elim vs [
        | p ∷ ps ↦ some (put_value p v.value ∷ ps, kv)
        | [] ↦ elim (codec.marshal v.value) [ none ↦ none | some b ↦ some ([], some b) ]
      ])
      else some (vs, kv)
