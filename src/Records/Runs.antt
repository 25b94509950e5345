-- ===== src/Records/Runs.antt =====
-- Runs of a record of one byte in two batches.
use accumulate.Common.{ℕ, ◌≡◌, refl, List, [], ◌∷◌, Option, none, some, false}
use accumulate.Common.Bytes.{Bytes}
use accumulate.Records.{
  got, missing, Value, Codec, new_value, kv_get, loaded, get, put_value, is_dirty, commit,
}
use accumulate.Records.History.{
  Call, putting, beginning, committing, After, hand_on, write_call, written_by, readable, After-get,
}

abbrev first : Bytes → Option ℕ
first [] = none
first (b ∷ bs) = some b

abbrev byte : Codec ℕ
byte = record { unset = 0; fresh = 0; marshal = λ x. some (x ∷ []); unmarshal = first }

-- The batch has not looked at the value, which is stored as 7.
abbrev outer : List (Value ℕ)
outer = new_value byte false ∷ []

abbrev stored : Option Bytes
stored = some (7 ∷ [])

abbrev written : Value ℕ
written = put_value byte (new_value byte false) 9

reads_stored : (get byte outer stored).0 ≡ got 7
unfolding get kv_get loaded
reads_stored = refl

reads_missing : (get byte outer none).0 ≡ missing
unfolding get kv_get loaded
reads_missing = refl

-- A batch in a batch writes 9 and commits.
abbrev committed : List (Call ℕ)
committed = committing ∷ putting 9 ∷ beginning false ∷ beginning false ∷ []

committed-After : After byte stored committed (put_value byte (new_value byte false) 9 ∷ []) stored
unfolding commit is_dirty
committed-After =
    After.commits _ _ (After.puts 9 (After.begins false (After.begins false After.start))) refl

-- Get reads it then in the outer batch.
After-get_example :
    ((get byte (written ∷ []) stored).0
      ≡ readable byte (written_by byte committed stored).0 (written_by byte committed stored).1)
    × (stored ≡ (written_by byte committed stored).1)
After-get_example = After-get byte stored committed (written ∷ []) stored committed-After

reads_committed :
    readable byte (written_by byte committed stored).0 (written_by byte committed stored).1 ≡ got 9
unfolding readable written_by write_call hand_on
reads_committed = refl
