-- ===== src/Protocol/Access.antt =====
-- protocol/access_control.go: the bit sets of transaction types that a key page does not allow.
-- A bit set is its number, of 64 bits.
use accumulate.Common.{ℕ, ◌+◌, ◌-◌, ◌/◌, ◌%◌, ◌^◌, Option, none, some, Bool, true, false}
use accumulate.Common.{◌==◌, if◌then◌else◌}

-- The types that `AllowedTransactionBit` tells apart; every other type is its number.
pub data TransactionType : Type 0 where
  update_key_page update_account_auth : TransactionType
  other : ℕ → TransactionType

-- `AllowedTransactionBit`, with the bits of enums_gen.go.
unfoldable pub allowed_transaction_bit : TransactionType → Option ℕ
allowed_transaction_bit update_key_page = some 1
allowed_transaction_bit update_account_auth = some 2
allowed_transaction_bit (other n) = none

-- `IsSet` of a set that is not nil.
unfoldable pub is_set : ℕ → ℕ → Bool
is_set v bit = (v / 2 ^ bit) % 2 == 1

-- `Set`: `v | 1 << bit`
unfoldable pub set_bit : ℕ → ℕ → ℕ
unfolding is_set
set_bit v bit = if is_set v bit then v else v + 2 ^ bit

-- `Clear`: `v & ^(1 << bit)`
unfoldable pub clear_bit : ℕ → ℕ → ℕ
unfolding is_set
clear_bit v bit = if is_set v bit then v - 2 ^ bit else v

-- `RequireAuthorization`
unfoldable pub require_authorization : TransactionType → Bool
require_authorization update_account_auth = true
require_authorization update_key_page = false
require_authorization (other n) = false
