-- ===== src/Protocol/Tests.antt =====
-- Runs of the account operations.
use accumulate.Common.{refl}
use accumulate.Common.Outcome.{ok}
use accumulate.Protocol.Fees.{
  Transaction, send_tokens, compute_transaction_fee, compute_synthetic_refund,
}
use accumulate.Common.{ℕ, ◌≡◌, [], ◌∷◌, true, false, none}
use accumulate.Url.Parts.{Url}
use accumulate.Protocol.Accounts.{AccountAuth}
use accumulate.Protocol.Auth.{add_authority, remove_authority}
use accumulate.Protocol.Auth.Laws.{Adds, Removes, add_authority-set, remove_authority-set}

abbrev named : ℕ → Url
named c = record { user_info = []; authority = c ∷ []; path = []; query = []; fragment = [] }

abbrev one : AccountAuth
one = record { authorities = record { url = named b'b'; disabled = true } ∷ [] }

add_authority-set_example : Adds one (named b'a') (add_authority one (named b'a'))
add_authority-set_example = add_authority-set one (named b'a') (tt, tt)

remove_authority-set_example : Removes one (named b'B') (remove_authority one (named b'B'))
remove_authority-set_example = remove_authority-set one (named b'B') (tt, tt)

-- Two transfers in a transaction of 300 bytes.
abbrev transfer : Transaction
transfer = record { to_partition = false; size = 300; body = send_tokens 2 }

transfer_refund : compute_synthetic_refund none transfer 2 ≡ ok 100
unfolding compute_synthetic_refund compute_transaction_fee
transfer_refund = refl

-- Without recipients the fee wraps.
no_recipients : compute_transaction_fee none (record transfer { body = send_tokens 0 }) ≡ ok 210
unfolding compute_transaction_fee
no_recipients = refl
