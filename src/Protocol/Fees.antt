-- ===== src/Protocol/Fees.antt =====
-- protocol/fee_schedule.go: what a transaction costs, and what is paid back when a transaction that
-- it produced fails. A Fee is a uint64, and sums and products wrap.
use accumulate.Common.{
  ℕ, ◌+◌, ◌-◌, ◌*◌, ◌/◌, ◌%◌, ◌^◌, List, [], ◌∷◌, Option, none, some, Bool, true, false,
}
use accumulate.Common.{leb, ltb, ◌==◌, ◌&&◌, not, if◌then◌else◌, length, get_elem?, take, drop}
use accumulate.Common.Bytes.{Bytes, equal_bytes}
use accumulate.Common.Outcome.{Outcome, ok, err, ◌>>=◌}
use accumulate.Url.Parts.{Url, is_root_identity}

-- The bodies of user transactions, with the fields the fee depends on; `other_body` is any other
-- type, and says whether it is a user's.
pub data Body : Type 0 where
  create_token create_token_account create_data_account create_lite_token_account : Body
  create_key_book update_key burn_tokens lock_account : Body
  write_data_to add_credits acme_faucet : Body
  create_identity : Option Url → Body
  send_tokens issue_tokens create_key_page update_key_page update_account_auth : ℕ → Body
  write_data : Bool → Bool → Body
  other_body : Bool → Body

-- A transaction: whether its principal is the URL of a partition, the length of its encoding, and
-- its body.
pub record Transaction : Type 0 where
  pub to_partition : Bool
  pub size : ℕ
  pub body : Body

unfoldable pub is_user : Body → Bool
is_user (other_body user) = user
is_user _ = true

-- `dataCount`: the number of 256-byte chunks.
unfoldable pub data_count : ℕ → ℕ
data_count size = if size % 256 == 0 then size / 256 else size / 256 + 1

-- `a + b*Fee(n-1)`, for an int `n`.
unfoldable pub plus_extra : ℕ → ℕ → ℕ → ℕ
plus_extra a b n = (a + b * ((n + (2 ^ 64 - 1)) % 2 ^ 64)) % 2 ^ 64

abbrev pub tld : Bytes
tld = b'.' ∷ b'a' ∷ b'c' ∷ b'm' ∷ b'e' ∷ []

-- The name before ".acme", if the authority ends so.
unfoldable pub name_of : Bytes → Option Bytes
name_of authority =
    let n = length authority - length tld in
    if leb (length tld) (length authority) && equal_bytes (drop n authority) tld
    then some (take n authority)
    else none

unfoldable pub sliding_fee : List ℕ → Option Bytes → ℕ
sliding_fee schedule none = 50000
sliding_fee schedule (some []) = 50000
sliding_fee schedule (some (c ∷ cs)) = elim (get_elem? schedule (length cs)) [
  | none ↦ 50000
  | some f ↦ f
]

-- The part of the fee of a new identity that its name decides.
unfoldable pub identity_fee : Option (List ℕ) → Option Url → ℕ
unfolding sliding_fee name_of
identity_fee none url = 50000
identity_fee (some schedule) none = 50000
identity_fee (some schedule) (some u) =
    if not (is_root_identity u) then 50000 else sliding_fee schedule (name_of u.authority)

unfoldable pub write_fee : Bool → Bool → ℕ → ℕ
write_fee scratch to_state count =
    let fee = count * (if scratch then 1 else 10) in if to_state then fee * 2 else fee

-- The switch of `ComputeTransactionFee`.
unfoldable pub body_fee : Option (List ℕ) → Body → ℕ → Outcome ℕ
unfolding plus_extra identity_fee write_fee
body_fee s create_token count = ok (plus_extra 500000 10 count)
body_fee s (create_identity url) count = ok ((plus_extra 0 10 count + identity_fee s url) % 2 ^ 64)
body_fee s create_token_account count = ok (plus_extra 2500 10 count)
body_fee s create_data_account count = ok (plus_extra 2500 10 count)
body_fee s (send_tokens n) count = ok (plus_extra (plus_extra 300 100 n) 10 count)
body_fee s (issue_tokens n) count = ok (plus_extra (plus_extra 300 100 n) 10 count)
body_fee s create_lite_token_account count = ok (plus_extra 300 10 count)
body_fee s create_key_book count = ok (plus_extra 10000 10 count)
body_fee s (create_key_page n) count = ok (plus_extra (plus_extra 10000 100 n) 10 count)
body_fee s (update_key_page n) count = ok (plus_extra (plus_extra 300 100 n) 10 count)
body_fee s (update_account_auth n) count = ok (plus_extra (plus_extra 300 100 n) 10 count)
body_fee s update_key count = ok (plus_extra 300 10 count)
body_fee s burn_tokens count = ok (plus_extra 10 10 count)
body_fee s lock_account count = ok (plus_extra 10 10 count)
body_fee s (write_data scratch to_state) count = ok (write_fee scratch to_state count % 2 ^ 64)
body_fee s write_data_to count = ok ((10 * count) % 2 ^ 64)
body_fee s add_credits count = ok 0
body_fee s acme_faucet count = ok 0
body_fee s (other_body user) count = err "unknown transaction type %v"

-- `ComputeTransactionFee`; the schedule may be nil.
unfoldable pub compute_transaction_fee : Option (List ℕ) → Transaction → Outcome ℕ
unfolding body_fee data_count is_user
compute_transaction_fee s tx =
    if tx.to_partition
    then ok 0
    else if not (is_user tx.body)
    then ok 0
    else if ltb 20480 tx.size
    then err "transaction size exceeds %v byte entry limit"
    else body_fee s tx.body (data_count tx.size)

unfoldable pub is_transfer : Body → Bool
is_transfer (send_tokens n) = true
is_transfer (issue_tokens n) = true
is_transfer _ = false

-- `ComputeSyntheticRefund`
unfoldable pub refund_of : ℕ → Bool → ℕ → Outcome ℕ
refund_of paid transfer synth_count =
    if leb paid 100
    then ok 0
    else if transfer
    then ok 100
    else if ltb 1 synth_count
    then err "a %v transaction cannot have multiple outputs"
    else ok (paid - 100)

unfoldable pub compute_synthetic_refund : Option (List ℕ) → Transaction → ℕ → Outcome ℕ
unfolding refund_of is_transfer
compute_synthetic_refund s tx synth_count =
    compute_transaction_fee s tx >>= λ paid. refund_of paid (is_transfer tx.body) synth_count
