-- ===== src/Chain/Tests.antt =====
-- Runs of the executors of key pages.
use accumulate.Common.{ℕ, ◌≡◌, ◌≢◌, refl, List, [], ◌∷◌, none, some, inl, inr, false, arith}
use accumulate.Common.{◌&&◌, ◌||◌, not}
use accumulate.Common.Bytes.{Bytes, compare_bytes}
use accumulate.Common.Outcome.{Outcome, ok}
use accumulate.Url.Parts.{Url, parse_key_page_url}
use accumulate.Sorted.Search.{search, binary_insert}
use accumulate.Protocol.Keys.{
  KeySpec, KeySpecParams, KeyPage, KeyBook, normal, entry_by_key_hash, add_key_spec, is_empty,
  remove_key_spec_at, entry_by_delegate,
}
use accumulate.Protocol.Keys.Insert.{AddsKey, add_key_spec-AddsKey}
use accumulate.Chain.KeyPages.{
  KeyPageOperation, remove_key, update, execute_operation, validate_update_key_page, is_validator,
  execute_allowed, blacklist_number,
}
use accumulate.Protocol.Access.{update_account_auth, allowed_transaction_bit, set_bit, is_set}
use accumulate.Protocol.Keys.Delegates.{FirstDelegate, entry_by_delegate-FirstDelegate}
use accumulate.Chain.KeyPages.Allowed.{mentions, execute_allowed-is_set}
use accumulate.Chain.KeyPages.Invariant.{IsPage}
use accumulate.Chain.KeyPages.Run.{Updates, validate_update_key_page-Updates}

abbrev at_path : Bytes → Url
at_path p = record { user_info = []; authority = b'f' ∷ []; path = p; query = []; fragment = [] }

-- acc://f/b/1
abbrev page_url : Url
page_url = at_path (b'/' ∷ b'b' ∷ b'/' ∷ b'1' ∷ [])

abbrev key : ℕ → KeySpec
key n = record { public_key_hash = n ∷ []; last_used_on = 7; delegate = none }

abbrev params : ℕ → KeySpecParams
params n = record { key_hash = n ∷ []; delegate = none }

abbrev page : KeyPage
page = record {
  url = page_url;
  credit_balance = 0;
  accept_threshold = 2;
  reject_threshold = 0;
  response_threshold = 0;
  block_threshold = 0;
  version = 1;
  keys = key 1 ∷ key 3 ∷ [];
  transaction_blacklist = none;
}

abbrev book : KeyBook
book = record {
  url = at_path (b'/' ∷ b'b' ∷ []);
  book_type = normal;
  auth = record { authorities = [] };
  page_count = 1;
}

page-IsPage : IsPage page
unfolding compare_bytes
page-IsPage = record { ascending = ((inl refl, tt), (tt, tt)); reachable = omega arith }

add_key_spec-AddsKey_example : AddsKey (key 2) page.keys (add_key_spec page.keys (key 2))
add_key_spec-AddsKey_example =
    add_key_spec-AddsKey page.keys (key 2) page-IsPage.ascending (inl (one_two, (three_two, tt)))
  where
    one_two : ◌≢◌ {A = List ℕ} (1 ∷ []) (2 ∷ [])
    one_two e = cc

    three_two : ◌≢◌ {A = List ℕ} (3 ∷ []) (2 ∷ [])
    three_two e = cc

-- The key 3 leaves, and the threshold falls to the one key that stays.
abbrev reduced : KeyPage
reduced = record page { accept_threshold = 1; keys = key 1 ∷ [] }

execute_removes : execute_operation page book (remove_key (params 3)) ≡ ok reduced
unfolding execute_operation entry_by_key_hash search compare_bytes parse_key_page_url
    remove_key_spec_at
execute_removes = refl

abbrev operations : List KeyPageOperation
operations = remove_key (params 3) ∷ update (params 1) (params 5) ∷ []

abbrev fresh_key : KeySpec
fresh_key = record { public_key_hash = 5 ∷ []; last_used_on = 0; delegate = none }

abbrev renewed : KeyPage
renewed = record page { accept_threshold = 1; version = 2; keys = fresh_key ∷ [] }

validate_renews : validate_update_key_page (λ u. ok book) page_url page operations ≡ ok renewed
unfolding validate_update_key_page parse_key_page_url entry_by_key_hash search compare_bytes
    is_empty remove_key_spec_at add_key_spec binary_insert
validate_renews = refl

has_hash : ◌≢◌ {A = List ℕ} (5 ∷ []) []
has_hash e = cc

validate_update_key_page-Updates_example :
    Updates page renewed
    × ((b : Url) × (n : ℕ) × (k : KeyBook) × (parse_key_page_url page_url ≡ some (b, n))
        × (◌≡◌ {A = Outcome KeyBook} (ok book) (ok k))
        × (is_validator k.book_type ≡ false))
validate_update_key_page-Updates_example =
    validate_update_key_page-Updates (λ u. ok book) page_url page renewed operations page-IsPage
      (tt, (has_hash, tt)) validate_renews

entry_by_delegate-FirstDelegate_example :
    FirstDelegate page page_url (entry_by_delegate page page_url)
entry_by_delegate-FirstDelegate_example = entry_by_delegate-FirstDelegate page page_url

abbrev denying : KeyPage
denying = record page { transaction_blacklist = some 4 }

denies_runs : execute_allowed page [] (update_account_auth ∷ []) ≡ ok denying
unfolding execute_allowed allowed_transaction_bit set_bit
denies_runs = refl

execute_allowed-is_set_example :
    is_set 4 2 ≡ (mentions (update_account_auth ∷ []) 2 || (not (mentions [] 2) && is_set 0 2))
unfolding blacklist_number
execute_allowed-is_set_example =
    execute_allowed-is_set page denying [] (update_account_auth ∷ []) 2 (inr refl) denies_runs
