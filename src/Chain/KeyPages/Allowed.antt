-- ===== src/Chain/KeyPages/Allowed.antt =====
-- The transaction types that a page does not allow, after UpdateAllowedKeyPageOperation.
use accumulate.Common.{ℕ, ◌≡◌, refl, ap, arith, ◌∙◌, inl, inr, ◌⊎◌}
use accumulate.Common.{List, [], ◌∷◌, Bool, false}
use accumulate.Common.{◌==◌, ◌&&◌, ◌||◌, not}
use accumulate.Common.Outcome.{ok, >>=-ok, ok-subst}
use accumulate.Protocol.Access.{
  TransactionType, update_key_page, update_account_auth, other, allowed_transaction_bit, is_set,
  set_bit, clear_bit,
}
use accumulate.Protocol.Keys.{KeyPage}
use accumulate.Chain.KeyPages.{change_bits, blacklist_number, number_blacklist, execute_allowed}

-- Whether a list has a type with the bit.
unfoldable pub mentions : List TransactionType → ℕ → Bool
mentions [] b = false
mentions (update_key_page ∷ ts) b = (b == 1) || mentions ts b
mentions (update_account_auth ∷ ts) b = (b == 2) || mentions ts b
mentions (other n ∷ ts) b = mentions ts b

-- One of the two bits that types have.
abbrev pub IsBit : ℕ → Type 0
IsBit b = (b ≡ 1) ⊎ (b ≡ 2)

is_set-set_bit : (v c b : ℕ) → IsBit c → IsBit b → is_set (set_bit v c) b ≡ ((b == c) || is_set v b)
unfolding set_bit is_set
is_set-set_bit v c b (inl e) (inl f) = rw (e, f) (ground arith)
is_set-set_bit v c b (inl e) (inr f) = rw (e, f) (ground arith)
is_set-set_bit v c b (inr e) (inl f) = rw (e, f) (ground arith)
is_set-set_bit v c b (inr e) (inr f) = rw (e, f) (ground arith)

is_set-clear_bit :
    (v c b : ℕ) → IsBit c → IsBit b → is_set (clear_bit v c) b ≡ (not (b == c) && is_set v b)
unfolding clear_bit is_set
is_set-clear_bit v c b (inl e) (inl f) = rw (e, f) (ground arith)
is_set-clear_bit v c b (inl e) (inr f) = rw (e, f) (ground arith)
is_set-clear_bit v c b (inr e) (inl f) = rw (e, f) (ground arith)
is_set-clear_bit v c b (inr e) (inr f) = rw (e, f) (ground arith)

change_bits-set :
    (ts : List TransactionType) (v w b : ℕ)
    → IsBit b
    → change_bits set_bit ts v ≡ ok w
    → is_set w b ≡ (mentions ts b || is_set v b)
unfolding change_bits mentions allowed_transaction_bit
change_bits-set [] v w b i h = ok-subst (λ x. is_set x b ≡ is_set v b) h refl
change_bits-set (update_key_page ∷ ts) v w b i h =
    ground (arith, change_bits-set ts (set_bit v 1) w b i h, is_set-set_bit v 1 b (inl refl) i)
change_bits-set (update_account_auth ∷ ts) v w b i h =
    ground (arith, change_bits-set ts (set_bit v 2) w b i h, is_set-set_bit v 2 b (inr refl) i)
change_bits-set (other n ∷ ts) v w b i h = cc

change_bits-clear :
    (ts : List TransactionType) (v w b : ℕ)
    → IsBit b
    → change_bits clear_bit ts v ≡ ok w
    → is_set w b ≡ (not (mentions ts b) && is_set v b)
unfolding change_bits mentions allowed_transaction_bit
change_bits-clear [] v w b i h = ok-subst (λ x. is_set x b ≡ is_set v b) h refl
change_bits-clear (update_key_page ∷ ts) v w b i h =
    ground
      (arith, change_bits-clear ts (clear_bit v 1) w b i h, is_set-clear_bit v 1 b (inl refl) i)
change_bits-clear (update_account_auth ∷ ts) v w b i h =
    ground
      (arith, change_bits-clear ts (clear_bit v 2) w b i h, is_set-clear_bit v 2 b (inr refl) i)
change_bits-clear (other n ∷ ts) v w b i h = cc

blacklist-number : (v : ℕ) → blacklist_number (number_blacklist v) ≡ v
unfolding blacklist_number number_blacklist
blacklist-number v = ground arith

-- After the operation a type is denied exactly if it is among the types to deny, or it was denied
-- before and is not among the types to allow.
pub execute_allowed-is_set :
    (page p : KeyPage) (allow deny : List TransactionType) (b : ℕ)
    → IsBit b
    → execute_allowed page allow deny ≡ ok p
    → is_set (blacklist_number p.transaction_blacklist) b ≡ (
        mentions deny b
        || (not (mentions allow b) && is_set (blacklist_number page.transaction_blacklist) b))
unfolding execute_allowed
execute_allowed-is_set page p allow deny b i h =
    let old = blacklist_number page.transaction_blacklist in
    let (cleared, clears, more) = >>=-ok _ (change_bits clear_bit allow old) p h in
    let (w, sets, last) = >>=-ok _ (change_bits set_bit deny cleared) p more in
    ok-subst
      (λ x.
        is_set (blacklist_number x.transaction_blacklist) b
        ≡ (mentions deny b || (not (mentions allow b) && is_set old b)))
      last
      (ap (λ x. is_set x b) (blacklist-number w)
        ∙ change_bits-set deny cleared w b i sets
        ∙ ap (λ x. mentions deny b || x) (change_bits-clear allow old cleared b i clears))
