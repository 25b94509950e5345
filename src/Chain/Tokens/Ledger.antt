-- ===== src/Chain/Tokens/Ledger.antt =====
-- All accounts of a token with the transactions that are under way, as a state machine whose steps
-- are the handlers.
use accumulate.Common.{ℕ, ◌≡◌, refl, ap, arith, ◌∙◌, sym}
use accumulate.Common.{List, [], ◌∷◌, ◌++◌, Option, none, some}
use accumulate.Common.Bytes.{Bytes}
use accumulate.Common.Int.{ℤ, pos, ◌+ℤ◌, +ℤ_parts, eq_of_parts}
use accumulate.Common.Outcome.{Outcome, ok}
use accumulate.Url.Parts.{Url}
use accumulate.Protocol.Accounts.{TokenIssuer}
use accumulate.Chain.Tokens.{
  Account, TokenRecipient, Deposit, holding, token_issuer, send_tokens, burn_tokens,
  synthetic_burn_tokens, synthetic_deposit_tokens, issue_tokens, did_fail, burn_back, deposit_back,
}
use accumulate.Chain.Tokens.Amounts.{sum_amounts, deposited, +ℤ_assoc}

module _ {ℓ} {A : Type ℓ} (f : A → ℤ) where
  abbrev pub total : List A → ℤ
  total [] = pos 0
  total (x ∷ xs) = f x +ℤ total xs

  pub total-append : (xs ys : List A) → total (xs ++ ys) ≡ total xs +ℤ total ys
  total-append [] ys =
      eq_of_parts (total ys) (pos 0 +ℤ total ys) (omega (arith, +ℤ_parts (pos 0) (total ys)))
  total-append (x ∷ xs) ys =
      ap (λ t. f x +ℤ t) (total-append xs ys) ∙ sym (+ℤ_assoc (f x) (total xs) (total ys))

  pub total-middle : (xs ys : List A) (y : A) → total (xs ++ y ∷ ys) ≡ f y +ℤ total (xs ++ ys)
  total-middle [] ys y = refl
  total-middle (x ∷ xs) ys y =
      ap (λ t. f x +ℤ t) (total-middle xs ys y)
      ∙ eq_of_parts (f x +ℤ (f y +ℤ total (xs ++ ys))) (f y +ℤ (f x +ℤ total (xs ++ ys))) (
          omega (
            arith,
            +ℤ_parts (f y) (total (xs ++ ys)),
            +ℤ_parts (f x) (total (xs ++ ys)),
            +ℤ_parts (f x) (f y +ℤ total (xs ++ ys)),
            +ℤ_parts (f y) (f x +ℤ total (xs ++ ys)),
          ))

pub sum_amounts-deposited :
    (ds : List Deposit) → sum_amounts (deposited ds) ≡ total (λ d. d.amount) ds
sum_amounts-deposited [] = refl
sum_amounts-deposited (d ∷ ds) = ap (λ t. d.amount +ℤ t) (sum_amounts-deposited ds)

-- An issuer with accounts of its token, and the deposits and burns that have been submitted and not
-- yet executed.
pub record Ledger : Type 0 where
  pub issuer : TokenIssuer
  pub accounts : List Account
  pub deposits : List Deposit
  pub burns : List ℤ

unfoldable pub balance_of : Account → ℤ
balance_of a = elim (holding a) [ none ↦ pos 0 | some h ↦ h.balance ]

abbrev pub outstanding : Ledger → ℤ
outstanding l =
    (total balance_of l.accounts +ℤ total (λ d. d.amount) l.deposits) +ℤ total (λ b. b) l.burns

-- Every token issued is on an account or on its way, and none besides.
abbrev pub Balanced : Ledger → Type 0
Balanced l = l.issuer.issued ≡ outstanding l

-- One transaction, executed or failed. The account it acts on stands anywhere among the accounts.
pub data Step (sum : Bytes → Bytes) : Ledger → Ledger → Type 0 where
  send :
      (l : Ledger) (front back : List Account) (a b : Account) (major : Outcome (Option ℕ))
      (to : List TokenRecipient) (ds : List Deposit)
      → l.accounts ≡ front ++ a ∷ back
      → send_tokens sum major a to ≡ ok (b, ds)
      → Step sum l (record l { accounts = front ++ b ∷ back; deposits = ds ++ l.deposits })
  burn :
      (l : Ledger) (front back : List Account) (a b : Account) (amount m : ℤ)
      → l.accounts ≡ front ++ a ∷ back
      → burn_tokens a amount ≡ ok (b, m)
      → Step sum l (record l { accounts = front ++ b ∷ back; burns = m ∷ l.burns })
  issue :
      (l : Ledger) (i : TokenIssuer) (recipient : Option Url) (amount : ℤ)
      (to : List TokenRecipient) (ds : List Deposit)
      → issue_tokens sum (token_issuer l.issuer) recipient amount to ≡ ok (i, ds)
      → Step sum l (record l { issuer = i; deposits = ds ++ l.deposits })
  deposit :
      (l : Ledger) (front back : List Account) (a b : Account) (before after : List Deposit)
      (d : Deposit)
      → l.accounts ≡ front ++ a ∷ back
      → l.deposits ≡ before ++ d ∷ after
      → synthetic_deposit_tokens a d ≡ ok b
      → Step sum l (record l { accounts = front ++ b ∷ back; deposits = before ++ after })
  settle :
      (l : Ledger) (before after : List ℤ) (m : ℤ) (i : TokenIssuer)
      → l.burns ≡ before ++ m ∷ after
      → synthetic_burn_tokens (token_issuer l.issuer) m ≡ ok i
      → Step sum l (record l { issuer = i; burns = before ++ after })
  refund :
      (l : Ledger) (before after : List Deposit) (d back : Deposit) (cause : Url)
      → l.deposits ≡ before ++ d ∷ after
      → did_fail cause d ≡ deposit_back back
      → Step sum l (record l { deposits = before ++ back ∷ after })
  recall :
      (l : Ledger) (before after : List Deposit) (d : Deposit) (m : ℤ) (cause : Url)
      → l.deposits ≡ before ++ d ∷ after
      → did_fail cause d ≡ burn_back m
      → Step sum l (record l { deposits = before ++ after; burns = m ∷ l.burns })

-- Any number of transactions, one after the other.
pub data Reaches (sum : Bytes → Bytes) : Ledger → Ledger → Type 0 where
  done : (l : Ledger) → Reaches sum l l
  next : (l m n : Ledger) → Step sum l m → Reaches sum m n → Reaches sum l n
