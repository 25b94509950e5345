-- ===== src/Chain/Tokens/Moves.antt =====
-- Sums of balances `t`, of deposits `d` and of burns `n` where an amount moves between them.
use accumulate.Common.{◌≡◌, refl, ap, arith, ◌∙◌, sym}
use accumulate.Common.Int.{ℤ, ◌+ℤ◌, ◌-ℤ◌, pos_part, neg_part, +ℤ_parts, -ℤ_parts, eq_of_parts}

pub move_out : (b s t d n o : ℤ) → b +ℤ s ≡ o → ((o +ℤ t) +ℤ d) +ℤ n ≡ ((b +ℤ t) +ℤ (s +ℤ d)) +ℤ n
move_out b s t d n o e =
    ap (λ x. x +ℤ n)
      (eq_of_parts ((o +ℤ t) +ℤ d) ((b +ℤ t) +ℤ (s +ℤ d)) (
        omega (
          arith,
          ap pos_part e,
          ap neg_part e,
          +ℤ_parts b s,
          +ℤ_parts o t,
          +ℤ_parts (o +ℤ t) d,
          +ℤ_parts b t,
          +ℤ_parts s d,
          +ℤ_parts (b +ℤ t) (s +ℤ d),
        )))

pub move_in : (o x t d n : ℤ) → ((o +ℤ t) +ℤ (x +ℤ d)) +ℤ n ≡ (((o +ℤ x) +ℤ t) +ℤ d) +ℤ n
move_in o x t d n = sym (move_out o x t d n (o +ℤ x) refl)

pub move_burn : (b m t d n o : ℤ) → b +ℤ m ≡ o → ((o +ℤ t) +ℤ d) +ℤ n ≡ ((b +ℤ t) +ℤ d) +ℤ (m +ℤ n)
move_burn b m t d n o e =
    move_out b m t d n o e
    ∙ eq_of_parts (((b +ℤ t) +ℤ (m +ℤ d)) +ℤ n) (((b +ℤ t) +ℤ d) +ℤ (m +ℤ n)) (
        omega (
          arith,
          +ℤ_parts m d,
          +ℤ_parts (b +ℤ t) (m +ℤ d),
          +ℤ_parts ((b +ℤ t) +ℤ (m +ℤ d)) n,
          +ℤ_parts (b +ℤ t) d,
          +ℤ_parts m n,
          +ℤ_parts ((b +ℤ t) +ℤ d) (m +ℤ n),
        ))

pub recalled : (t m d n : ℤ) → (t +ℤ (m +ℤ d)) +ℤ n ≡ (t +ℤ d) +ℤ (m +ℤ n)
recalled t m d n = eq_of_parts ((t +ℤ (m +ℤ d)) +ℤ n) ((t +ℤ d) +ℤ (m +ℤ n)) (
    omega (
      arith,
      +ℤ_parts m d,
      +ℤ_parts t (m +ℤ d),
      +ℤ_parts (t +ℤ (m +ℤ d)) n,
      +ℤ_parts t d,
      +ℤ_parts m n,
      +ℤ_parts (t +ℤ d) (m +ℤ n),
    ))

-- Issued and deposited, or burnt and taken off.
pub issue_in : (i s t d n : ℤ) → i ≡ (t +ℤ d) +ℤ n → i +ℤ s ≡ (t +ℤ (s +ℤ d)) +ℤ n
issue_in i s t d n e = eq_of_parts (i +ℤ s) ((t +ℤ (s +ℤ d)) +ℤ n) (
    omega (
      arith,
      ap pos_part e,
      ap neg_part e,
      +ℤ_parts i s,
      +ℤ_parts s d,
      +ℤ_parts t d,
      +ℤ_parts (t +ℤ d) n,
      +ℤ_parts t (s +ℤ d),
      +ℤ_parts (t +ℤ (s +ℤ d)) n,
    ))

pub settle_out : (i m x n : ℤ) → i ≡ x +ℤ (m +ℤ n) → i -ℤ m ≡ x +ℤ n
settle_out i m x n e = eq_of_parts (i -ℤ m) (x +ℤ n) (
    omega (
      arith,
      ap pos_part e,
      ap neg_part e,
      -ℤ_parts i m,
      +ℤ_parts m n,
      +ℤ_parts x (m +ℤ n),
      +ℤ_parts x n,
    ))
