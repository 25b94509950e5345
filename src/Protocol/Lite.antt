-- ===== src/Protocol/Lite.antt =====
-- protocol/protocol.go: the key hash in the URL of a lite identity or a lite token account. `sum` is
-- sha256.Sum256.
use accumulate.Common.{
  ℕ, ◌+◌, ◌-◌, ◌*◌, [], ◌∷◌, Option, none, some, ◌&&◌, ◌||◌, ◌==◌, leb, not, if◌then◌else◌, length,
  take, drop,
}
use accumulate.Common.Bytes.{Bytes, equal_bytes}
use accumulate.Common.Outcome.{Outcome, ok, err, ◌>>=◌}
use accumulate.Url.Text.{before_colon}
use accumulate.Url.Parts.{Url}

-- The value of a digit of hex.DecodeString.
unfoldable pub hex_value : ℕ → Option ℕ
hex_value c =
    if leb b'0' c && leb c b'9'
    then some (c - b'0')
    else if leb b'a' c && leb c b'f'
    then some (c - b'a' + 10)
    else if leb b'A' c && leb c b'F'
    then some (c - b'A' + 10)
    else none

unfoldable pub hex_byte : Option ℕ → Option ℕ → Option Bytes → Option Bytes
hex_byte (some high) (some low) (some rest) = some ((high * 16 + low) ∷ rest)
hex_byte _ _ _ = none

-- hex.DecodeString, where `none` is an error.
unfoldable pub decode_hex : Bytes → Option Bytes
unfolding hex_byte hex_value
decode_hex [] = some []
decode_hex (c ∷ []) = none
decode_hex (c ∷ d ∷ ds) = hex_byte (hex_value c) (hex_value d) (decode_hex ds)

-- `ParseLiteAddress`
unfoldable pub parse_lite_address : (Bytes → Bytes) → Url → Outcome Bytes
unfolding decode_hex
parse_lite_address sum u = elim (decode_hex (before_colon u.authority)) [
  | none ↦ err "encoding/hex"
  | some b ↦
      (let digest = sum (take (length u.authority - 8) u.authority) in
        if leb (length b) 4
        then err "too short"
        else if not (equal_bytes (drop (length b - 4) b) (drop (length digest - 4) digest))
        then err "invalid checksum"
        else ok (take (length b - 4) b))
]

abbrev pub of_20 : Bytes → Option Bytes
of_20 b = if length b == 20 then some b else none

-- `ParseLiteIdentity`
unfoldable pub parse_lite_identity : (Bytes → Bytes) → Url → Outcome (Option Bytes)
unfolding parse_lite_address
parse_lite_identity sum u =
    if not (equal_bytes u.path [] || equal_bytes u.path (b'/' ∷ []))
    then ok none
    else parse_lite_address sum u >>= λ b. ok (of_20 b)

-- `ParseLiteTokenAddress` without the URL of the token.
unfoldable pub parse_lite_token_key : (Bytes → Bytes) → Url → Outcome (Option Bytes)
unfolding parse_lite_address
parse_lite_token_key sum u =
    if leb (length u.path) 1 then ok none else parse_lite_address sum u >>= λ b. ok (of_20 b)
