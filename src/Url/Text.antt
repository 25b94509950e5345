-- ===== src/Url/Text.antt =====
-- The functions of Go's strings and net/url packages that URLs use, on byte strings. Letters are
-- those of ASCII: a text with other letters is not folded.
use accumulate.Common.{Bool, true, false, ℕ, ◌+◌, ◌-◌, ◌*◌, ◌/◌, ◌%◌, [], ◌∷◌, Option, none, some}
use accumulate.Common.{Bool, ◌&&◌, ◌||◌, ◌==◌, leb, if◌then◌else◌}
use accumulate.Common.Bytes.{Bytes}

abbrev pub slash : ℕ
slash = b'/'

-- strings.ToLower
abbrev pub lower_byte : ℕ → ℕ
lower_byte c = if leb b'A' c && leb c b'Z' then c + 32 else c

unfoldable pub lower : Bytes → Bytes
lower [] = []
lower (c ∷ cs) = lower_byte c ∷ lower cs

-- strings.EqualFold
unfoldable pub equal_fold : Bytes → Bytes → Bool
equal_fold [] [] = true
equal_fold (c ∷ cs) (d ∷ ds) = if lower_byte c == lower_byte d then equal_fold cs ds else false
equal_fold _ _ = false

-- strings.TrimLeft(s, "/")
unfoldable pub trim_left : Bytes → Bytes
trim_left [] = []
trim_left (c ∷ cs) = let rest = trim_left cs in if c == slash then rest else c ∷ cs

unfoldable pub keep_unless_last : ℕ → Bytes → Bytes
keep_unless_last c [] = if c == slash then [] else c ∷ []
keep_unless_last c (d ∷ ds) = c ∷ d ∷ ds

-- strings.TrimRight(s, "/")
unfoldable pub trim_right : Bytes → Bytes
unfolding keep_unless_last
trim_right [] = []
trim_right (c ∷ cs) = keep_unless_last c (trim_right cs)

-- strings.TrimSuffix(s, "/")
unfoldable pub trim_suffix : Bytes → Bytes
trim_suffix [] = []
trim_suffix (c ∷ []) = if c == slash then [] else c ∷ []
trim_suffix (c ∷ d ∷ ds) = c ∷ trim_suffix (d ∷ ds)

unfoldable pub split_here : ℕ → Bytes → Option (Bytes × Bytes) → Option (Bytes × Bytes)
split_here c cs none = if c == slash then some ([], cs) else none
split_here c cs (some (before, after)) = some (c ∷ before, after)

-- The text before and after the last slash, by strings.LastIndex.
unfoldable pub split_last : Bytes → Option (Bytes × Bytes)
unfolding split_here
split_last [] = none
split_last (c ∷ cs) = split_here c cs (split_last cs)

-- The text before the first colon, or all of it: the first part of `splitColon`.
unfoldable pub before_colon : Bytes → Bytes
before_colon [] = []
before_colon (c ∷ cs) = if c == b':' then [] else c ∷ before_colon cs

abbrev is_digit : ℕ → Bool
is_digit c = leb b'0' c && leb c b'9'

-- What `url.PathEscape` leaves as it is.
abbrev unescaped : ℕ → Bool
unescaped c =
    is_digit c
    || (leb b'a' c && leb c b'z')
    || (leb b'A' c && leb c b'Z')
    || c == b'-'
    || c == b'_'
    || c == b'.'
    || c == b'~'
    || c == b'$'
    || c == b'&'
    || c == b'+'
    || c == b':'
    || c == b'='
    || c == b'@'

abbrev hex_digit : ℕ → ℕ
hex_digit n = if leb n 9 then n + b'0' else n - 10 + b'A'

-- url.PathEscape, a byte at a time.
unfoldable pub path_escape_byte : ℕ → Bytes
path_escape_byte c =
    if unescaped c then c ∷ [] else b'%' ∷ hex_digit (c / 16) ∷ hex_digit (c % 16) ∷ []

-- strconv.ParseUint(s, 10, 16): one digit or more, and a value of 16 bits.
unfoldable pub parse_digits : ℕ → Bytes → Option ℕ
parse_digits acc [] = some acc
parse_digits acc (c ∷ cs) = if is_digit c then parse_digits (acc * 10 + (c - b'0')) cs else none

unfoldable pub in_16_bits : Option ℕ → Option ℕ
in_16_bits none = none
in_16_bits (some n) = if leb n 65535 then some n else none

unfoldable pub parse_uint16 : Bytes → Option ℕ
unfolding parse_digits in_16_bits
parse_uint16 [] = none
parse_uint16 (c ∷ cs) = in_16_bits (parse_digits 0 (c ∷ cs))
