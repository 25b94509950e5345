-- ===== src/Url/Parts.antt =====
-- The URL record, its text, its identities and its account ID.
use accumulate.Common.{ℕ, zero, suc, [], ◌∷◌, ◌++◌, Option, none, some}
use accumulate.Common.{Bool, true, false, not, ◌&&◌, ◌||◌, ◌==◌, leb, if◌then◌else◌, length}
use accumulate.Common.Bytes.{Bytes, equal_bytes, compare_bytes}
use accumulate.Common.Compare.{Sign}
use accumulate.Url.Text.{
  slash, lower, equal_fold, trim_left, trim_right, trim_suffix, split_last, before_colon,
  path_escape_byte, parse_uint16,
}

-- The memoized values are recomputed, so they are left out.
pub record Url : Type 0 where
  pub user_info : Bytes
  pub authority : Bytes
  pub path : Bytes
  pub query : Bytes
  pub fragment : Bytes

-- A part that is written with a mark in front unless it is empty.
abbrev prefixed : ℕ → Bytes → Bytes
prefixed mark [] = []
prefixed mark (c ∷ cs) = mark ∷ c ∷ cs

abbrev user_part : Bytes → Bytes
user_part [] = []
user_part (c ∷ cs) = (c ∷ cs) ++ b'@' ∷ []

-- `normalizePath`
unfoldable pub normalize_path : Bytes → Bytes
unfolding trim_left trim_right
normalize_path s = prefixed slash (trim_right (trim_left s))

-- The loop of `format` over the path: slashes stay and what is between them is escaped.
unfoldable pub escape_path : Bytes → Bytes
unfolding path_escape_byte
escape_path [] = []
escape_path (c ∷ cs) = (if c == slash then c ∷ [] else path_escape_byte c) ++ escape_path cs

abbrev scheme : Bytes
scheme = b'a' ∷ b'c' ∷ b'c' ∷ b':' ∷ b'/' ∷ b'/' ∷ []

-- `String`: `format` with no transaction ID and with encoding.
unfoldable pub to_string : Url → Bytes
unfolding normalize_path escape_path
to_string u =
    scheme
    ++ (user_part u.user_info
        ++ (u.authority
            ++ (escape_path (normalize_path u.path)
                ++ (prefixed b'?' u.query ++ prefixed b'#' u.fragment))))

-- `Compare`
unfoldable pub compare : Url → Url → Sign
unfolding lower to_string
compare u v = compare_bytes (lower (to_string u)) (lower (to_string v))

-- `Equal` of two URLs that are not nil: equal pointers are equal texts too.
unfoldable pub equal : Url → Url → Bool
unfolding equal_fold to_string
equal u v = equal_fold (to_string u) (to_string v)

-- `Equal` where either may be nil.
unfoldable pub equal? : Option Url → Option Url → Bool
equal? none none = true
equal? none (some v) = false
equal? (some u) none = false
equal? (some u) (some v) = equal u v

-- `RootIdentity`
unfoldable pub root_identity : Url → Url
root_identity u = record {
  user_info = u.user_info;
  authority = u.authority;
  path = [];
  query = [];
  fragment = [];
}

-- `IsRootIdentity`
unfoldable pub is_root_identity : Url → Bool
is_root_identity u = equal_bytes u.path [] || equal_bytes u.path (slash ∷ [])

unfoldable pub before_last : Option (Bytes × Bytes) → Bytes
before_last none = []
before_last (some (before, _)) = before

unfoldable pub parent_path : Bytes → Bytes × Bool
unfolding split_last before_last
parent_path [] = ([], false)
parent_path (c ∷ cs) = (before_last (split_last (c ∷ cs)), true)

-- `Parent`
unfoldable pub parent : Url → Url × Bool
unfolding parent_path trim_suffix
parent u =
    let (p, found) = parent_path (trim_suffix u.path) in
    (record u { path = p; query = []; fragment = [] }, found)

-- `Identity`
unfoldable pub identity : Url → Url
unfolding parent
identity u = (parent u).0

-- `ParentOf`
unfoldable pub parent_of : Url → Url → Bool
unfolding parent equal
parent_of u v = let (w, found) = parent v in found && equal u w

-- `LocalTo`
unfoldable pub local_to : Url → Url → Bool
unfolding root_identity equal
local_to u v = equal (root_identity u) (root_identity v)

-- The loop of `PrefixOf`; `none` is that the fuel ran out.
unfoldable pub prefix_loop : ℕ → Url → Url → Option Bool
prefix_loop zero u v = none
prefix_loop (suc fuel) u v =
    let (w, found) = parent v in
    let more = prefix_loop fuel u w in
    if not found then some false else if equal u w then some true else more

-- `PrefixOf`
unfoldable pub prefix_of : Url → Url → Option Bool
unfolding prefix_loop parent equal equal_fold
prefix_of u v =
    if not (equal_fold u.authority v.authority)
    then some false
    else if not (leb (length u.path) (length v.path))
    then some false
    else prefix_loop (suc (length v.path)) u v

-- `AccountID32`, by a digest.
unfoldable pub account_id : (Bytes → Bytes) → Url → Bytes
unfolding lower normalize_path before_colon
account_id sum u = sum (lower (before_colon u.authority ++ normalize_path u.path))

unfoldable pub page_of : Url → Option (Bytes × Bytes) → Option (Url × ℕ)
unfolding parse_uint16
page_of u none = none
page_of u (some (_, after)) = elim (parse_uint16 after) [
  | none ↦ none
  | some n ↦ some (identity u, n)
]

-- protocol/protocol.go, `ParseKeyPageUrl`: the book and the index.
unfoldable pub parse_key_page_url : Url → Option (Url × ℕ)
unfolding page_of identity split_last
parse_key_page_url u = page_of u (split_last u.path)
