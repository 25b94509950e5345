-- ===== src/Url/Tests.antt =====
-- Runs of the URL functions.
use accumulate.Common.{◌≡◌, ◌≢◌, ◌≤◌, refl, [], ◌∷◌, true, none, some, length}
use accumulate.Common.Bytes.{Bytes, equal_bytes}
use accumulate.Url.Text.{lower}
use accumulate.Url.Parts.{Url, to_string, parse_key_page_url, prefix_of}
use accumulate.Url.Order.{Decides, prefix_of-Decides}

abbrev at_path : Bytes → Url
at_path p = record {
  user_info = [];
  authority = b'f' ∷ b'o' ∷ b'o' ∷ [];
  path = p;
  query = [];
  fragment = [];
}

-- acc://foo/b
abbrev book : Url
book = at_path (b'/' ∷ b'b' ∷ [])

-- acc://foo/b/12
abbrev page : Url
page = at_path (b'/' ∷ b'b' ∷ b'/' ∷ b'1' ∷ b'2' ∷ [])

to_string_runs :
    to_string (at_path (b'b' ∷ b' ' ∷ b'/' ∷ []))
    ≡ b'a' ∷ b'c' ∷ b'c' ∷ b':' ∷ b'/' ∷ b'/' ∷ b'f' ∷ b'o' ∷ b'o' ∷ b'/' ∷ b'b' ∷ b'%' ∷ b'2'
      ∷ b'0' ∷ []
unfolding to_string
to_string_runs = refl

page_parsed : parse_key_page_url page ≡ some (book, 12)
unfolding parse_key_page_url
page_parsed = refl

prefix_of-Decides_example :
    (prefix_of book page ≢ none)
    × (equal_bytes (lower book.authority) (lower page.authority) ≡ true
        → length book.path ≤ length page.path
        → Decides book page (prefix_of book page))
prefix_of-Decides_example = prefix_of-Decides book page
