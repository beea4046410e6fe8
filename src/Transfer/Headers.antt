-- ===== src/Transfer/Headers.antt =====
-- The headers `Range` (proxy/fetchers/chunk.py) and `Content-Range` (proxy/handlers/inner.py), as they
-- are written, and how they are read by proxy/handlers/inner.py and proxy/fetchers/head.py.
use proxysplit.Base.{
  ℕ, Bool, ◌&&◌, Option, none, some, ◌∷◌, ◌++◌, ltb, if◌then◌else◌, ◌==◌, nat_eq, length, contains,
}
use proxysplit.Cache.Control.{codes}
use proxysplit.Text.{Text, strip}
use proxysplit.Text.Parts.{last_part}
use proxysplit.Transfer.{digits, number}
use proxysplit.Transfer.Decimal.{decimal}

-- `f"bytes={start}-{end}"`
unfoldable pub range_header : ℕ → ℕ → Text
range_header start last = codes "bytes=" ++ decimal start ++ b'-' ∷ decimal last

-- `f"bytes {effective_start}-{effective_end}/{content_length}"`
unfoldable pub content_range : ℕ → ℕ → ℕ → Text
content_range start last content_length =
    codes "bytes " ++ decimal start ++ b'-' ∷ decimal last ++ b'/' ∷ decimal content_length

-- `s.isdigit()`, for ASCII digits
unfoldable pub all_digits : Text → Bool
unfolding digits
all_digits s = ltb 0 (length s) && length (digits s).1 == 0

-- The total in a `Content-Range`: `"/" in cr`, and digits behind the last slash.
unfoldable pub total_of : Text → Option ℕ
unfolding last_part strip all_digits
total_of cr =
    let total_str = strip (last_part b'/' cr) in
    if contains cr b'/' && all_digits total_str then some (number total_str) else none
