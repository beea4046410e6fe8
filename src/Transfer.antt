-- ===== src/Transfer.antt =====
-- proxy/handlers/inner.py: the window of bytes that a client asks for, the assembly of the chunks, and
-- `handle_inner`. A window ends before its `stop`, as in `Ranges`.
pub mod Assembly
pub mod RangeHeader
pub mod Inner
pub mod Delivery
pub mod Decimal
pub mod Headers
pub mod RoundTrip
use Prim.Native.Char.{code}
use proxysplit.Base.{
  ℕ, zero, suc, ◌+◌, ◌-◌, ◌*◌, min, Bool, true, false, ◌&&◌, Option, none, some, List, [], ◌∷◌,
  ◌++◌, ltb, leb, if◌then◌else◌, ◌==◌, nat_eq, length, drop,
}
use proxysplit.Cache.Control.{codes}
use proxysplit.Chunk.{Result, fetched, raised}
use proxysplit.Dict.{Dict, lookup, insert}
use proxysplit.Ranges.{Range}
use proxysplit.Text.{Text, starts_with, strip}

abbrev pub is_digit : ℕ → Bool
is_digit c = leb b'0' c && leb c b'9'

-- The digits in front, and the rest.
unfoldable pub digits : Text → Text × Text
digits [] = ([], [])
digits (c ∷ s) = let (ds, rest) = digits s in if is_digit c then (c ∷ ds, rest) else ([], c ∷ s)

-- `int(digits)`
unfoldable pub number_from : ℕ → Text → ℕ
number_from acc [] = acc
number_from acc (c ∷ ds) = number_from (acc * 10 + (c - b'0')) ds

abbrev pub number : Text → ℕ
number ds = number_from 0 ds

abbrev pub open_end : Text → Option ℕ
open_end [] = none
open_end (c ∷ ds) = some (number (c ∷ ds))

-- The first and the last byte of a match of `bytes=(\d+)-(\d*)$`; ASCII digits.
unfoldable pub parse_range : Text → Option (ℕ × Option ℕ)
unfolding starts_with digits
parse_range s =
    let (first, rest) = digits (drop 6 s) in
    let (last, tail) = digits (drop 1 rest) in
    if starts_with (codes "bytes=") s
      && ltb 0 (length first)
      && starts_with (codes "-") rest
      && length tail == 0
    then some (number first, open_end last)
    else none

pub record Window : Type 0 where
  pub start : ℕ
  pub stop : ℕ
  pub is_partial : Bool

abbrev pub last_byte : ℕ → Option ℕ → ℕ
last_byte content_length none = content_length - 1
last_byte content_length (some n) = min n (content_length - 1)

-- `effective_start` and `effective_end`, for a content that is not empty.
unfoldable pub client_window : ℕ → Option Text → Window
unfolding parse_range strip
client_window content_length client_range =
    let whole : Window = record { start = 0; stop = content_length; is_partial = false } in
    elim client_range [
      | none ↦ whole
      | some s ↦ elim (parse_range (strip s)) [
        | none ↦ whole
        | some (first, raw) ↦
            let last = last_byte content_length raw in
            if leb first last && ltb last content_length
            then record { start = first; stop = last + 1; is_partial = true }
            else whole
      ]
    ]

-- `chunks[cidx] = data` for every result, or the first error.
unfoldable pub collect : List Result → Dict ℕ (List ℕ) → Option (Dict ℕ (List ℕ))
collect [] chunks = some chunks
collect (fetched cidx data_ status proxy ∷ results) chunks =
    collect results (insert cidx data_ chunks)
collect (raised exc ∷ results) chunks = none

-- `len(chunks.get(i, b""))`
abbrev pub size_of : Option (List ℕ) → ℕ
size_of none = 0
size_of (some bytes) = length bytes

unfoldable pub all_sized : List Range → Dict ℕ (List ℕ) → Bool
all_sized [] chunks = true
all_sized (r ∷ ranges) chunks =
    size_of (lookup r.index chunks) == r.last - r.first + 1 && all_sized ranges chunks

-- `b"".join(chunks[i] for i in range(num_chunks))`, from the index `i`; `none` for a `KeyError`.
unfoldable pub join_from : ℕ → ℕ → Dict ℕ (List ℕ) → Option (List ℕ)
join_from i zero chunks = some []
join_from i (suc n) chunks = elim (lookup i chunks) [
  | none ↦ none
  | some bytes ↦ elim (join_from (i + 1) n chunks) [
    | none ↦ none
    | some rest ↦ some (bytes ++ rest)
  ]
]

-- A response: its status, its body (that of an error is not modelled) and the window of
-- `Content-Range`.
pub record Reply : Type 0 where
  pub status : ℕ
  pub body : List ℕ
  pub content_range : Option (ℕ × ℕ × ℕ)

abbrev pub bad_gateway : Reply
bad_gateway = record { status = 502; body = []; content_range = none }

-- The part of `handle_inner` behind `asyncio.gather`; `none` for a `KeyError`.
unfoldable pub assemble : ℕ → Window → List Range → List Result → Option Reply
unfolding collect all_sized join_from
assemble content_length w ranges results = elim (collect results []) [
  | none ↦ some bad_gateway
  | some chunks ↦
      if all_sized ranges chunks
      then elim (join_from 0 (length ranges) chunks) [
        | none ↦ none
        | some assembled ↦
            let reply : Reply = record {
              status = if w.is_partial then 206 else 200;
              body = assembled;
              content_range =
                  if w.is_partial then some (w.start, w.stop - 1, content_length) else none;
            } in
            if length assembled == w.stop - w.start then some reply else some bad_gateway
      ]
      else some bad_gateway
]
