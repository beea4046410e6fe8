-- ===== src/Transfer/RoundTrip.antt =====
-- What the program writes into `Range` and `Content-Range` it also reads, as when one instance is the
-- origin of another.
use proxysplit.Base.{
  ℕ, ◌+◌, ◌-◌, ◌≤◌, ◌<◌, min, ◌≡◌, refl, ap, ◌∙◌, true, false, ◌&&◌, some, [], ◌∷◌, ◌++◌, arith,
  ltb, leb, ◌==◌, nat_eq, length, All, All-append, All-map, contains, contains-append,
}
use proxysplit.Cache.Control.{codes}
use proxysplit.Text.{Text, is_space, strip}
use proxysplit.Text.Strip.{strip-All}
use proxysplit.Text.Parts.{last_part, last_part-append}
use proxysplit.Transfer.{is_digit, number, open_end, parse_range, client_window}
use proxysplit.Transfer.Decimal.{decimal, decimal_lem}
use proxysplit.Transfer.Headers.{range_header, content_range, all_digits, total_of}
use proxysplit.Transfer.RangeHeader.{digits-All, parse_range-digits}

digit-is_space : (c : ℕ) → is_digit c ≡ true → is_space c ≡ false
unfolding is_space
digit-is_space c h = ground arith

pub spaceless : (ds : Text) → All (λ c. is_digit c ≡ true) ds → All (λ c. is_space c ≡ false) ds
spaceless ds h = All-map (λ c. is_digit c ≡ true) (λ c. is_space c ≡ false) ds digit-is_space h

bytes_equals : All (λ c. is_space c ≡ false) (codes "bytes=")
unfolding is_space
bytes_equals = (refl, (refl, (refl, (refl, (refl, (refl, tt))))))

range_header-strip : (first last : ℕ) → strip (range_header first last) ≡ range_header first last
unfolding range_header is_space
range_header-strip first last =
    let ds = spaceless (decimal first) (decimal_lem first).1 in
    let es = spaceless (decimal last) (decimal_lem last).1 in
    strip-All (range_header first last) (
      All-append (λ c. is_space c ≡ false) (codes "bytes=" ++ decimal first) (b'-' ∷ decimal last)
        (All-append (λ c. is_space c ≡ false) (codes "bytes=") (decimal first) bytes_equals ds)
        (refl, es))

open_end-decimal : (n : ℕ) → open_end (decimal n) ≡ some n
open_end-decimal n =
    elim (decimal n) as (λ (s : Text). number s ≡ n → 0 < length s → open_end s ≡ some n) [
      | [] ↦ λ e pos. absurd (omega arith)
      | c ∷ ds ↦ λ e pos. ap some e
    ]
      (decimal_lem n).0 (decimal_lem n).2

pub all_digits-decimal : (n : ℕ) → all_digits (decimal n) ≡ true
unfolding all_digits
all_digits-decimal n =
    let (e, ds, pos) = decimal_lem n in rw (digits-All (decimal n) ds) (ground (arith, pos))

-- The header `Range` that a chunk is asked for with is read by the request handler as exactly the
-- window of that chunk, if the chunk lies in the content.
pub client_window-range_header :
    (content_length first last : ℕ)
    → first ≤ last
    → last < content_length
    → client_window content_length (some (range_header first last))
      ≡ record { start = first; stop = last + 1; is_partial = true }
unfolding client_window
client_window-range_header n first last le lt =
    let (e, ds, pos) = decimal_lem first in
    let read : parse_range (range_header first last) ≡ some (first, some last) =
      unfold range_header in
      parse_range-digits (decimal first) (decimal last) ds pos (decimal_lem last).1
      ∙ rw (e, open_end-decimal last) refl in
    let same = range_header-strip first last in
    let m : min last (n - 1) ≡ last = omega arith in
    let inside : (leb first last && ltb last n) ≡ true = ground arith in
    rw (same, client_window) (rw (read, client_window) (rw (m, client_window) (rw inside refl)))

-- The header `Content-Range` of a partial response is read by the probe as the length of the content.
pub total_of-content_range :
    (first last content_length : ℕ)
    → total_of (content_range first last content_length) ≡ some content_length
unfolding total_of
total_of-content_range first last n =
    let (e, ds, pos) = decimal_lem n in
    let front = codes "bytes " ++ decimal first ++ b'-' ∷ decimal last in
    let plain =
      All-map (λ c. is_digit c ≡ true) (λ c. (c == b'/') ≡ false) (decimal n) (λ c h. ground arith)
        ds in
    let total : last_part b'/' (content_range first last n) ≡ decimal n =
      unfold content_range in last_part-append b'/' front (decimal n) plain in
    let same = strip-All (decimal n) (spaceless (decimal n) ds) in
    let slashes = contains-append front (b'/' ∷ decimal n) b'/' in
    let slash : contains (content_range first last n) b'/' ≡ true =
      unfold content_range in ground (arith, slashes) in
    rw (total, total_of) (rw (same, total_of) (rw (slash, all_digits-decimal n) (ap some e)))
