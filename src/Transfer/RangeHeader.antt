-- ===== src/Transfer/RangeHeader.antt =====
-- proxy/handlers/inner.py: the window that a `Range` header asks for.
use proxysplit.Base.{
  ℕ, ◌≤◌, ◌<◌, ◌≡◌, refl, inl, inr, true, false, ◌&&◌, Option, none, some, [], ◌∷◌, ◌++◌, arith,
  ltb, leb, Bool-cases, Option-cases, nat_eq, length, All,
}
use proxysplit.Cache.Control.{codes}
use proxysplit.Text.{Text, starts_with, strip}
use proxysplit.Transfer.{is_digit, digits, number, open_end, parse_range, last_byte, client_window}

pub digits-append :
    (ds rest : Text)
    → All (λ c. is_digit c ≡ true) ds
    → (digits rest).0 ≡ []
    → (digits rest).1 ≡ rest
    → digits (ds ++ rest) ≡ (ds, rest)
unfolding digits
digits-append [] rest all none_first same = cc
digits-append (c ∷ ds) rest all none_first same =
    rw (digits-append ds rest all.1 none_first same) (rw all.0 refl)

pub digits-All : (ds : Text) → All (λ c. is_digit c ≡ true) ds → digits ds ≡ (ds, [])
unfolding digits
digits-All [] all = refl
digits-All (c ∷ ds) all = rw (digits-All ds all.1) (rw all.0 refl)

-- A header `bytes=N-M` or `bytes=N-`, its numbers in digits, is read as the numbers N and M, or N and
-- an open end.
pub parse_range-digits :
    (ds es : Text)
    → All (λ c. is_digit c ≡ true) ds
    → 0 < length ds
    → All (λ c. is_digit c ≡ true) es
    → parse_range (codes "bytes=" ++ ds ++ b'-' ∷ es) ≡ some (number ds, open_end es)
unfolding parse_range starts_with
parse_range-digits ds es all pos all' =
    let first = digits-append ds (b'-' ∷ es) all (dash es).0 (dash es).1 in
    let last = digits-All es all' in rw first (rw last (ground arith))
  where
    dash : (es : Text) → ((digits (b'-' ∷ es)).0 ≡ []) × ((digits (b'-' ∷ es)).1 ≡ b'-' ∷ es)
    dash es = (refl, refl)

-- The window lies in a content that is not empty, and is not empty itself; it is the whole content
-- unless the response is partial.
pub client_window-inside :
    (content_length : ℕ) (client_range : Option Text)
    → 0 < content_length
    → let w = client_window content_length client_range in
      (w.start < w.stop)
      × (w.stop ≤ content_length)
      × (w.is_partial ≡ false → (w.start ≡ 0) × (w.stop ≡ content_length))
unfolding client_window
client_window-inside n none pos = (omega arith, omega arith, λ h. (refl, refl))
client_window-inside n (some s) pos = elim (Option-cases (parse_range (strip s))) [
  | inl p ↦ rw (p, client_window) (omega arith, omega arith, λ h. (refl, refl))
  | inr ((first, raw), p) ↦
      rw (p, client_window)
        (elim (Bool-cases (leb first (last_byte n raw) && ltb (last_byte n raw) n)) [
          | inl q ↦ rw q (ground arith, ground arith, λ h. cc)
          | inr q ↦ rw q (omega arith, omega arith, λ h. (refl, refl))
        ])
]
