-- ===== src/Tunnel/Lines.antt =====
-- proxy/streaming/tunnel.py: the lines of a request, and the end of its headers.
use proxysplit.Base.{
  ℕ, zero, suc, ◌+◌, ◌<◌, ◌≡◌, refl, ap, inl, inr, false, [], ◌∷◌, ◌++◌, arith, Bool-cases, ◌==◌,
  nat_eq, list_eq, length, All, length-append,
}
use proxysplit.Text.{Text}
use proxysplit.Tunnel.{read_line, crlf, ends_headers, skip_headers}

abbrev pub NoNewline : Text → Type 0
NoNewline s = All (λ c. (c == 10) ≡ false) s

pub read_line-newline :
    (line rest : Text) → NoNewline line → read_line (line ++ 10 ∷ rest) ≡ (line ++ 10 ∷ [], rest)
unfolding read_line
read_line-newline [] rest h = refl
read_line-newline (c ∷ line) rest h = rw (read_line-newline line rest h.1) (rw h.0 refl)

pub read_line-append :
    (front rest : Text)
    → NoNewline front
    → read_line (front ++ rest) ≡ (front ++ (read_line rest).0, (read_line rest).1)
unfolding read_line
read_line-append [] rest h = refl
read_line-append (c ∷ front) rest h = rw (read_line-append front rest h.1) (rw h.0 refl)

-- Nothing is lost by reading a line.
pub append-read_line : (s : Text) → (read_line s).0 ++ (read_line s).1 ≡ s
unfolding read_line
append-read_line [] = refl
append-read_line (c ∷ s) = elim (Bool-cases (c == 10)) [
  | inl last ↦ rw last refl
  | inr more ↦ rw more (ap (λ xs. c ∷ xs) (append-read_line s))
]

-- A line of a header: it is not empty but for the line break.
abbrev pub IsHeader : Text → Type 0
IsHeader line = NoNewline line × (1 < length line)

pub header_goes_on : (line : Text) → IsHeader line → ends_headers (line ++ 10 ∷ []) ≡ false
unfolding ends_headers
header_goes_on [] h = absurd (omega (arith, h.1))
header_goes_on (c ∷ []) h = absurd (omega (arith, h.1))
header_goes_on (c ∷ d ∷ line) h = ground (arith, h.0.1.0)

pub skip_headers-header :
    (fuel : ℕ) (line rest : Text)
    → IsHeader line
    → skip_headers (suc fuel) (line ++ 10 ∷ rest) ≡ skip_headers fuel rest
unfolding skip_headers
skip_headers-header fuel line rest h =
    rw (read_line-newline line rest h.0, skip_headers) (rw (header_goes_on line h) refl)

pub skip_headers-crlf : (fuel : ℕ) (rest : Text) → skip_headers (suc fuel) (crlf ++ rest) ≡ rest
unfolding skip_headers read_line ends_headers
skip_headers-crlf fuel rest = refl

goes_on_pos : (line : Text) → ends_headers line ≡ false → 0 < length line
unfolding ends_headers
goes_on_pos [] h = cc
goes_on_pos (c ∷ line) h = omega arith

-- The loop ends with the fuel that it is given, whatever the client sends: more fuel changes nothing.
pub skip_headers_enough :
    (fuel more : ℕ) (s : Text)
    → length s < fuel
    → skip_headers (fuel + more) s ≡ skip_headers fuel s
unfolding skip_headers
skip_headers_enough zero more s h = absurd (omega arith)
skip_headers_enough (suc fuel) more s h =
    let e : suc fuel + more ≡ suc (fuel + more) = omega arith in
    let line = (read_line s).0 in
    let rest = (read_line s).1 in
    rw e (elim (Bool-cases (ends_headers line)) [
      | inl last ↦ rw last refl
      | inr on ↦
          let whole = ap length (append-read_line s) in
          let pos = goes_on_pos line on in
          let shorter : length rest < fuel =
            omega (arith, h, whole, length-append line rest, pos) in
          rw on (skip_headers_enough fuel more rest shorter)
    ])
