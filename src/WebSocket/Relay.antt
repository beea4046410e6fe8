-- ===== src/WebSocket/Relay.antt =====
-- proxy/streaming/websocket.py: the request that is sent upstream asks for the same host and port.
use proxysplit.Base.{
  ℕ, zero, suc, ◌<◌, ◌≡◌, refl, ap, ◌∙◌, inl, inr, Bool, true, false, ◌||◌, some, List, [], ◌∷◌,
  ◌++◌, map, arith, if◌then◌else◌, Bool-cases, ◌==◌, nat_eq, list_eq, length, drop, All, All-append,
  All-map, contains, contains-append,
}
use proxysplit.Cache.Control.{codes}
use proxysplit.Head.{int_of}
use proxysplit.Head.Content.{int_of-decimal}
use proxysplit.Text.{
  Text, lower_char, starts_with, rpartition, split_lines, breaks_line, strip, lstrip, is_space,
}
use proxysplit.Text.SplitLines.{
  IsLine, join_lines, split_lines-append, split_lines-join_lines, split_lines-All,
}
use proxysplit.Text.Strip.{strip-All}
use proxysplit.Text.Words.{rpartition-append}
use proxysplit.Transfer.{is_digit}
use proxysplit.Transfer.Decimal.{decimal, decimal_lem}
use proxysplit.Transfer.RoundTrip.{spaceless}
use proxysplit.WebSocket.{
  is_host_line, host_header, address, address_at, address_of, host_line, rebuild_lines, rebuilt,
}

-- A name without spaces, and not empty.
abbrev pub IsName : Text → Type 0
IsName host = All (λ c. is_space c ≡ false) host × (0 < length host)

abbrev pub has_host : List Text → Bool
has_host [] = false
has_host (line ∷ lines) = is_host_line line || has_host lines

abbrev pub with_host : Text → ℕ → Text → Text
with_host host port line = if is_host_line line then host_line host port else line

nonempty : (s : Text) → 0 < length s → (s == []) ≡ false
nonempty [] h = absurd (omega arith)
nonempty (c ∷ s) h = refl

-- It is read back as a `Host` line, whatever follows `Host: `.
is_host_line-host_line : (host : Text) (port : ℕ) → is_host_line (host_line host port) ≡ true
unfolding lower_char starts_with
is_host_line-host_line host port = refl

module _ (host : Text) (port : ℕ) (named : IsName host) where
  address_text : Text
  address_text = host ++ b':' ∷ decimal port

  address_text-spaceless : All (λ c. is_space c ≡ false) address_text
  unfolding address_text is_space
  address_text-spaceless =
      All-append (λ c. is_space c ≡ false) host (b':' ∷ decimal port) named.0
        (refl, spaceless (decimal port) (decimal_lem port).1)

  host_line-IsLine : IsLine (host_line host port)
  unfolding address_text
  host_line-IsLine =
      All-append (λ c. (breaks_line c ≡ false) × ((c == 13) ≡ false)) (codes "Host: ") address_text
        (
          (refl, refl),
          ((refl, refl), ((refl, refl), ((refl, refl), ((refl, refl), ((refl, refl), tt))))),
        )
        (All-map (λ c. is_space c ≡ false) (λ c. (breaks_line c ≡ false) × ((c == 13) ≡ false))
          address_text (λ c h. unfold is_space in ground arith) address_text-spaceless)

  value_of_host_line : strip (drop 5 (host_line host port)) ≡ address_text
  unfolding address_text strip lstrip is_space
  value_of_host_line = unfold strip in strip-All address_text address_text-spaceless

  address_of-address_text : address_of (some address_text) ≡ address host port
  unfolding address_of address_at address_text
  address_of-address_text =
      let plain_port =
        All-map (λ c. is_digit c ≡ true) (λ c. (c == b':') ≡ false) (decimal port)
          (λ c d. ground arith) (decimal_lem port).1 in
      let colons = contains-append host (b':' ∷ decimal port) b':' in
      let colon : contains address_text b':' ≡ true = ground (arith, colons) in
      let parts : rpartition b':' address_text ≡ (host, decimal port) =
        rpartition-append b':' host (decimal port) plain_port in
      let at_port : address_at host (int_of (decimal port)) ≡ address host port =
        rw (int_of-decimal port) (rw (nonempty host named.1) refl) in
      rw (colon, address_of) (ap (λ (p : Text × Text). address_at p.0 (int_of p.1)) parts ∙ at_port)

  host_header-map :
      (lines : List Text)
      → has_host lines ≡ true
      → host_header (map (with_host host port) lines) ≡ some address_text
  unfolding host_header
  host_header-map [] h = cc
  host_header-map (line ∷ lines) h = elim (Bool-cases (is_host_line line)) [
    | inl here ↦
        let e : with_host host port line ≡ host_line host port = rw here refl in
        rw e (rw (is_host_line-host_line host port) (ap some value_of_host_line))
    | inr later ↦
        let e : with_host host port line ≡ line = rw later refl in
        rw e (rw later (host_header-map lines (rw later at h)))
  ]

rebuild_lines-join_lines :
    (host : Text) (port : ℕ) (lines : List Text)
    → rebuild_lines host port lines ≡ join_lines (map (with_host host port) lines)
unfolding rebuild_lines
rebuild_lines-join_lines host port [] = refl
rebuild_lines-join_lines host port (line ∷ lines) =
    ap (λ s. with_host host port line ++ 13 ∷ 10 ∷ s) (rebuild_lines-join_lines host port lines)

with_host-All :
    (host : Text) (port : ℕ) (lines : List Text)
    → IsName host
    → All IsLine lines
    → All IsLine (map (with_host host port) lines)
with_host-All host port [] named h = tt
with_host-All host port (line ∷ lines) named h = (
  elim (Bool-cases (is_host_line line)) [
    | inl here ↦ rw here (host_line-IsLine host port named)
    | inr later ↦ rw later h.0
  ],
  with_host-All host port lines named h.1,
)

drop-All : (n : ℕ) (lines : List Text) → All IsLine lines → All IsLine (drop n lines)
drop-All zero lines h = h
drop-All (suc n) [] h = tt
drop-All (suc n) (line ∷ lines) h = drop-All n lines h.1

abbrev pub request_line : Text → Text
request_line path = codes "GET " ++ (path ++ codes " HTTP/1.1")

split_lines-rebuilt :
    (path host : Text) (port : ℕ) (lines : List Text)
    → IsLine path
    → IsName host
    → All IsLine lines
    → split_lines (rebuilt path host port lines)
      ≡ request_line path ∷ map (with_host host port) (drop 1 lines)
unfolding rebuilt
split_lines-rebuilt path host port lines plain named h =
    let kept = drop 1 lines in
    let first = split_lines-append (request_line path) (rebuild_lines host port kept) (
      (refl, refl),
      (
        (refl, refl),
        (
          (refl, refl),
          (
            (refl, refl),
            All-append (λ c. (breaks_line c ≡ false) × ((c == 13) ≡ false)) path (codes " HTTP/1.1")
                plain
                ((
                  (refl, refl),
                  (
                    (refl, refl),
                    (
                      (refl, refl),
                      (
                        (refl, refl),
                        (
                          (refl, refl),
                          ((refl, refl), ((refl, refl), ((refl, refl), ((refl, refl), tt)))),
                        ),
                      ),
                    ),
                  ),
                )),
          ),
        ),
      ),
    ) in
    first
    ∙ ap (λ ls. request_line path ∷ ls)
        (rw (rebuild_lines-join_lines host port kept) (
          split_lines-join_lines (map (with_host host port) kept)
            (with_host-All host port kept named (drop-All 1 lines h))))

not_host : (path : Text) → is_host_line (request_line path) ≡ false
unfolding lower_char starts_with
not_host path = refl

-- If the path has no line break, the host is a name without spaces and not empty, and a line behind the
-- first one of the header text is a `Host` line: what is rebuilt from the header text has a new first
-- line, and then the lines of the header text behind its first one, the `Host` lines anew. It is read, by
-- another instance, as a request for the same host and port. (In an upgrade the header text begins with
-- the client's first line twice, so that the second one is among the lines that are kept.)
pub rebuilt_lem :
    (path host : Text) (port : ℕ) (header_str : Text)
    → IsLine path
    → IsName host
    → has_host (drop 1 (split_lines header_str)) ≡ true
    → let lines = split_lines (rebuilt path host port (split_lines header_str)) in
      (lines ≡ request_line path ∷ map (with_host host port) (drop 1 (split_lines header_str)))
      × (address_of (host_header lines) ≡ address host port)
unfolding host_header
rebuilt_lem path host port header_str plain named h =
    let split =
      split_lines-rebuilt path host port (split_lines header_str) plain named
        (split_lines-All header_str) in
    let found = host_header-map host port named (drop 1 (split_lines header_str)) h in
    (split, rw split (rw (not_host path) (rw found (address_of-address_text host port named))))
