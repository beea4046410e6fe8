-- ===== src/Tunnel/Dispatch.antt =====
-- proxy/streaming/tunnel.py: a tunnel that one instance asks for is the tunnel that another one makes.
use proxysplit.Base.{
  ℕ, zero, suc, ◌+◌, ◌-◌, ◌≤◌, ◌<◌, min, ◌≡◌, refl, sym, ap, ◌∙◌, ◌⊎◌, inl, inr, true, false,
  Option, none, some, List, [], ◌∷◌, ◌++◌, append_assoc, arith, Bool-cases, ◌==◌, nat_eq, list_eq,
  length, take, drop, All, length-append, All-append, All-map,
}
use mathlib.Core.Option.{some-injective}
use proxysplit.Cache.Control.{codes}
use proxysplit.Text.{Text, is_blank, add_word, words, upper, upper_char, lower, starts_with, is_in}
use proxysplit.Text.Words.{words-append, rpartition-append, rpartition-All}
use proxysplit.Transfer.{is_digit}
use proxysplit.Transfer.Decimal.{decimal, decimal_lem}
use proxysplit.Transfer.Headers.{all_digits}
use proxysplit.Transfer.RoundTrip.{all_digits-decimal}
use proxysplit.Tunnel.{
  read_line, crlf, skip_headers, Route, tunnel, websocket, plain, target, connect_to, connect_route,
  route, connect_request,
}
use proxysplit.Tunnel.Lines.{
  NoNewline, IsHeader, read_line-append, append-read_line, skip_headers-header, skip_headers-crlf,
}

-- A host name or address: no spaces. It may have colons.
abbrev pub IsHost : Text → Type 0
IsHost host = All (λ c. is_blank c ≡ false) host

-- No line, or one line.
abbrev pub IsAuth : Text → Type 0
IsAuth auth =
    (auth ≡ []) ⊎ ((line : Text) × (auth ≡ line ++ crlf) × NoNewline line × (0 < length line))

address : Text → ℕ → Text
address host port = host ++ b':' ∷ decimal port

address-IsHost : (host : Text) (port : ℕ) → IsHost host → IsHost (address host port)
unfolding address
address-IsHost host port h =
    All-append (λ c. is_blank c ≡ false) host (b':' ∷ decimal port) h
      (
        refl,
        All-map (λ c. is_digit c ≡ true) (λ c. is_blank c ≡ false) (decimal port)
            (λ c d. ground arith) (decimal_lem port).1,
      )

IsHost-NoNewline : (s : Text) → IsHost s → NoNewline s
IsHost-NoNewline s h =
    All-map (λ c. is_blank c ≡ false) (λ c. (c == 10) ≡ false) s (λ c d. ground arith) h

add_word-pos : (w : Text) (ws : List Text) → 0 < length w → add_word w ws ≡ w ∷ ws
add_word-pos [] ws h = absurd (omega arith)
add_word-pos (c ∷ w) ws h = refl

address-pos : (host : Text) (port : ℕ) → 0 < length (address host port)
unfolding address
address-pos host port = omega (arith, length-append host (b':' ∷ decimal port))

target-address : (host : Text) (port : ℕ) → target (address host port) ≡ (host, port)
unfolding target address
target-address host port =
    let (e, ds, pos) = decimal_lem port in
    let plain_port =
      All-map (λ c. is_digit c ≡ true) (λ c. (c == b':') ≡ false) (decimal port)
        (λ c d. ground arith) ds in
    rw (rpartition-append b':' host (decimal port) plain_port)
      (rw (all_digits-decimal port, e) refl)

-- The first line of the request.
first_line : Text → ℕ → Text
unfolding address
first_line host port = codes "CONNECT " ++ (address host port ++ (codes " HTTP/1.1" ++ crlf))

words-first_line :
    (host : Text) (port : ℕ)
    → IsHost host
    → (ws : List Text) × (words (first_line host port) ≡ codes "CONNECT" ∷ address host port ∷ ws)
unfolding first_line
words-first_line host port h =
    let tail = codes "HTTP/1.1" ++ crlf in
    let second = words-append (address host port) tail 32 (address-IsHost host port h) refl in
    let first =
      words-append (codes "CONNECT") (address host port ++ 32 ∷ tail) 32
        (refl, (refl, (refl, (refl, (refl, (refl, (refl, tt))))))) refl in
    (
      words tail,
      first ∙ ap (λ ws. codes "CONNECT" ∷ ws) (second ∙ add_word-pos _ _ (address-pos host port)),
    )

-- What follows the first line, up to the data.
headers : Text → ℕ → Text → Text
unfolding address
headers host port auth = codes "Host: " ++ (address host port ++ (crlf ++ (auth ++ crlf)))

return-IsHeader : (line : Text) → NoNewline line → 0 < length line → IsHeader (line ++ 13 ∷ [])
return-IsHeader line h pos = (
  All-append (λ c. (c == 10) ≡ false) line (13 ∷ []) h (refl, tt),
  omega (arith, length-append line (13 ∷ [])),
)

skip-auth :
    (fuel : ℕ) (auth rest : Text)
    → IsAuth auth
    → skip_headers (suc (suc fuel)) (auth ++ (crlf ++ rest)) ≡ rest
skip-auth fuel auth rest (inl none_given) = rw none_given (skip_headers-crlf (suc fuel) rest)
skip-auth fuel auth rest (inr (line, e, plain_line, pos)) =
    let shape : auth ++ (crlf ++ rest) ≡ (line ++ 13 ∷ []) ++ 10 ∷ (crlf ++ rest) = rw e (
      append_assoc line crlf (crlf ++ rest)
      ∙ sym (append_assoc line (13 ∷ []) (10 ∷ (crlf ++ rest)))) in
    rw shape (
      skip_headers-header (suc fuel) (line ++ 13 ∷ []) (crlf ++ rest)
        (return-IsHeader line plain_line pos)
      ∙ skip_headers-crlf fuel rest)

skip_headers-headers :
    (fuel : ℕ) (host : Text) (port : ℕ) (auth rest : Text)
    → IsHost host
    → IsAuth auth
    → skip_headers (suc (suc (suc fuel))) (headers host port auth ++ rest) ≡ rest
skip_headers-headers fuel host port auth rest h a =
    let front = codes "Host: " ++ address host port in
    let shape : headers host port auth ++ rest
        ≡ (front ++ 13 ∷ []) ++ 10 ∷ (auth ++ (crlf ++ rest)) =
      unfold headers in simp (append_assoc) in
    let named =
      All-append (λ c. (c == 10) ≡ false) (codes "Host: ") (address host port)
        (refl, (refl, (refl, (refl, (refl, (refl, tt))))))
        (IsHost-NoNewline (address host port) (address-IsHost host port h)) in
    rw shape (
      skip_headers-header (suc (suc fuel)) (front ++ 13 ∷ []) (auth ++ (crlf ++ rest)) (
        return-IsHeader front named
          (omega (arith, length-append (codes "Host: ") (address host port))))
      ∙ skip-auth fuel auth rest a)

read_line-first_line :
    (host : Text) (port : ℕ) (rest : Text)
    → IsHost host
    → read_line (first_line host port ++ rest) ≡ (first_line host port, rest)
read_line-first_line host port rest h =
    let front = codes "CONNECT " ++ (address host port ++ codes " HTTP/1.1") in
    let shape : first_line host port ++ rest ≡ front ++ 13 ∷ 10 ∷ rest =
      unfold first_line in simp (append_assoc) in
    let same : first_line host port ≡ front ++ crlf = unfold first_line in simp (append_assoc) in
    let named =
      All-append (λ c. (c == 10) ≡ false) (address host port) (codes " HTTP/1.1")
        (IsHost-NoNewline (address host port) (address-IsHost host port h))
        (refl, (refl, (refl, (refl, (refl, (refl, (refl, (refl, (refl, tt))))))))) in
    rw (shape, same)
      (read_line-append front (13 ∷ 10 ∷ rest)
          (refl, (refl, (refl, (refl, (refl, (refl, (refl, (refl, named))))))))
        ∙ unfold read_line in refl)

begins-first_line :
    (host : Text) (port : ℕ) → starts_with (codes "CONNECT ") (upper (first_line host port)) ≡ true
unfolding first_line starts_with upper_char
begins-first_line host port = refl

connect_route-first_line :
    (host : Text) (port : ℕ) (rest : Text)
    → IsHost host
    → connect_route (first_line host port) rest
      ≡ tunnel host port (skip_headers (length rest + 1) rest)
unfolding connect_to
connect_route-first_line host port rest h =
    let (ws, split) = words-first_line host port h in
    let skipped = skip_headers (length rest + 1) rest in
    rw split (ap (λ (t : Text × ℕ). tunnel t.0 t.1 skipped) (target-address host port))

skip-headers :
    (host : Text) (port : ℕ) (auth rest : Text)
    → IsHost host
    → IsAuth auth
    → let sent = headers host port auth ++ rest in skip_headers (length sent + 1) sent ≡ rest
skip-headers host port auth rest h a =
    let sent = headers host port auth ++ rest in
    let long : 2 ≤ length sent = unfold headers in omega arith in
    let e : length sent + 1 ≡ suc (suc (suc (length sent - 2))) = omega (arith, long) in
    rw e (skip_headers-headers (length sent - 2) host port auth rest h a)

-- The request of `handle_connect` for a tunnel to a host and a port, with a line of credentials or
-- none, is read by the raw handler of another instance as exactly that tunnel, and what follows the
-- request is what the tunnel carries first.
pub route-connect_request :
    (host : Text) (port : ℕ) (auth rest : Text) (arrived : ℕ)
    → IsHost host
    → IsAuth auth
    → route (some (connect_request host port auth ++ rest)) arrived ≡ tunnel host port rest
unfolding route
route-connect_request host port auth rest arrived h a =
    let sent = headers host port auth ++ rest in
    let shape : connect_request host port auth ++ rest ≡ first_line host port ++ sent =
      unfold connect_request in
      unfold headers in unfold first_line in unfold address in simp (append_assoc) in
    rw (shape, route)
      (rw (read_line-first_line host port sent h, route)
        (rw (begins-first_line host port, route)
          (connect_route-first_line host port sent h
            ∙ ap (tunnel host port) (skip-headers host port auth rest h a))))

-- A target without a port is not taken for a host: the host of the tunnel is empty, and the port 443.
pub target_no_port :
    (host : Text)
    → All (λ c. (c == b':') ≡ false) host
    → all_digits host ≡ false
    → target host ≡ ([], 443)
unfolding target
target_no_port host h named = rw (rpartition-All b':' host h) (rw named refl)

-- What is handed on of a request that is no tunnel.
abbrev pub handed_on : Route → Option Text
handed_on (websocket combined) = some combined
handed_on (plain combined) = some combined
handed_on _ = none

handed_on-connect_to : (ws : List Text) (rest : Text) → handed_on (connect_to ws rest) ≡ none
unfolding connect_to
handed_on-connect_to [] rest = refl
handed_on-connect_to (method ∷ []) rest = refl
handed_on-connect_to (method ∷ hp ∷ more) rest = refl

take-append-drop : (n : ℕ) (xs : Text) → take n xs ++ drop n xs ≡ xs
take-append-drop zero xs = refl
take-append-drop (suc n) [] = refl
take-append-drop (suc n) (x ∷ xs) = ap (λ ys. x ∷ ys) (take-append-drop n xs)

pub handed_on_bytes :
    (sent combined : Text) (arrived : ℕ)
    → handed_on (route (some sent) arrived) ≡ some combined
    → (read_line sent).0 ++ take (min arrived 4096) (read_line sent).1 ≡ combined
unfolding route
handed_on_bytes sent combined arrived h =
    let line = (read_line sent).0 in
    let rest = (read_line sent).1 in
    let k = min arrived 4096 in
    elim (Bool-cases (starts_with (codes "CONNECT ") (upper line))) [
      | inl connect ↦ cc (rw connect at h, handed_on-connect_to (words line) rest)
      | inr other ↦
          elim (Bool-cases (is_in (codes "upgrade: websocket") (lower (line ++ take k rest)))) [
            | inl upgrade ↦ some-injective _ _ (rw (other, upgrade) at h)
            | inr none_asked ↦ some-injective _ _ (rw (other, none_asked) at h)
          ]
    ]

-- The bytes that were read of a request that is no tunnel are handed on from the first one, without a
-- gap, and nothing of the client's first line is lost.
pub handed_on-route :
    (sent combined : Text) (arrived : ℕ)
    → handed_on (route (some sent) arrived) ≡ some combined
    → (later : Text) × (combined ++ later ≡ sent) × (length (read_line sent).0 ≤ length combined)
handed_on-route sent combined arrived h =
    let line = (read_line sent).0 in
    let rest = (read_line sent).1 in
    let k = min arrived 4096 in
    let same = handed_on_bytes sent combined arrived h in
    (
      drop k rest,
      rw (← same) (
          append_assoc line (take k rest) (drop k rest)
          ∙ ap (λ xs. line ++ xs) (take-append-drop k rest)
          ∙ append-read_line sent),
      rw (← same) (omega (arith, length-append line (take k rest))),
    )
