-- ===== src/WebSocket/Doubled.antt =====
-- proxy/streaming/tunnel.py and proxy/streaming/websocket.py: the first line of an upgrade is read twice.
use proxysplit.Base.{
  ℕ, suc, ◌+◌, ◌<◌, min, ◌≡◌, refl, sym, ap, ◌∙◌, inl, inr, false, Option, some, List, [], ◌∷◌,
  ◌++◌, append_assoc, arith, Bool-cases, Option-cases, ◌==◌, nat_eq, list_eq, length, take,
  All-append, All-map,
}
use mathlib.Core.Option.{some-injective}
use proxysplit.Cache.Control.{codes}
use proxysplit.Text.{breaks_line, Text, lower, is_in, words, split_lines}
use proxysplit.Text.SplitLines.{IsLine, split_lines-append}
use proxysplit.Tunnel.{read_line, ends_headers, crlf, Route, closed, tunnel, plain, websocket}
use proxysplit.Tunnel.Dispatch.{handed_on, handed_on_bytes}
use proxysplit.Tunnel.Lines.{NoNewline, read_line-newline}
use proxysplit.WebSocket.{
  is_host_line, Address, no_host, crashes, address, Handled, relays, read_headers, handled_at,
  handle_target, handle_websocket_upgrade, rebuilt, rebuild_lines, upgrade_of, upgrade,
}
use proxysplit.WebSocket.Relay.{request_line}

abbrev request_of : Handled → Text
request_of (relays host port request left) = request
request_of _ = []

-- A request that is relayed is rebuilt from the header lines.
abbrev Rebuilt : Text → Text → Type 0
Rebuilt header_str request =
    (path : Text) × (host : Text) × (port : ℕ) × (request
      ≡ rebuilt path host port (split_lines header_str))

handled_at-Rebuilt :
    (path header_str left : Text) (a : Address) (host : Text) (port : ℕ) (request after : Text)
    → handled_at path header_str left a ≡ relays host port request after
    → Rebuilt header_str request
unfolding handled_at
handled_at-Rebuilt path header_str left no_host host port request after e = absurd (cc e)
handled_at-Rebuilt path header_str left crashes host port request after e = absurd (cc e)
handled_at-Rebuilt path header_str left (address h q) host port request after e =
    (path, h, q, sym (ap request_of e))

handle_target-Rebuilt :
    (ws_url : Text → Option (Text × ℕ × Text)) (parts : List Text) (header_str left host : Text)
    (port : ℕ) (request after : Text)
    → handle_target ws_url parts header_str left ≡ relays host port request after
    → Rebuilt header_str request
unfolding handle_target
handle_target-Rebuilt ws_url [] header_str left host port request after e = absurd (cc e)
handle_target-Rebuilt ws_url (method ∷ []) header_str left host port request after e = absurd (cc e)
handle_target-Rebuilt ws_url (method ∷ path ∷ more) header_str left host port request after e =
    elim (Option-cases (ws_url path)) [
      | inl relative ↦
          handled_at-Rebuilt path header_str left _ host port request after
            (rw (relative, handle_target) at e)
      | inr ((h, q, path_only), absolute) ↦
          handled_at-Rebuilt path_only header_str left (address h q) host port request after
            (rw (absolute, handle_target) at e)
    ]

crlf_goes_on : (line : Text) → IsLine line → 0 < length line → ends_headers (line ++ crlf) ≡ false
unfolding ends_headers
crlf_goes_on [] h pos = absurd (omega arith)
crlf_goes_on (c ∷ line) h pos = ground (arith, h.0.0, h.0.1)

upgrade_of-websocket :
    (ws_url : Text → Option (Text × ℕ × Text)) (first_line : Text) (r : Route) (h : Handled)
    → upgrade_of ws_url first_line r ≡ some h
    → (combined : Text) × (r ≡ websocket combined)
      × (handle_websocket_upgrade ws_url first_line combined ≡ h)
unfolding upgrade_of
upgrade_of-websocket ws_url first_line (websocket combined) h e =
    (combined, refl, some-injective _ _ e)
upgrade_of-websocket ws_url first_line (plain combined) h e = absurd (cc e)
upgrade_of-websocket ws_url first_line (tunnel host port rest) h e = absurd (cc e)
upgrade_of-websocket ws_url first_line closed h e = absurd (cc e)

handle_websocket_upgrade-Rebuilt :
    (ws_url : Text → Option (Text × ℕ × Text)) (first_line sent host : Text) (port : ℕ)
    (request left : Text)
    → handle_websocket_upgrade ws_url first_line sent ≡ relays host port request left
    → Rebuilt (first_line ++ (read_headers (length sent + 1) sent).0) request
unfolding handle_websocket_upgrade
handle_websocket_upgrade-Rebuilt ws_url first_line sent host port request left e =
    let header_str = first_line ++ (read_headers (length sent + 1) sent).0 in
    elim (Bool-cases (is_in (codes "upgrade: websocket") (lower header_str))) [
      | inl asked ↦
          handle_target-Rebuilt ws_url (words first_line) header_str _ host port request left
            (rw asked at e)
      | inr none_asked ↦ absurd (cc (rw none_asked at e))
    ]

module _ (line rest : Text) (plain : IsLine line) (pos : 0 < length line) where
  read_line-first : read_line (line ++ 13 ∷ 10 ∷ rest) ≡ (line ++ crlf, rest)
  read_line-first =
      let no_newline : NoNewline (line ++ 13 ∷ []) =
        All-append (λ c. (c == 10) ≡ false) line (13 ∷ [])
          (All-map (λ c. (breaks_line c ≡ false) × ((c == 13) ≡ false)) (λ c. (c == 10) ≡ false)
            line (λ c h. let shut : breaks_line c ≡ false = h.0 in ground (arith, shut)) plain)
          (refl, tt) in
      let shape = sym (append_assoc line (13 ∷ []) (10 ∷ rest)) in
      let back = append_assoc line (13 ∷ []) (10 ∷ []) in
      rw shape (read_line-newline (line ++ 13 ∷ []) rest no_newline) ∙ ap (λ l. (l, rest)) back

  read_headers-first :
      (fuel : ℕ)
      → (more : Text) × ((read_headers (suc fuel) (line ++ 13 ∷ 10 ∷ rest)).0
          ≡ line ++ 13 ∷ 10 ∷ more)
  unfolding read_headers
  read_headers-first fuel =
      let goes_on : ends_headers (line ++ crlf) ≡ false = crlf_goes_on line plain pos in
      let more = (read_headers fuel rest).0 in
      (more, rw (read_line-first, read_headers) (rw goes_on (append_assoc line crlf more)))

rebuilt-second :
    (path host : Text) (port : ℕ) (line : Text) (lines : List Text)
    → is_host_line line ≡ false
    → rebuilt path host port (line ∷ line ∷ lines)
      ≡ request_line path ++ 13 ∷ 10 ∷ (line ++ 13 ∷ 10 ∷ rebuild_lines host port lines)
unfolding rebuilt rebuild_lines
rebuilt-second path host port line lines no_host_line = rw no_host_line refl

-- The first line of an upgrade is read twice, by the handler and by the new reader: if it is not empty,
-- has no line break inside and is no `Host` line, the request that is sent upstream has the client's first
-- line as its second line, where a header should stand.
pub upgrade-doubled :
    (ws_url : Text → Option (Text × ℕ × Text)) (line rest : Text) (arrived : ℕ) (host : Text)
    (port : ℕ) (request left : Text)
    → IsLine line
    → 0 < length line
    → is_host_line line ≡ false
    → upgrade ws_url (line ++ 13 ∷ 10 ∷ rest) arrived ≡ some (relays host port request left)
    → (path : Text) × (more : Text) × (request
        ≡ request_line path ++ 13 ∷ 10 ∷ (line ++ 13 ∷ 10 ∷ more))
unfolding upgrade
upgrade-doubled ws_url line rest arrived host port request left plain_line pos no_host_line e =
    let sent = line ++ 13 ∷ 10 ∷ rest in
    let peek = take (min arrived 4096) rest in
    let first = read_line-first line rest plain_line pos in
    let (combined, r, handled) = upgrade_of-websocket ws_url _ _ _ e in
    let bytes = handed_on_bytes sent combined arrived (ap handed_on r) in
    let whole : combined ≡ line ++ 13 ∷ 10 ∷ peek =
      sym bytes ∙ rw first (append_assoc line crlf peek) in
    let handled' : handle_websocket_upgrade ws_url (line ++ crlf) (line ++ 13 ∷ 10 ∷ peek)
        ≡ relays host port request left =
      rw (first, whole) at handled in
    let (path, h, q, same) =
      handle_websocket_upgrade-Rebuilt ws_url (line ++ crlf) (line ++ 13 ∷ 10 ∷ peek) host port
        request left handled' in
    let (more, read) =
      read_headers-first line peek plain_line pos (length (line ++ 13 ∷ 10 ∷ peek)) in
    let e' : length (line ++ 13 ∷ 10 ∷ peek) + 1 ≡ suc (length (line ++ 13 ∷ 10 ∷ peek)) =
      omega arith in
    let header : (line ++ crlf)
          ++ (read_headers (length (line ++ 13 ∷ 10 ∷ peek) + 1) (line ++ 13 ∷ 10 ∷ peek)).0
        ≡ line ++ 13 ∷ 10 ∷ (line ++ 13 ∷ 10 ∷ more) =
      rw (e', read) (append_assoc line crlf (line ++ 13 ∷ 10 ∷ more)) in
    let lines =
      split_lines-append line (line ++ 13 ∷ 10 ∷ more) plain_line
      ∙ ap (λ ls. line ∷ ls) (split_lines-append line more plain_line) in
    (
      path,
      rebuild_lines h q (split_lines more),
      same
          ∙ ap (λ s. rebuilt path h q (split_lines s)) header
          ∙ ap (rebuilt path h q) lines
          ∙ rebuilt-second path h q line (split_lines more) no_host_line,
    )
