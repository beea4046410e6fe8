-- ===== src/WebSocket.antt =====
-- proxy/streaming/websocket.py: `handle_websocket_upgrade`. How `urllib.parse` takes a `ws` URL apart,
-- and what comes back from a proxy, are arguments. Texts are ASCII.
pub mod Relay
pub mod Doubled
use proxysplit.Base.{
  ℕ, zero, suc, ◌+◌, Bool, Option, none, some, List, [], ◌∷◌, ◌++◌, if◌then◌else◌, ◌==◌, nat_eq,
  list_eq, length, drop, contains,
}
use proxysplit.Cache.Control.{codes}
use proxysplit.Head.{int_of}
use proxysplit.Text.{Text, lower, starts_with, is_in, words, rpartition, split_lines, strip}
use proxysplit.Transfer.Decimal.{decimal}
use proxysplit.Tunnel.{read_line, ends_headers, Route, closed, tunnel, websocket, plain, route}

-- The `while True` loop with fuel: the lines up to the end of the headers, and what is left.
unfoldable pub read_headers : ℕ → Text → Text × Text
unfolding read_line ends_headers
read_headers zero s = ([], s)
read_headers (suc fuel) s =
    let (line, rest) = read_line s in
    let (more, left) = read_headers fuel rest in
    if ends_headers line then (line, rest) else (line ++ more, left)

abbrev pub is_host_line : Text → Bool
is_host_line line = starts_with (codes "host:") (lower line)

-- The value of the first `Host` header: `line.split(":", 1)[1].strip()`, behind `host:`.
unfoldable pub host_header : List Text → Option Text
unfolding starts_with strip
host_header [] = none
host_header (line ∷ lines) =
    let rest = host_header lines in if is_host_line line then some (strip (drop 5 line)) else rest

-- The host and the port; `crashes` is the `ValueError` of `int(portstr)`, which nothing catches.
pub data Address : Type 0 where
  no_host crashes : Address
  address : Text → ℕ → Address

unfoldable pub address_at : Text → Option ℕ → Address
address_at host none = crashes
address_at host (some port) = if host == [] then no_host else address host port

unfoldable pub address_of : Option Text → Address
unfolding rpartition int_of address_at
address_of none = no_host
address_of (some value) =
    let (host, portstr) = rpartition b':' value in
    if contains value b':'
    then address_at host (int_of portstr)
    else if value == []
    then no_host
    else address value 80

-- The request for the upstream: the line and the lines behind the first one, the `Host` lines anew.
abbrev pub host_line : Text → ℕ → Text
host_line host port = codes "Host: " ++ (host ++ b':' ∷ decimal port)

unfoldable pub rebuild_lines : Text → ℕ → List Text → Text
unfolding starts_with
rebuild_lines host port [] = []
rebuild_lines host port (line ∷ lines) =
    (if is_host_line line then host_line host port else line)
    ++ 13 ∷ 10 ∷ rebuild_lines host port lines

unfoldable pub rebuilt : Text → Text → ℕ → List Text → Text
unfolding rebuild_lines
rebuilt path_only host port lines =
    (codes "GET " ++ (path_only ++ codes " HTTP/1.1"))
    ++ 13 ∷ 10 ∷ rebuild_lines host port (drop 1 lines)

-- How a request is handled: not at all, with an error that the client is told, or by a relay to an
-- address with a request, and with what the client sent behind its headers.
pub data Handled : Type 0 where
  not_websocket bad_request crashed : Handled
  relays : Text → ℕ → Text → Text → Handled

-- `ws_url` is the host, the port and the path of a URL with the scheme `ws` or `wss`.
unfoldable pub handled_at : Text → Text → Text → Address → Handled
unfolding rebuilt split_lines
handled_at path_only header_str left no_host = bad_request
handled_at path_only header_str left crashes = crashed
handled_at path_only header_str left (address host port) =
    relays host port (rebuilt path_only host port (split_lines header_str)) left

unfoldable pub handle_target : (Text → Option (Text × ℕ × Text)) → List Text → Text → Text → Handled
unfolding handled_at host_header address_of split_lines
handle_target ws_url [] header_str left = bad_request
handle_target ws_url (method ∷ []) header_str left = bad_request
handle_target ws_url (method ∷ path ∷ more) header_str left = elim (ws_url path) [
  | some (host, port, path_only) ↦ handled_at path_only header_str left (address host port)
  | none ↦ handled_at path header_str left (address_of (host_header (split_lines header_str)))
]

unfoldable pub handle_websocket_upgrade : (Text → Option (Text × ℕ × Text)) → Text → Text → Handled
unfolding read_headers handle_target words is_in
handle_websocket_upgrade ws_url first_line sent =
    let (lines, left) = read_headers (length sent + 1) sent in
    let header_str = first_line ++ lines in
    if is_in (codes "upgrade: websocket") (lower header_str)
    then handle_target ws_url (words first_line) header_str left
    else not_websocket

-- What `handler` makes of a connection that is to be upgraded: the reader it passes on starts anew with
-- the first line. `none` for any other connection.
unfoldable pub upgrade_of : (Text → Option (Text × ℕ × Text)) → Text → Route → Option Handled
unfolding handle_websocket_upgrade
upgrade_of ws_url first_line (websocket combined) =
    some (handle_websocket_upgrade ws_url first_line combined)
upgrade_of ws_url first_line (plain combined) = none
upgrade_of ws_url first_line (tunnel host port rest) = none
upgrade_of ws_url first_line closed = none

unfoldable pub upgrade : (Text → Option (Text × ℕ × Text)) → Text → ℕ → Option Handled
unfolding route read_line upgrade_of
upgrade ws_url sent arrived = upgrade_of ws_url (read_line sent).0 (route (some sent) arrived)
