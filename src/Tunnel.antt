-- ===== src/Tunnel.antt =====
-- proxy/streaming/tunnel.py: what a raw connection is taken for, and the request for a tunnel. Bytes are
-- numbers, and texts are ASCII. What a client sends is a list of bytes; where the code reads what has
-- come in by then, that is an argument.
pub mod Lines
pub mod Dispatch
use proxysplit.Base.{
  ℕ, zero, suc, ◌+◌, min, Bool, ◌||◌, Option, none, some, List, [], ◌∷◌, ◌++◌, if◌then◌else◌, ◌==◌,
  nat_eq, list_eq, length, take,
}
use proxysplit.Cache.Control.{codes}
use proxysplit.Text.{Text, upper, lower, starts_with, is_in, words, rpartition}
use proxysplit.Transfer.{number}
use proxysplit.Transfer.Decimal.{decimal}
use proxysplit.Transfer.Headers.{all_digits}

-- `reader.readline()`: up to a newline or the end, and what is left.
unfoldable pub read_line : Text → Text × Text
read_line [] = ([], [])
read_line (c ∷ s) =
    let (line, rest) = read_line s in if c == 10 then (c ∷ [], s) else (c ∷ line, rest)

abbrev pub crlf : Text
crlf = 13 ∷ 10 ∷ []

-- `line in (b"\r\n", b"\n", b"")`
unfoldable pub ends_headers : Text → Bool
ends_headers line = line == crlf || line == 10 ∷ [] || line == []

-- The `while True` loop that reads the headers, with fuel; what is left behind them.
unfoldable pub skip_headers : ℕ → Text → Text
unfolding read_line ends_headers
skip_headers zero s = s
skip_headers (suc fuel) s =
    let (line, rest) = read_line s in
    let more = skip_headers fuel rest in if ends_headers line then rest else more

-- What a connection becomes: closed at once, a tunnel to a host and port, with what the client has sent
-- behind the headers, a WebSocket, or a plain request, with the bytes read so far.
pub data Route : Type 0 where
  closed : Route
  tunnel : Text → ℕ → Text → Route
  websocket plain : Text → Route

-- The host and the port of the target of `CONNECT`.
unfoldable pub target : Text → Text × ℕ
unfolding rpartition all_digits
target hp = let (host, ps) = rpartition b':' hp in (host, if all_digits ps then number ps else 443)

-- By the words of the first line: `if len(parts) >= 2`.
unfoldable pub connect_to : List Text → Text → Route
unfolding target skip_headers
connect_to [] rest = closed
connect_to (method ∷ []) rest = closed
connect_to (method ∷ hp ∷ more) rest =
    let (host, port) = target hp in tunnel host port (skip_headers (length rest + 1) rest)

abbrev pub connect_route : Text → Text → Route
connect_route first_line rest = connect_to (words first_line) rest

-- `handler` up to its dispatch: what the client sends, none if the first line takes too long, and how
-- many of the bytes behind the first line are there in time, at most 4096.
unfoldable pub route : Option Text → ℕ → Route
unfolding read_line connect_to starts_with is_in words
route none arrived = closed
route (some sent) arrived =
    let (first_line, rest) = read_line sent in
    let combined = first_line ++ take (min arrived 4096) rest in
    if starts_with (codes "CONNECT ") (upper first_line)
    then connect_route first_line rest
    else if is_in (codes "upgrade: websocket") (lower combined)
    then websocket combined
    else plain combined

-- The request that `handle_connect` writes to an HTTP proxy; `auth` is empty or a line.
unfoldable pub connect_request : Text → ℕ → Text → Text
connect_request host port auth =
    let address = host ++ b':' ∷ decimal port in
    codes "CONNECT "
    ++ (address
        ++ (codes " HTTP/1.1"
            ++ (crlf ++ (codes "Host: " ++ (address ++ (crlf ++ (auth ++ crlf)))))))

-- What the client is told: whether the tunnel stands, `none` for a close without an answer.
pub data Told : Type 0 where
  established bad_gateway silence : Told

-- `handle_connect` up to the pipes, by the answer of an HTTP proxy; `none` for an exception.
unfoldable pub told : Option Text → Told
unfolding read_line is_in
told none = bad_gateway
told (some answer) = if is_in (codes "200") (read_line answer).0 then established else silence
