-- ===== src/Tests/Tunnels.antt =====
-- Requests for tunnels and WebSockets.
use proxysplit.Base.{◌≡◌, refl, inr, none, some, [], ◌∷◌, ◌++◌, map, arith, nat_eq, list_eq}
use proxysplit.Cache.Control.{codes}
use proxysplit.Text.{Text, split_lines, lower_char, upper_char, starts_with, is_space}
use proxysplit.Transfer.Decimal.{decimal}
use proxysplit.Tunnel.{crlf, tunnel, route, connect_request}
use proxysplit.Tunnel.Dispatch.{IsHost, IsAuth, route-connect_request}
use proxysplit.WebSocket.Doubled.{upgrade-doubled}
use proxysplit.WebSocket.{upgrade, host_header, address, address_of, rebuilt}
use proxysplit.WebSocket.Relay.{request_line, with_host, rebuilt_lem}

abbrev example_host : Text
example_host = codes "a.b"

example_host-IsHost : IsHost example_host
example_host-IsHost = (refl, (refl, (refl, tt)))

abbrev credentials : Text
credentials = codes "X: y" ++ crlf

credentials-IsAuth : IsAuth credentials
credentials-IsAuth = inr (codes "X: y", refl, (refl, (refl, (refl, (refl, tt)))), omega arith)

route-connect_request_example :
    route (some (connect_request example_host 443 credentials ++ (1 ∷ 2 ∷ []))) 0
    ≡ tunnel example_host 443 (1 ∷ 2 ∷ [])
route-connect_request_example =
    route-connect_request example_host 443 credentials (1 ∷ 2 ∷ []) 0 example_host-IsHost
      credentials-IsAuth

abbrev get_request : Text
get_request = codes "GET" ++ (10 ∷ codes "abc")

abbrev upgrade_request : Text
upgrade_request = codes "GET /" ++ (crlf ++ (codes "Host: c" ++ (crlf ++ crlf)))

rebuilt_lem_example :
    let lines = split_lines (rebuilt (codes "/") example_host 80 (split_lines upgrade_request)) in
    (lines ≡ request_line (codes "/") ∷ map (with_host example_host 80) (codes "Host: c" ∷ [] ∷ []))
    × (address_of (host_header lines) ≡ address example_host 80)
unfolding split_lines lower_char starts_with is_space
rebuilt_lem_example =
    rebuilt_lem (codes "/") example_host 80 upgrade_request ((refl, refl), tt)
      ((refl, (refl, (refl, tt))), omega arith) refl

abbrev get_line : Text
get_line = codes "GET /"

abbrev upgrade_headers : Text
upgrade_headers = codes "Host: c" ++ (crlf ++ (codes "Upgrade: websocket" ++ (crlf ++ crlf)))

abbrev sent_upstream : Text
sent_upstream =
    codes "GET / HTTP/1.1"
    ++ (crlf
        ++ (codes "GET /"
            ++ (crlf
                ++ (codes "Host: c:80"
                    ++ (crlf ++ (codes "Upgrade: websocket" ++ (crlf ++ crlf)))))))

upgrade-doubled_example :
    (path : Text) × (more : Text) × (sent_upstream
      ≡ request_line path ++ 13 ∷ 10 ∷ (get_line ++ 13 ∷ 10 ∷ more))
unfolding upgrade upper_char lower_char starts_with decimal
upgrade-doubled_example =
    upgrade-doubled (λ path. none) get_line upgrade_headers 4096 (codes "c") 80 sent_upstream []
      ((refl, refl), ((refl, refl), ((refl, refl), ((refl, refl), ((refl, refl), tt)))))
      (omega arith) refl refl
