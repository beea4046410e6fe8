-- ===== src/SessionPool.antt =====
-- proxy/session_pool.py: `SessionPool` and the helpers on proxy URLs. A session is a number; `next` is
-- the one that `aiohttp.ClientSession` makes next, and `closed` holds those that are closed.
pub mod Reuse
use proxysplit.Base.{
  ℕ, ◌+◌, String, Bool, false, Option, none, some, List, [], ◌∷◌, if◌then◌else◌, ◌==◌, string_eq,
  nat_eq, contains,
}
use proxysplit.Cache.Control.{codes}
use proxysplit.Dict.{Dict, lookup, insert, remove}
use proxysplit.Text.{starts_with}

pub record SessionPool : Type 0 where
  pub sessions : Dict String ℕ
  pub closed : List ℕ
  pub next : ℕ

-- `proxy_url or "__direct__"`
abbrev pub key_of : Option String → String
key_of none = "__direct__"
key_of (some url) = if url == "" then "__direct__" else url

-- Whether `make_connector` gives a connector for SOCKS.
unfoldable pub is_socks : Option String → Bool
is_socks none = false
is_socks (some url) = starts_with (codes "socks") (codes url)

unfoldable pub http_proxy_param : Option String → Option String
http_proxy_param none = none
http_proxy_param (some url) = if starts_with (codes "http") (codes url) then some url else none

abbrev pub create : String → SessionPool → SessionPool × ℕ
create key p = (record p { sessions = insert key p.next p.sessions; next = p.next + 1 }, p.next)

unfoldable pub get : Option String → SessionPool → SessionPool × ℕ
get proxy_url p = elim (lookup (key_of proxy_url) p.sessions) [
  | none ↦ create (key_of proxy_url) p
  | some s ↦ if contains p.closed s then create (key_of proxy_url) p else (p, s)
]

unfoldable pub invalidate_sync : Option String → SessionPool → SessionPool
invalidate_sync proxy_url p = record p { sessions = remove (key_of proxy_url) p.sessions }

unfoldable pub close : ℕ → SessionPool → SessionPool
close s p = if contains p.closed s then p else record p { closed = s ∷ p.closed }

unfoldable pub invalidate : Option String → SessionPool → SessionPool
unfolding invalidate_sync close
invalidate proxy_url p = elim (lookup (key_of proxy_url) p.sessions) [
  | none ↦ invalidate_sync proxy_url p
  | some s ↦ close s (invalidate_sync proxy_url p)
]

unfoldable pub close_each : Dict String ℕ → SessionPool → SessionPool
unfolding close
close_each [] p = p
close_each ((url, s) ∷ sessions) p = close_each sessions (close s p)

unfoldable pub close_all : SessionPool → SessionPool
unfolding close_each
close_all p = record (close_each p.sessions p) { sessions = [] }
