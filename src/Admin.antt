-- ===== src/Admin.antt =====
-- proxy/handlers/admin.py: the handlers that change the pool: `/proxy/add`, `/proxy/remove` and
-- `/proxy/reload`. `strip` is `str.strip` of a text; a proxy pool without proxies is false in
-- `if REGISTRY`.
pub mod Empty
pub mod Reports
pub mod Selection
use proxysplit.Base.{
  to_set, ℕ, String, Bool, true, false, not, Option, none, some, List, [], ◌∷◌, ◌++◌, if◌then◌else◌,
  ◌==◌, string_eq, nat_eq, length, filter_by, contains,
}
use proxysplit.Config.{Item, tagged}
use proxysplit.Dict.{Dict, insert}
use proxysplit.Float.{Float}
use proxysplit.Health.{has_scheme, supported_schemes, filter_live_proxies}
use proxysplit.Registry.{Registry, Tags, Pool, add, remove_proxy, replace}
use proxysplit.SessionPool.{SessionPool, invalidate}

pub data Answer : Type 0 where
  bad_request server_error : Answer
  -- whether the pool changed, and its size
  changed : Bool → ℕ → Answer

-- The tags of the items that have them, by URL.
unfoldable pub tags_of_items : List Item → Tags → Tags
unfolding to_set
tags_of_items [] tags = tags
tags_of_items (tagged url ts ∷ items) tags = tags_of_items items (insert url (to_set ts) tags)
tags_of_items (_ ∷ items) tags = tags_of_items items tags

-- `for p in tor_urls: if p not in seen: raw.append(p)`
unfoldable pub add_missing : List String → List String → List String
add_missing [] raw = raw
add_missing (p ∷ ps) raw = add_missing ps (if contains raw p then raw else raw ++ p ∷ [])

module _ (𝓕 : Float) (strip : String → String) where
  pub record State : Type 0 where
    pub pool : Pool 𝓕
    pub sessions : SessionPool

  abbrev pub size : State → ℕ
  size s = length s.pool.registry.all

  -- The JSON body as the URL (empty if it has none) and the tags, `none` if it is no JSON.
  unfoldable pub proxy_add : Option (String × List String) → State → State × Answer
  unfolding add has_scheme
  proxy_add none s = (s, bad_request)
  proxy_add (some (raw, tags)) s =
      let url = strip raw in
      let ((r, all_tags), added) = add url tags (s.pool.registry, s.pool.tags) in
      let s' : State = record s { pool = record s.pool { registry = r; tags = all_tags } } in
      if url == ""
      then (s, bad_request)
      else if not (has_scheme supported_schemes url)
      then (s, bad_request)
      else if size s == 0
      then (s, changed false 0)
      else (s', changed added (size s'))

  unfoldable pub proxy_remove : Option String → State → State × Answer
  unfolding remove_proxy invalidate
  proxy_remove none s = (s, bad_request)
  proxy_remove (some raw) s =
      let url = strip raw in
      let (pool', removed) = remove_proxy 𝓕 url s.pool in
      let s' : State = record {
        pool = pool';
        sessions = if removed then invalidate (some url) s.sessions else s.sessions;
      } in
      if url == ""
      then (s, bad_request)
      else if size s == 0
      then (s, changed false 0)
      else (s', changed removed (size s'))

  -- `raw` is what `collect_proxies` gives for the new configuration, `items` its `proxies`; `none` is
  -- a configuration that cannot be read.
  unfoldable pub proxy_reload :
      (String → Option Bool)
      → List String
      → Option (List String × List Item)
      → State
      → State × Answer
  unfolding filter_live_proxies replace tags_of_items add_missing
  proxy_reload check tor_urls none s = (s, server_error)
  proxy_reload check tor_urls (some (raw, items)) s =
      let static = filter_by (λ p. not (contains tor_urls p)) (add_missing tor_urls raw) in
      let new_pool = filter_live_proxies check static ++ tor_urls in
      let r : Registry =
        if size s == 0 then s.pool.registry else replace new_pool s.pool.registry in
      (
        record s { pool = record s.pool { registry = r; tags = tags_of_items items [] } },
        changed true (length new_pool),
      )
