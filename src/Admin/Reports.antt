-- ===== src/Admin/Reports.antt =====
-- proxy/handlers/admin.py: the handlers that report: `/health`, `/proxy/stats`, `/tor/refresh` and
-- `/tor/status`. The order of texts and the float infinity are parameters.
use proxysplit.Base.{
  ℕ, ◌+◌, String, Bool, not, ◌&&◌, Option, none, some, List, [], ◌∷◌, if◌then◌else◌, ◌==◌,
  string_eq, nat_eq, length, take, filter_by, contains,
}
use proxysplit.Dict.{Dict}
use proxysplit.Float.{Float}
use proxysplit.Stats.Score.{sorted_from}
use proxysplit.Text.{Text}
use proxysplit.Tor.{Manager, Dialog, refresh_all_circuits}
use proxysplit.Transfer.{number}
use proxysplit.Transfer.Headers.{all_digits}

-- `/health`: the status, from the available proxies; `none` where there is no registry or it is empty.
unfoldable pub health : Option (List String) → ℕ
health none = 503
health (some []) = 503
health (some (p ∷ ps)) = 200

module _ (𝓕 : Float) (infinity : 𝓕.F) (before : String → String → Bool) where
  open 𝓕 use {F, lit, of_ℕ, sub}

  -- An entry of the snapshot, as far as it is filtered and sorted by.
  pub record Row : Type 0 where
    pub score : F
    pub avg_latency_ms : Option F
    pub failure : ℕ
    pub success : ℕ
    pub circuit_state : String
    pub blocked : Bool

  abbrev pub Rows : Type 0
  Rows = Dict String Row

  unfoldable pub annotate : (String → String) → List String → Rows → Rows
  annotate state_for blocked [] = []
  annotate state_for blocked ((url, e) ∷ rows) =
      (url, record e { circuit_state = state_for url; blocked = contains blocked url })
      ∷ annotate state_for blocked rows

  -- `?filter=`, stripped and in lower case, as `sort` is.
  unfoldable pub select : String → Rows → Rows
  select filter rows =
      if filter == "blocked"
      then filter_by (λ (r : String × Row). r.1.blocked) rows
      else if filter == "available"
      then filter_by (λ (r : String × Row). not r.1.blocked) rows
      else rows

  -- `e.get("avg_latency_ms") or float("inf")`
  abbrev pub latency_key : Option F → F
  latency_key none = infinity
  latency_key (some ms) = if 𝓕.le ms (lit 0 0) && 𝓕.le (lit 0 0) ms then infinity else ms

  unfoldable pub insert_by_url : String × Row → Rows → Rows
  insert_by_url r [] = r ∷ []
  insert_by_url r (x ∷ rows) =
      let rest = insert_by_url r rows in if before r.0 x.0 then r ∷ x ∷ rows else x ∷ rest

  unfoldable pub sort_by_url : Rows → Rows → Rows
  unfolding insert_by_url
  sort_by_url acc [] = acc
  sort_by_url acc (r ∷ rows) = sort_by_url (insert_by_url r acc) rows

  abbrev pub sort_by_key : (Row → F) → Rows → Rows
  sort_by_key key rows = sorted_from 𝓕 (λ (r : String × Row). key r.1) [] rows

  -- `?sort=`
  unfoldable pub arrange : String → Rows → Rows
  unfolding sort_by_url sorted_from
  arrange sort rows =
      if sort == "url"
      then sort_by_url [] rows
      else if sort == "score"
      then sort_by_key (λ e. sub (lit 0 0) e.score) rows
      else if sort == "latency"
      then sort_by_key (λ e. latency_key e.avg_latency_ms) rows
      else if sort == "failures"
      then sort_by_key (λ e. sub (lit 0 0) (of_ℕ e.failure)) rows
      else if sort == "success"
      then sort_by_key (λ e. sub (lit 0 0) (of_ℕ e.success)) rows
      else rows

  -- `?limit=`
  unfoldable pub limited : Text → Rows → Rows
  unfolding all_digits
  limited limit rows = if all_digits limit then take (number limit) rows else rows

  -- `/proxy/stats`, from the snapshot.
  unfoldable pub proxy_stats :
      (String → String) → List String → String → String → Text → Rows → Rows
  unfolding annotate select arrange limited
  proxy_stats state_for blocked filter sort limit snap =
      limited limit (arrange sort (select filter (annotate state_for blocked snap)))

-- How many of the outcomes are true.
unfoldable pub count_true : Dict ℕ Bool → ℕ
count_true [] = 0
count_true ((k, ok) ∷ rest) = let n = count_true rest in if ok then n + 1 else n

-- `/tor/refresh`: the manager, and how many circuits were refreshed of how many; `none` for a 404.
unfoldable pub tor_refresh : (ℕ → Dialog) → ℕ → ℕ → Option Manager → Option (Manager × ℕ × ℕ)
unfolding refresh_all_circuits count_true
tor_refresh dialog now took none = none
tor_refresh dialog now took (some m) =
    let (m', outcome, invalidated) = refresh_all_circuits dialog now took m in
    some (m', count_true outcome, length outcome)
