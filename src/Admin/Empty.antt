-- ===== src/Admin/Empty.antt =====
-- proxy/handlers/admin.py: an empty pool, and what a reload leaves in the pool.
use proxysplit.Base.{String, ◌≡◌, Bool, Option, none, some, List, [], ◌∷◌, arith, string_eq, nat_eq}
use proxysplit.Admin.{State, size, proxy_add, proxy_remove, proxy_reload}
use proxysplit.Config.{Item}
use proxysplit.Float.{Float}

module _ (𝓕 : Float) (strip : String → String) where
  pub data Call : Type 0 where
    adds : Option (String × List String) → Call
    removes : Option String → Call
    reloads : (String → Option Bool) → List String → Option (List String × List Item) → Call

  unfoldable pub call : Call → State 𝓕 strip → State 𝓕 strip
  call (adds body) s = (proxy_add 𝓕 strip body s).0
  call (removes body) s = (proxy_remove 𝓕 strip body s).0
  call (reloads check tor_urls fresh) s = (proxy_reload 𝓕 strip check tor_urls fresh s).0

  unfoldable pub run : List Call → State 𝓕 strip → State 𝓕 strip
  unfolding call
  run [] s = s
  run (c ∷ cs) s = run cs (call c s)

  call_empty : (c : Call) (s : State 𝓕 strip) → size 𝓕 strip s ≡ 0 → size 𝓕 strip (call c s) ≡ 0
  unfolding call proxy_add proxy_remove proxy_reload
  call_empty (adds none) s h = h
  call_empty (adds (some (raw, tags))) s h = ground arith
  call_empty (removes none) s h = h
  call_empty (removes (some raw)) s h = ground arith
  call_empty (reloads check tor_urls none) s h = h
  call_empty (reloads check tor_urls (some (raw, items))) s h = ground arith

  -- A pool that has become empty stays empty, whatever is added, removed or reloaded.
  pub run_empty :
      (cs : List Call) (s : State 𝓕 strip) → size 𝓕 strip s ≡ 0 → size 𝓕 strip (run cs s) ≡ 0
  unfolding run
  run_empty [] s h = h
  run_empty (c ∷ cs) s h = run_empty cs (call c s) (call_empty c s h)
