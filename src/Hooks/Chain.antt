-- ===== src/Hooks/Chain.antt =====
-- proxy/hooks.py: the order of the hooks, and hooks that fail.
use proxysplit.Base.{ℕ, String, ◌≡◌, refl, sym, ap, ◌∙◌, none, List, [], ◌∷◌, ◌++◌}
use proxysplit.Cache.Control.{Headers}
use proxysplit.Hooks.{
  Hook, Hooks, on_request, headers_after, run_hooks, run_request_hooks, run_response_hooks,
}

run_hooks-append :
    {C : Type 0} (first second : List (Hook C)) (call : C) (headers : Headers)
    → run_hooks (first ++ second) call headers
      ≡ run_hooks second call (run_hooks first call headers)
unfolding run_hooks
run_hooks-append [] second call headers = refl
run_hooks-append (hook ∷ first) second call headers =
    run_hooks-append first second call (headers_after headers (hook call headers))

-- A hook that is registered last sees the headers that the hooks before it made, its result counts,
-- and if it fails or returns no headers those stay; hooks for responses are as they were.
pub run_request_hooks-on_request :
    (fn : Hook (String × String)) (hooks : Hooks) (url method : String) (status : ℕ)
    (headers : Headers)
    → let before = run_request_hooks url headers method hooks in
      (run_request_hooks url headers method (on_request fn hooks)
        ≡ headers_after before (fn (url, method) before))
      × (run_response_hooks url status headers (on_request fn hooks)
          ≡ run_response_hooks url status headers hooks)
unfolding run_request_hooks run_response_hooks on_request
run_request_hooks-on_request fn hooks url method status headers =
    (run_hooks-append hooks.on_requests (fn ∷ []) (url, method) headers, refl)

-- A hook that fails does not keep the others from running: it counts as if it was not registered.
pub run_hooks-failing :
    {C : Type 0} (first second : List (Hook C)) (fn : Hook C) (call : C) (headers : Headers)
    → ((h : Headers) → fn call h ≡ none)
    → run_hooks (first ++ fn ∷ second) call headers ≡ run_hooks (first ++ second) call headers
unfolding run_hooks
run_hooks-failing first second fn call headers fails =
    let before = run_hooks first call headers in
    run_hooks-append first (fn ∷ second) call headers
    ∙ ap (λ r. run_hooks second call (headers_after before r)) (fails before)
    ∙ sym (run_hooks-append first second call headers)
