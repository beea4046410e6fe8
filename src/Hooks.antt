-- ===== src/Hooks.antt =====
-- proxy/hooks.py: hooks that may replace the headers, in the order of their registration. A hook is a
-- function of what it is called for (the URL and the method, or the URL and the status) and of the
-- headers; its result is none if it raises, and otherwise the new headers, if it returns a `dict`.
pub mod Chain
use proxysplit.Base.{ℕ, String, Option, none, some, List, [], ◌∷◌, ◌++◌}
use proxysplit.Cache.Control.{Headers}

abbrev pub Hook : Type 0 → Type 0
Hook C = C → Headers → Option (Option Headers)

pub record Hooks : Type 0 where
  pub on_requests : List (Hook (String × String))
  pub on_responses : List (Hook (String × ℕ))

unfoldable pub on_request : Hook (String × String) → Hooks → Hooks
on_request fn hooks = record hooks { on_requests = hooks.on_requests ++ fn ∷ [] }

unfoldable pub on_response : Hook (String × ℕ) → Hooks → Hooks
on_response fn hooks = record hooks { on_responses = hooks.on_responses ++ fn ∷ [] }

-- One round of the loop: an exception and a result that is no `dict` leave the headers.
abbrev pub headers_after : Headers → Option (Option Headers) → Headers
headers_after headers none = headers
headers_after headers (some none) = headers
headers_after headers (some (some result)) = result

unfoldable pub run_hooks : {C : Type 0} → List (Hook C) → C → Headers → Headers
run_hooks [] call headers = headers
run_hooks (hook ∷ hooks) call headers =
    run_hooks hooks call (headers_after headers (hook call headers))

unfoldable pub run_request_hooks : String → Headers → String → Hooks → Headers
unfolding run_hooks
run_request_hooks url headers method hooks = run_hooks hooks.on_requests (url, method) headers

unfoldable pub run_response_hooks : String → ℕ → Headers → Hooks → Headers
unfolding run_hooks
run_response_hooks url status headers hooks = run_hooks hooks.on_responses (url, status) headers
