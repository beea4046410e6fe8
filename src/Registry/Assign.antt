-- ===== src/Registry/Assign.antt =====
-- proxy/session_pool.py: `pick_proxy` and `distribute_proxies`. The available proxies do not change
-- during the call, which has no `await`; `pick i` is the choice of the registry in round `i`.
use proxysplit.Base.{
  to_set, ℕ, zero, suc, ◌+◌, ◌-◌, min, String, Bool, Option, none, some, List, [], ◌∷◌, ◌++◌,
  if◌then◌else◌, ◌==◌, string_eq, nat_eq, length, drop, replicate,
}

-- `if pin:`, a pin that is not the empty text.
unfoldable pub pinned : Option String → Option String
pinned none = none
pinned (some pin) = if pin == "" then none else some pin

unfoldable pub pick_proxy :
    Bool → (List String → Option String) → List String → Option String → Option String
unfolding pinned
pick_proxy has_registry choice excluded pin = elim (pinned pin) [
  | some p ↦ some p
  | none ↦ if has_registry then choice excluded else none
]

-- `assigned[-win:]`, which for `win = 0` is the whole list.
unfoldable pub last_window : ℕ → List String → List String
last_window win assigned = if win == 0 then assigned else drop (length assigned - win) assigned

-- The rounds that are left, from round `i`, and how often the fallback was used.
unfoldable pub distribute_loop :
    (ℕ → List String → Option String) → String → ℕ → ℕ → ℕ → List String → ℕ → List String × ℕ
unfolding last_window to_set
distribute_loop pick best win zero i assigned fallbacks = (assigned, fallbacks)
distribute_loop pick best win (suc n) i assigned fallbacks =
    let choice = pick i (to_set (last_window win assigned)) in
    let chosen : String = elim choice [ none ↦ best | some p ↦ p ] in
    let count : ℕ = elim choice [ none ↦ fallbacks + 1 | some p ↦ fallbacks ] in
    distribute_loop pick best win n (i + 1) (assigned ++ chosen ∷ []) count

-- `best` is `_best_available()`. The proxies, and the number of fallbacks that is logged.
unfoldable pub distribute_proxies :
    (ℕ → List String → Option String)
    → String
    → ℕ
    → List String
    → Option String
    → ℕ
    → List String × ℕ
unfolding distribute_loop pinned
distribute_proxies pick best num_chunks available pin exclude_window = elim (pinned pin) [
  | some p ↦ (replicate num_chunks p, 0)
  | none ↦ elim available [
    | [] ↦ ([], 0)
    | u ∷ [] ↦ (replicate num_chunks u, 0)
    | u ∷ v ∷ us ↦
        distribute_loop pick best (min (length (u ∷ v ∷ us) - 1) exclude_window) num_chunks 0 [] 0
  ]
]
