-- ===== src/Registry/Distribute.antt =====
-- proxy/session_pool.py: what `distribute_proxies` promises for the chunks of a download.
use proxysplit.Base.{
  length-to_set-le, contains-to_set, snoc-Distinct, to_set, ℕ, zero, suc, ◌+◌, ◌-◌, ◌≤◌, ◌<◌, min,
  String, ◌≡◌, refl, sym, ◌∙◌, ◌≢◌, ◌⊎◌, inl, inr, true, false, Option, none, some, List, [], ◌∷◌,
  ◌++◌, arith, string_eq, nat_eq, length, get_elem?, drop, All, length-append, length-drop,
  All-append, contains, Distinct,
}
use proxysplit.Registry.Choice.{Chooses}
use proxysplit.Registry.Assign.{last_window, distribute_loop, distribute_proxies}

-- Two chunks that are at most `win` apart have different proxies.
abbrev pub Spread : ℕ → List String → Type 0
Spread win urls =
    (i j : ℕ) (p q : String)
    → i < j
    → j ≤ i + win
    → get_elem? urls i ≡ some p
    → get_elem? urls j ≡ some q
    → p ≢ q

get_elem?-drop : (n i : ℕ) (xs : List String) → get_elem? (drop n xs) i ≡ get_elem? xs (n + i)
get_elem?-drop zero i xs = let e : 0 + i ≡ i = omega arith in rw e
get_elem?-drop (suc n) i [] = refl
get_elem?-drop (suc n) i (x ∷ xs) =
    let e : suc n + i ≡ suc (n + i) = omega arith in rw e (get_elem?-drop n i xs)

contains_of_get_elem? :
    (xs : List String) (i : ℕ) (p : String) → get_elem? xs i ≡ some p → contains xs p ≡ true
contains_of_get_elem? [] i p h = cc
contains_of_get_elem? (x ∷ xs) zero p h = ground (arith, string_eq.beq_iff x p)
contains_of_get_elem? (x ∷ xs) (suc i) p h = ground (arith, contains_of_get_elem? xs i p)

get_elem?-snoc :
    (xs : List String) (x p : String) (j : ℕ)
    → get_elem? (xs ++ x ∷ []) j ≡ some p
    → ((j < length xs) × (get_elem? xs j ≡ some p)) ⊎ ((j ≡ length xs) × (x ≡ p))
get_elem?-snoc [] x p zero h = inr (refl, ground arith)
get_elem?-snoc [] x p (suc j) h = cc
get_elem?-snoc (y ∷ xs) x p zero h = inl (omega arith, h)
get_elem?-snoc (y ∷ xs) x p (suc j) h = elim (get_elem?-snoc xs x p j h) [
  | inl (l, e) ↦ inl (omega arith, e)
  | inr (l, e) ↦ inr (omega arith, e)
]

Spread-snoc :
    (win : ℕ) (urls : List String) (p : String)
    → contains (drop (length urls - win) urls) p ≡ false
    → Spread win urls
    → Spread win (urls ++ p ∷ [])
Spread-snoc win urls p new s i j a b lt le ha hb = elim (get_elem?-snoc urls p b j hb) [
  | inl (jl, hb') ↦ elim (get_elem?-snoc urls p a i ha) [
    | inl (il, ha') ↦ s i j a b lt le ha' hb'
    | inr (il, _) ↦ absurd (omega arith)
  ]
  | inr (jl, e) ↦ elim (get_elem?-snoc urls p a i ha) [
    | inl (il, ha') ↦ λ same.
        let n = length urls - win in
        let shift : n + (i - n) ≡ i = omega arith in
        let at : get_elem? (drop n urls) (i - n) ≡ some p =
          get_elem?-drop n (i - n) urls ∙ rw shift (rw (e, ← same) ha') in
        cc (contains_of_get_elem? (drop n urls) (i - n) p at)
    | inr (il, _) ↦ absurd (omega arith)
  ]
]

length-last_window :
    (win : ℕ) (urls : List String) → 0 < win → length (to_set (last_window win urls)) ≤ win
unfolding last_window
length-last_window win urls h =
    ground (
      arith,
      length-to_set-le (drop (length urls - win) urls),
      length-drop (length urls - win) urls,
    )

window_fresh :
    (win : ℕ) (urls : List String) (p : String)
    → 0 < win
    → contains (to_set (last_window win urls)) p ≡ false
    → contains (drop (length urls - win) urls) p ≡ false
unfolding last_window
window_fresh win urls p h new = ground (arith, contains-to_set (drop (length urls - win) urls) p)

record Spreads (available : List String) (win n : ℕ) (r : List String × ℕ) : Type 0 where
  pub count : length r.0 ≡ n
  pub members : All (λ u. contains available u ≡ true) r.0
  pub spread : Spread win r.0
  pub direct : r.1 ≡ 0

distribute_loop-Spreads :
    (pick : ℕ → List String → Option String) (best : String) (available : List String) (win n i : ℕ)
    (assigned : List String)
    → ((i : ℕ) → Chooses available (pick i))
    → 0 < win
    → win < length available
    → All (λ u. contains available u ≡ true) assigned
    → Spread win assigned
    → Spreads available win (length assigned + n) (distribute_loop pick best win n i assigned 0)
unfolding distribute_loop
distribute_loop-Spreads pick best available win zero i assigned promise pos few members spread =
    record { count = omega arith; members = members; spread = spread; direct = refl }
distribute_loop-Spreads pick best available win (suc n) i assigned promise pos few members spread =
    let (p, chosen, member, new) = promise i (to_set (last_window win assigned)) in
    let fresh : contains (drop (length assigned - win) assigned) p ≡ false =
      window_fresh win assigned p pos (new (omega (arith, length-last_window win assigned pos))) in
    let all =
      All-append (λ u. contains available u ≡ true) assigned (p ∷ []) members (member, tt) in
    let total : length assigned + suc n ≡ length (assigned ++ p ∷ []) + n =
      omega (arith, length-append assigned (p ∷ [])) in
    rw (chosen, total)
      (distribute_loop-Spreads pick best available win n (i + 1) (assigned ++ p ∷ []) promise pos
        few all (Spread-snoc win assigned p fresh spread))

-- With at least two proxies available, no pin and a positive `exclude_window`, every chunk gets an
-- available proxy, two chunks at most `min (available - 1, exclude_window)` apart get different ones,
-- and the fallback is never used.
pub distribute_proxies-Spread :
    (pick : ℕ → List String → Option String) (best : String) (num_chunks : ℕ)
    (available : List String) (exclude_window : ℕ)
    → ((i : ℕ) → Chooses available (pick i))
    → 1 < length available
    → 0 < exclude_window
    → let r = distribute_proxies pick best num_chunks available none exclude_window in
      (length r.0 ≡ num_chunks)
      × All (λ u. contains available u ≡ true) r.0
      × Spread (min (length available - 1) exclude_window) r.0
      × (r.1 ≡ 0)
unfolding distribute_proxies
distribute_proxies-Spread pick best n [] w promise many pos = absurd (omega arith)
distribute_proxies-Spread pick best n (u ∷ []) w promise many pos = absurd (omega arith)
distribute_proxies-Spread pick best n (u ∷ v ∷ us) w promise many pos =
    let win = min (length (u ∷ v ∷ us) - 1) w in
    let r =
      distribute_loop-Spreads pick best (u ∷ v ∷ us) win n 0 [] promise (omega arith) (omega arith)
        tt (λ i j p q lt le ha hb. cc) in
    (omega (arith, r.count), r.members, r.spread, r.direct)

loop_zero_step :
    (pick : ℕ → List String → Option String) (best p : String) (n i : ℕ) (assigned : List String)
    → pick i (to_set assigned) ≡ some p
    → distribute_loop pick best 0 (suc n) i assigned 0
      ≡ distribute_loop pick best 0 n (i + 1) (assigned ++ p ∷ []) 0
unfolding distribute_loop last_window
loop_zero_step pick best p n i assigned chosen = rw chosen

loop_zero-Distinct :
    (pick : ℕ → List String → Option String) (best : String) (available : List String) (n i : ℕ)
    (assigned : List String)
    → ((i : ℕ) → Chooses available (pick i))
    → length assigned + n ≤ length available
    → Distinct assigned
    → Distinct (distribute_loop pick best 0 n i assigned 0).0
unfolding distribute_loop last_window
loop_zero-Distinct pick best available zero i assigned promise le d = d
loop_zero-Distinct pick best available (suc n) i assigned promise le d =
    let (p, chosen, member, new) = promise i (to_set assigned) in
    let fresh : contains assigned p ≡ false =
      sym (contains-to_set assigned p) ∙ new (omega (arith, length-to_set-le assigned)) in
    rw (loop_zero_step pick best p n i assigned chosen) (
      loop_zero-Distinct pick best available n (i + 1) (assigned ++ p ∷ []) promise
        (omega (arith, length-append assigned (p ∷ []))) (snoc-Distinct p assigned d fresh))

-- `exclude_window = 0` is not "exclude none": the slice `assigned[-0:]` is the whole list, so that
-- as long as there are no more chunks than proxies all of them get different proxies.
pub distribute_proxies_window_zero :
    (pick : ℕ → List String → Option String) (best : String) (num_chunks : ℕ)
    (available : List String)
    → ((i : ℕ) → Chooses available (pick i))
    → 1 < length available
    → num_chunks ≤ length available
    → Distinct (distribute_proxies pick best num_chunks available none 0).0
unfolding distribute_proxies
distribute_proxies_window_zero pick best n [] promise many le = absurd (omega arith)
distribute_proxies_window_zero pick best n (u ∷ []) promise many le = absurd (omega arith)
distribute_proxies_window_zero pick best n (u ∷ v ∷ us) promise many le =
    let zero_window : min (length (u ∷ v ∷ us) - 1) 0 ≡ 0 = omega arith in
    rw zero_window (loop_zero-Distinct pick best (u ∷ v ∷ us) n 0 [] promise (omega arith) tt)
