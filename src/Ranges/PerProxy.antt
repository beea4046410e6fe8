-- ===== src/Ranges/PerProxy.antt =====
-- proxy/handlers/inner.py: ranges of a size for each proxy still tile the window, and stay aligned
-- with the proxies they are assigned to.
use proxysplit.Base.{
  length-to_set-le, to_set, ℕ, suc, ◌+◌, ◌-◌, ◌≤◌, ◌<◌, min, String, ◌≡◌, refl, sym, ◌∙◌, inl, inr,
  true, false, some, List, [], ◌∷◌, ◌++◌, arith, ltb, leb, ltb→lt, Bool-cases, string_eq, length,
  get_elem?, take, replicate, last_or, All, length-append, length-take, length-replicate,
  get_elem?-take, get_elem?-append, All-append, All-take, All-replicate, contains, All-contains,
}
use proxysplit.Ranges.{Range, build_loop, assign_loop, apply_per_proxy_chunk_sizes}
use proxysplit.Ranges.Tiling.{Tiles, build_loop-Tiles}

Tiles-append :
    (a b c i : ℕ) (xs ys : List Range)
    → b ≤ c
    → Tiles a b i xs
    → Tiles b c (i + length xs) ys
    → Tiles a c i (xs ++ ys)
Tiles-append a b c i [] ys le t u =
    let e : i + 0 ≡ i = omega arith in let f : a ≡ b = t in rw f (rw e at u)
Tiles-append a b c i (r ∷ xs) ys le t u =
    let e : i + suc (length xs) ≡ i + 1 + length xs = omega arith in
    (
      t.0,
      t.1,
      omega (arith, t.2),
      t.3,
      Tiles-append (r.last + 1) b c (i + 1) xs ys le t.4 (rw e at u),
    )

Tiles-le : (a b i : ℕ) (rs : List Range) → Tiles a b i rs → a ≤ b
Tiles-le a b i [] t = omega (arith, t)
Tiles-le a b i (r ∷ rs) t = omega (arith, t.0, t.1, t.2)

last_or-contains :
    (xs : List String) (d : String) → 0 < length xs → contains xs (last_or xs d) ≡ true
last_or-contains [] d h = elim h [ ]
last_or-contains (x ∷ []) d h = ground (arith, string_eq.beq_iff x x)
last_or-contains (x ∷ y ∷ xs) d h = ground (arith, last_or-contains (y ∷ xs) x (omega arith))

module _ {S : Type 0} (chunk_size_for : String → S → S × ℕ)
    (positive : (url : String) (s : S) → 0 < (chunk_size_for url s).1) where
  -- What the first loop leaves: ranges for some of the proxies, for all of them if bytes are left.
  record Assigned (urls : List String) (stop i cur : ℕ) (front : List Range) (end : ℕ)
      : Type 0 where
    tiles : Tiles cur end i front
    inside : end ≤ stop
    few : length front ≤ length urls

  assign_loop-Assigned :
      (urls : List String) (stop i cur : ℕ) (s : S)
      → cur ≤ stop
      → let (front, end, s') = assign_loop chunk_size_for urls stop i cur s in
        Assigned urls stop i cur front end
  unfolding assign_loop
  assign_loop-Assigned [] stop i cur s le = record { tiles = refl; inside = le; few = omega arith }
  assign_loop-Assigned (url ∷ urls) stop i cur s le = elim (Bool-cases (ltb cur stop)) [
    | inl more ↦
        let lt = ltb→lt cur stop more in
        let (s', size) = chunk_size_for url s in
        let some_bytes : 0 < size = positive url s in
        let next = min (cur + size) stop in
        let rest = assign_loop-Assigned urls stop (i + 1) next s' (omega arith) in
        let e : next - 1 + 1 ≡ next = omega arith in
        rw more (record {
          tiles = (
            refl,
            omega arith,
            omega (arith, Tiles-le next _ (i + 1) _ rest.tiles),
            refl,
            rw e rest.tiles,
          );
          inside = rest.inside;
          few = omega (arith, rest.few);
        })
    | inr done ↦ rw done (record { tiles = refl; inside = le; few = omega arith })
  ]

  split-runs :
      (ranges : List Range) (assigned : List String) (start stop base : ℕ) (s : S)
      (back : List Range)
      → leb (length (to_set assigned)) 1 ≡ false
      → let (front, cur, s') = assign_loop chunk_size_for assigned stop 0 start s in
        build_loop (stop - cur + 1) base stop cur (length front) ≡ some back
        → apply_per_proxy_chunk_sizes chunk_size_for ranges assigned start stop base s
          ≡ some (
            front ++ back,
            take
                (length (front ++ back))
                (assigned ++ replicate (length back) (last_or assigned "")),
            s',
          )
  unfolding apply_per_proxy_chunk_sizes
  split-runs ranges assigned start stop base s back more p =
      rw (more, apply_per_proxy_chunk_sizes) (rw p refl)

  -- With positive sizes for the proxies and a positive base size the function returns, and what it
  -- returns tiles the same window of bytes, with indices from 0, with one proxy for each range, each
  -- of them among those given; the ranges that replace given ones keep their proxies.
  pub apply_per_proxy_chunk_sizes-Tiles :
      (ranges : List Range) (assigned : List String) (start stop base : ℕ) (s : S)
      → 0 < base
      → start ≤ stop
      → Tiles start stop 0 ranges
      → length ranges ≡ length assigned
      → (rs : List Range) × (urls : List String) × (s' : S) × (apply_per_proxy_chunk_sizes
            chunk_size_for ranges assigned start stop base s
          ≡ some (rs, urls, s'))
        × Tiles start stop 0 rs
        × (length urls ≡ length rs)
        × All (λ u. contains assigned u ≡ true) urls
        × ((j : ℕ) → j < length rs → j < length assigned → get_elem? urls j ≡ get_elem? assigned j)
  unfolding apply_per_proxy_chunk_sizes
  apply_per_proxy_chunk_sizes-Tiles ranges assigned start stop base s pos le t same =
      elim (Bool-cases (leb (length (to_set assigned)) 1)) [
        | inl one ↦ (ranges, assigned, s, rw one, t, sym same, All-contains assigned, λ j _ _. refl)
        | inr more ↦
            let loop = assign_loop chunk_size_for assigned stop 0 start s in
            let front = loop.0 in
            let cur = loop.1 in
            let a = assign_loop-Assigned assigned stop 0 start s le in
            let (back, p, tiles, _) =
              build_loop-Tiles (stop - cur + 1) base stop cur (length front) pos a.inside
                (omega arith) in
            let zero : 0 + length front ≡ length front = omega arith in
            let all = front ++ back in
            let fill = replicate (length back) (last_or assigned "") in
            let some_url : 0 < length assigned = ground (arith, length-to_set-le assigned) in
            let members =
              All-append (λ u. contains assigned u ≡ true) assigned fill (All-contains assigned)
                (All-replicate (λ u. contains assigned u ≡ true) (length back) (last_or assigned "")
                  (last_or-contains assigned "" some_url)) in
            (
              all,
              take (length all) (assigned ++ fill),
              loop.2,
              split-runs ranges assigned start stop base s back more p,
              Tiles-append start cur stop 0 front back a.inside a.tiles (rw zero tiles),
              rw (length-take, length-append front, length-append assigned, length-replicate)
                  (omega (arith, a.few)),
              All-take (λ u. contains assigned u ≡ true) (length all) (assigned ++ fill) members,
              λ j h g.
                  get_elem?-take (length all) (assigned ++ fill) j h
                  ∙ get_elem?-append assigned fill j g,
            )
      ]
