-- ===== src/Admin/Selection.antt =====
-- proxy/handlers/admin.py: which proxies `/proxy/stats` reports.
use proxysplit.Base.{
  ℕ, suc, ◌+◌, String, ◌≡◌, refl, ◌∙◌, inl, inr, Bool, true, false, not, ◌&&◌, List, [], ◌∷◌, arith,
  if◌then◌else◌, Bool-cases, ◌==◌, string_eq, nat_eq, list_eq, take, filter_by, contains,
}
use proxysplit.Float.{Float}
use proxysplit.Stats.Score.{sorted_from, insert_sorted}
use proxysplit.Text.{Text}
use proxysplit.Transfer.{number}
use proxysplit.Transfer.Headers.{all_digits}
use proxysplit.Admin.Reports.{
  Row, Rows, annotate, select, insert_by_url, sort_by_url, sort_by_key, arrange, limited,
  proxy_stats,
}

-- Which proxies a filter lets through, by whether they are blocked.
abbrev pub wanted : String → Bool → Bool
wanted filter blocked =
    if filter == "blocked" then blocked else if filter == "available" then not blocked else true

module _ {A : Type 0} where
  -- How many elements pass a test.
  abbrev pub count : (A → Bool) → List A → ℕ
  count t [] = 0
  count t (x ∷ xs) = let n = count t xs in if t x then suc n else n

  count-filter_by :
      (t p : A → Bool) (xs : List A) → count t (filter_by p xs) ≡ count (λ x. t x && p x) xs
  count-filter_by t p [] = refl
  count-filter_by t p (x ∷ xs) = ground (arith, count-filter_by t p xs)

  count-same : (s t : A → Bool) (xs : List A) → ((x : A) → s x ≡ t x) → count s xs ≡ count t xs
  count-same s t [] h = refl
  count-same s t (x ∷ xs) h = ground (arith, count-same s t xs h, h x)

module _ (𝓕 : Float) (infinity : 𝓕.F) (before : String → String → Bool) where
  open 𝓕 use {F}

  -- What a proxy's row shows besides the statistics.
  abbrev pub mark :
      (String → String)
      → List String
      → String × Row 𝓕 infinity before
      → String × Row 𝓕 infinity before
  mark state_for blocked (url, e) =
      (url, record e { circuit_state = state_for url; blocked = contains blocked url })

  count-annotate :
      (t : String × Row 𝓕 infinity before → Bool) (state_for : String → String)
      (blocked : List String) (rows : Rows 𝓕 infinity before)
      → count t (annotate 𝓕 infinity before state_for blocked rows)
        ≡ count (λ r. t (mark state_for blocked r)) rows
  unfolding annotate
  count-annotate t state_for blocked [] = refl
  count-annotate t state_for blocked ((url, e) ∷ rows) =
      ground (arith, count-annotate t state_for blocked rows)

  count-select :
      (t : String × Row 𝓕 infinity before → Bool) (filter : String) (rows : Rows 𝓕 infinity before)
      → count t (select 𝓕 infinity before filter rows)
        ≡ count (λ r. t r && wanted filter r.1.blocked) rows
  unfolding select
  count-select t filter rows = elim (Bool-cases (filter == "blocked")) [
    | inl p ↦ rw p (count-filter_by t _ rows)
    | inr p ↦ elim (Bool-cases (filter == "available")) [
      | inl q ↦ rw (p, q) (count-filter_by t _ rows)
      | inr q ↦ rw (p, q) (count-same t _ rows (λ r. ground arith))
    ]
  ]

  count-insert_by_url :
      (t : String × Row 𝓕 infinity before → Bool) (r : String × Row 𝓕 infinity before)
      (rows : Rows 𝓕 infinity before)
      → count t (insert_by_url 𝓕 infinity before r rows) ≡ count t (r ∷ rows)
  unfolding insert_by_url
  count-insert_by_url t r [] = refl
  count-insert_by_url t r (x ∷ rows) =
      ground (arith, count-insert_by_url t r rows, Bool-cases (before r.0 x.0))

  count-sort_by_url :
      (t : String × Row 𝓕 infinity before → Bool) (acc rows : Rows 𝓕 infinity before)
      → count t (sort_by_url 𝓕 infinity before acc rows) ≡ count t rows + count t acc
  unfolding sort_by_url
  count-sort_by_url t acc [] = ground arith
  count-sort_by_url t acc (r ∷ rows) =
      let rest = count-sort_by_url t (insert_by_url 𝓕 infinity before r acc) rows in
      let placed = count-insert_by_url t r acc in ground (arith, rest, placed)

  count-insert_sorted :
      (t : String × Row 𝓕 infinity before → Bool) (key : String × Row 𝓕 infinity before → F)
      (r : String × Row 𝓕 infinity before) (rows : Rows 𝓕 infinity before)
      → count t (insert_sorted 𝓕 key r rows) ≡ count t (r ∷ rows)
  unfolding insert_sorted
  count-insert_sorted t key r [] = refl
  count-insert_sorted t key r (x ∷ rows) =
      ground (arith, count-insert_sorted t key r rows, Bool-cases (𝓕.lt (key r) (key x)))

  count-sorted_from :
      (t : String × Row 𝓕 infinity before → Bool) (key : String × Row 𝓕 infinity before → F)
      (acc rows : Rows 𝓕 infinity before)
      → count t (sorted_from 𝓕 key acc rows) ≡ count t rows + count t acc
  unfolding sorted_from
  count-sorted_from t key acc [] = ground arith
  count-sorted_from t key acc (r ∷ rows) =
      let rest = count-sorted_from t key (insert_sorted 𝓕 key r acc) rows in
      let placed = count-insert_sorted t key r acc in ground (arith, rest, placed)

  count-sort_by_key :
      (t : String × Row 𝓕 infinity before → Bool) (key : Row 𝓕 infinity before → F)
      (rows : Rows 𝓕 infinity before)
      → count t (sort_by_key 𝓕 infinity before key rows) ≡ count t rows
  count-sort_by_key t key rows = ground (arith, count-sorted_from t (λ r. key r.1) [] rows)

  sort_or_keep :
      (t : String × Row 𝓕 infinity before → Bool) (sorts : Bool)
      (ordered rest rows : Rows 𝓕 infinity before)
      → count t ordered ≡ count t rows
      → count t rest ≡ count t rows
      → count t (if sorts then ordered else rest) ≡ count t rows
  sort_or_keep t true ordered rest rows h k = h
  sort_or_keep t false ordered rest rows h k = k

  count-arrange :
      (t : String × Row 𝓕 infinity before → Bool) (sort : String) (rows : Rows 𝓕 infinity before)
      → count t (arrange 𝓕 infinity before sort rows) ≡ count t rows
  unfolding arrange
  count-arrange t sort rows =
      let by_url : count t (sort_by_url 𝓕 infinity before [] rows) ≡ count t rows =
        ground (arith, count-sort_by_url t [] rows) in
      sort_or_keep t (sort == "url") _ _ rows by_url (
        sort_or_keep t (sort == "score") _ _ rows (count-sort_by_key t _ rows) (
          sort_or_keep t (sort == "latency") _ _ rows (count-sort_by_key t _ rows) (
            sort_or_keep t (sort == "failures") _ _ rows (count-sort_by_key t _ rows)
              (sort_or_keep t (sort == "success") _ _ rows (count-sort_by_key t _ rows) refl))))

  -- Without `limit`, whatever the sort key, the report has as many rows with any given trait as the
  -- snapshot's marked rows that the filter lets through, so it holds exactly these, none twice; each
  -- is marked with its circuit's state and with whether it is blocked. With a `limit` of digits it
  -- is the first rows of that report.
  pub proxy_stats-Selected :
      (state_for : String → String) (blocked : List String) (filter sort : String) (limit : Text)
      (snap : Rows 𝓕 infinity before) (t : String × Row 𝓕 infinity before → Bool)
      → all_digits limit ≡ true
      → (count t (proxy_stats 𝓕 infinity before state_for blocked filter sort [] snap)
          ≡ count (λ r. t (mark state_for blocked r) && wanted filter (contains blocked r.0)) snap)
        × (proxy_stats 𝓕 infinity before state_for blocked filter sort limit snap
            ≡ take
                (number limit)
                (proxy_stats 𝓕 infinity before state_for blocked filter sort [] snap))
  unfolding proxy_stats limited all_digits
  proxy_stats-Selected state_for blocked filter sort limit snap t h = (
    count-arrange t sort _ ∙ count-select t filter _ ∙ count-annotate _ state_for blocked snap,
    rw h refl,
  )
