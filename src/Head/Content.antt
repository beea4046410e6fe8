-- ===== src/Head/Content.antt =====
-- proxy/fetchers/head.py: what `get_head_info` finds out about an origin.
use proxysplit.Base.{
  ℕ, ◌<◌, String, ◌≡◌, refl, ap, ◌⊎◌, inl, inr, Bool, true, false, not, Option, none, some, List,
  [], ◌∷◌, arith, Bool-cases, ◌==◌, string_eq, nat_eq, list_eq, length,
}
use proxysplit.Cache.Control.{codes}
use proxysplit.Dict.{lookup}
use proxysplit.Text.{Text, lower}
use proxysplit.Text.Strip.{strip-All}
use proxysplit.Transfer.Decimal.{decimal, decimal_lem}
use proxysplit.Transfer.Headers.{content_range}
use proxysplit.Transfer.RoundTrip.{total_of-content_range, spaceless, all_digits-decimal}
use proxysplit.Head.{
  Info, Outcome, failed, answered, int_of, header_or, content_type, nonempty, read_head,
  read_range_probe, Services, try_head, run_batch, race, fallback_probe, pick_probes, get_head_info,
}

pub int_of-decimal : (n : ℕ) → int_of (decimal n) ≡ some n
unfolding int_of
int_of-decimal n =
    let (e, ds, pos) = decimal_lem n in
    let same = strip-All (decimal n) (spaceless (decimal n) ds) in
    rw (same, int_of) (rw (all_digits-decimal n) (ap some e))

-- An answer to HEAD by an origin with a content of `n` bytes of a type: no answer, one without a
-- length, or one with the length and the type, and with or without `Accept-Ranges: bytes`.
abbrev pub HonestHead : ℕ → Text → Outcome → Type 0
HonestHead n type failed = Unit
HonestHead n type (answered status headers) =
    (lookup "Content-Length" headers ≡ none)
    ⊎ ((lookup "Content-Length" headers ≡ some (decimal n)) × (content_type headers ≡ type))

-- An answer to HEAD that does not say that ranges are served.
abbrev pub denies_ranges : Outcome → Bool
denies_ranges failed = false
denies_ranges (answered status headers) =
    not (lower (header_or (codes "none") (lookup "Accept-Ranges" headers)) == codes "bytes")

-- An answer with the one byte that was asked for.
abbrev pub HonestProbe : ℕ → Text → Outcome → Type 0
HonestProbe n type failed = ⊥
HonestProbe n type (answered status headers) =
    (status ≡ 206)
    × (lookup "Content-Range" headers ≡ some (content_range 0 0 n))
    × (content_type headers ≡ type)

nonempty-decimal : (n : ℕ) → nonempty (some (decimal n)) ≡ some (decimal n)
nonempty-decimal n =
    elim (decimal n) as (λ (s : Text). 0 < length s → nonempty (some s) ≡ some s) [
      | [] ↦ λ pos. absurd (omega arith)
      | c ∷ ds ↦ λ pos. refl
    ]
      (decimal_lem n).2

not-not : (b : Bool) → b ≡ not (not b)
not-not true = refl
not-not false = refl

read_head-found :
    (n : ℕ) (type : Text) (o : Outcome)
    → HonestHead n type o
    → ((read_head o).1 ≡ none) ⊎ ((read_head o).1 ≡ some (some n, not (denies_ranges o), type))
unfolding read_head
read_head-found n type failed h = inl refl
read_head-found n type (answered status headers) (inl missing) = inl (rw (missing, read_head) refl)
read_head-found n type (answered status headers) (inr (cl, ct)) = inr (
    rw (cl, read_head)
      (rw (nonempty-decimal n, read_head)
        (rw (int_of-decimal n, read_head) (rw ct (ap (λ b. some (some n, b, type)) (not-not _))))))

read_range_probe-total :
    (n : ℕ) (type : Text) (o : Outcome)
    → HonestProbe n type o
    → read_range_probe o ≡ some (some n, true, type)
unfolding read_range_probe
read_range_probe-total n type failed h = absurd h
read_range_probe-total n type (answered status headers) (partial, cr, ct) =
    rw (cr, read_range_probe) (rw (total_of-content_range 0 0 n, ct) (rw partial refl))

-- An origin with a content of `n` bytes of a type, and a proxy that is available at any time: an answer
-- to HEAD may fail or have no length, the one to the range probe has it.
pub record Origin (services : Services) (n : ℕ) (type : Text) : Type 0 where
  pub honest_head : (p : String) (w : services.World) → HonestHead n type (services.head p w).1
  pub honest_probe :
      (p : String) (w : services.World) → HonestProbe n type (services.range_probe p w).1
  pub picked : (w : services.World) → (p : String) × ((services.pick_proxy [] w).1 ≡ some p)

module _ (services : Services) (n : ℕ) (type : Text) (origin : Origin services n type) where
  open services use {World}

  -- Some answer to HEAD does not say that ranges are served.
  abbrev pub Silent : Type 0
  Silent = (p : String) × (w : World) × (denies_ranges (services.head p w).1 ≡ true)

  -- The length and the type are the origin's, and ranges are denied only by a silent answer.
  abbrev pub Truth : Option Info → Type 0
  Truth info = (ranges : Bool) × (info ≡ some (some n, ranges, type)) × ((ranges ≡ true) ⊎ Silent)

  read_head-Truth :
      (p : String) (w : World)
      → ((read_head (services.head p w).1).1 ≡ none) ⊎ Truth (read_head (services.head p w).1).1
  read_head-Truth p w =
      let o = (services.head p w).1 in
      elim (read_head-found n type o (origin.honest_head p w)) [
        | inl nothing ↦ inl nothing
        | inr found ↦ elim (Bool-cases (denies_ranges o)) [
          | inl silent ↦ inr (not (denies_ranges o), found, inr (p, w, silent))
          | inr said ↦ inr (not (denies_ranges o), found, inl (ap not said))
        ]
      ]

  run_batch-Truth :
      (ps : List String) (w : World)
      → ((run_batch services ps w).1 ≡ none) ⊎ Truth (run_batch services ps w).1
  unfolding run_batch try_head
  run_batch-Truth [] w = inl refl
  run_batch-Truth (p ∷ ps) w =
      let rest = run_batch-Truth ps (try_head services p w).0 in
      elim (read_head-Truth p w) [
        | inl nothing ↦ rw (nothing, run_batch) rest
        | inr (ranges, found, why) ↦ inr (ranges, rw (found, run_batch) refl, why)
      ]

  race-Truth :
      (batches : List (List String)) (w : World)
      → ((race services batches w).1 ≡ none) ⊎ Truth (race services batches w).1
  unfolding race
  race-Truth [] w = inl refl
  race-Truth (batch ∷ rest) w = elim (run_batch-Truth batch w) [
    | inl nothing ↦ rw (nothing, race) (race-Truth rest (run_batch services batch w).0)
    | inr (ranges, found, why) ↦ inr (ranges, rw (found, race) refl, why)
  ]

  fallback-content : (w : World) → (fallback_probe services w).1 ≡ some (some n, true, type)
  unfolding fallback_probe
  fallback-content w =
      let (p, e) = origin.picked w in
      rw (e, fallback_probe)
        (read_range_probe-total n type (services.range_probe p (services.pick_proxy [] w).0).1
          (origin.honest_probe p (services.pick_proxy [] w).0))

  -- If a proxy is always to be had, an origin answers the range probe with the length of its content
  -- and its type, and HEAD not at all, without a length, or with that length and type, then the two
  -- stages find that length and type, in whatever order the concurrent probes end. They find too that
  -- ranges are served, unless some answer to HEAD is without `Accept-Ranges: bytes`.
  pub get_head_info-content :
      (head_retries : ℕ) (w : World) → Truth (get_head_info services head_retries w).1
  unfolding get_head_info
  get_head_info-content head_retries w =
      let (w₁, probes) = pick_probes services head_retries [] w in
      let batches = services.batches probes w₁ in
      let w₂ = (race services batches w₁).0 in
      elim (race-Truth batches w₁) [
        | inl nothing ↦ (true, rw (nothing, get_head_info) (fallback-content w₂), inl refl)
        | inr (ranges, found, why) ↦ (ranges, rw (found, get_head_info) refl, why)
      ]
