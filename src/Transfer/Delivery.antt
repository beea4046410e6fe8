-- ===== src/Transfer/Delivery.antt =====
-- proxy/handlers/inner.py: a client gets the bytes that it asked for.
use proxysplit.Base.{
  ℕ, zero, suc, ◌+◌, ◌-◌, ◌≤◌, ◌<◌, String, ◌≡◌, refl, sym, ap, inl, inr, Bool, true, false, Option,
  none, some, List, [], ◌∷◌, arith, if◌then◌else◌, Bool-cases, ◌==◌, string_eq, nat_eq, length,
  get_elem?,
}
use proxysplit.Ranges.{Range}
use proxysplit.Ranges.Tiling.{Tiles, build_ranges-Tiles}
use proxysplit.Ranges.PerProxy.{apply_per_proxy_chunk_sizes-Tiles}
use proxysplit.Text.{Text}
use proxysplit.Transfer.{Window, Reply, client_window}
use proxysplit.Transfer.Assembly.{slice, AllFetched, assemble-slice}
use proxysplit.Transfer.RangeHeader.{client_window-inside}
use proxysplit.Transfer.Inner.{
  Parts, Options, replied, pair_up, resize, race, reply_chunks, reply_ranges, handle_inner,
  request_proxy, resolve_content_info, retry_budget,
}

abbrev pub ranges_of : List (Range × String) → List Range
ranges_of [] = []
ranges_of ((r, p) ∷ jobs) = r ∷ ranges_of jobs

-- What the other parts do for an origin that serves this content in ranges: the probe finds its
-- length, each range is given a proxy and a positive size, and every range is fetched in the end.
pub record Serves (parts : Parts) (content : List ℕ) : Type 0 where
  pub content_type : Text
  pub get_head_info-content :
      (w : parts.World)
      → (parts.get_head_info w).1 ≡ some (some (length content), true, content_type)
  pub not_excluded : parts.is_excluded content_type ≡ false
  pub length-distribute_proxies :
      (n : ℕ) (w : parts.World) → length (parts.distribute_proxies n w).1 ≡ n
  pub chunk_size_for-positive : (p : String) (w : parts.World) → 0 < (parts.chunk_size_for p w).1
  pub gather-AllFetched :
      (jobs : List (Range × String)) (budget : ℕ) (w : parts.World)
      → AllFetched content (ranges_of jobs) (parts.gather jobs budget w).1

get_elem?-some :
    (xs : List String) (i : ℕ) → i < length xs → (x : String) × (get_elem? xs i ≡ some x)
get_elem?-some [] i h = absurd (omega arith)
get_elem?-some (x ∷ xs) zero h = (x, refl)
get_elem?-some (x ∷ xs) (suc i) h = get_elem?-some xs i (omega arith)

pair_up-Tiles :
    (start stop i : ℕ) (ranges : List Range) (assigned : List String)
    → Tiles start stop i ranges
    → i + length ranges ≤ length assigned
    → (jobs : List (Range × String)) × (pair_up ranges assigned ≡ some jobs)
      × (ranges_of jobs ≡ ranges)
unfolding pair_up
pair_up-Tiles start stop i [] assigned t le = ([], refl, refl)
pair_up-Tiles start stop i (r ∷ ranges) assigned t le =
    let (p, e) = get_elem?-some assigned r.index (omega (arith, t.3)) in
    let (jobs, f, g) = pair_up-Tiles (r.last + 1) stop (i + 1) ranges assigned t.4 (omega arith) in
    ((r, p) ∷ jobs, rw (e, pair_up) (rw f refl), ap (λ rs. r ∷ rs) g)

Tiles-nonempty :
    (start stop i : ℕ) (ranges : List Range)
    → Tiles start stop i ranges
    → start < stop
    → 0 < length ranges
Tiles-nonempty start stop i [] t h = absurd (omega (arith, t))
Tiles-nonempty start stop i (r ∷ ranges) t h = omega arith

module _ (parts : Parts) (content : List ℕ) (serves : Serves parts content) where
  open parts use {World}

  -- The whole window, and of a part its place in the content.
  abbrev pub delivery : Window → Reply
  delivery v = record {
    status = if v.is_partial then 206 else 200;
    body = slice v.start v.stop content;
    content_range = if v.is_partial then some (v.start, v.stop - 1, length content) else none;
  }

  reply_chunks-delivery :
      (o : Options) (v : Window) (ranges : List Range) (assigned : List String) (w : World)
      → o.use_streaming ≡ false
      → Tiles v.start v.stop 0 ranges
      → v.stop ≤ length content
      → length assigned ≡ length ranges
      → (reply_chunks parts o (length content) v ranges assigned w).1 ≡ replied (delivery v)
  unfolding reply_chunks
  reply_chunks-delivery o v ranges assigned w gathers t inside same =
      let (jobs, e, f) = pair_up-Tiles v.start v.stop 0 ranges assigned t (omega arith) in
      let w' = (race parts o ranges assigned w).0 in
      let done = serves.gather-AllFetched jobs (retry_budget o (length ranges)) w' in
      let got = assemble-slice content v ranges _ t inside (rw f at done) in
      rw (gathers, reply_chunks) (rw (e, reply_chunks) (rw got refl))

  record Resized (v : Window) (r : Option (List Range × List String × World)) : Type 0 where
    ranges : List Range
    assigned : List String
    world : World
    found : r ≡ some (ranges, assigned, world)
    tiles : Tiles v.start v.stop 0 ranges
    aligned : length assigned ≡ length ranges

  resize-Resized :
      (o : Options) (v : Window) (ranges : List Range) (assigned : List String) (w : World)
      → 0 < o.chunk_size
      → v.start ≤ v.stop
      → Tiles v.start v.stop 0 ranges
      → length assigned ≡ length ranges
      → Resized v (resize parts o v ranges assigned w)
  unfolding resize
  resize-Resized o v ranges assigned w pos le t same = elim (Bool-cases o.per_proxy_chunks) [
    | inr q ↦ record {
      ranges = ranges;
      assigned = assigned;
      world = w;
      found = rw (q, resize) refl;
      tiles = t;
      aligned = same;
    }
    | inl q ↦
        let (rs, urls, w', e, t', l, _, _) =
          apply_per_proxy_chunk_sizes-Tiles parts.chunk_size_for serves.chunk_size_for-positive
            ranges assigned v.start v.stop o.chunk_size w pos le t (sym same) in
        record {
          ranges = rs;
          assigned = urls;
          world = w';
          found = rw (q, resize) e;
          tiles = t';
          aligned = l;
        }
  ]

  reply_ranges-delivery :
      (o : Options) (w : World)
      → 0 < length content
      → 0 < o.chunk_size
      → o.use_streaming ≡ false
      → (reply_ranges parts o (length content) w).1
        ≡ replied (delivery (client_window (length content) o.client_range))
  unfolding reply_ranges
  reply_ranges-delivery o w some_bytes pos gathers =
      let n = length content in
      let v = client_window n o.client_range in
      let (low, high, rest) = client_window-inside n o.client_range some_bytes in
      let back : v.stop - 1 + 1 ≡ v.stop = omega (arith, low) in
      let (ranges, e, t, sized) =
        build_ranges-Tiles n o.chunk_size v.start (some (v.stop - 1)) pos (omega (arith, low)) in
      let tiles : Tiles v.start v.stop 0 ranges = rw back at t in
      let (w', assigned) = parts.distribute_proxies (length ranges) w in
      let same : length assigned ≡ length ranges =
        serves.length-distribute_proxies (length ranges) w in
      let nonempty : (length assigned == 0) ≡ false =
        let many = Tiles-nonempty v.start v.stop 0 ranges tiles low in ground arith in
      let r = resize-Resized o v ranges assigned w' pos (omega (arith, low)) tiles same in
      rw (e, reply_ranges)
        (rw (nonempty, reply_ranges)
          (rw (r.found, reply_ranges)
            (reply_chunks-delivery o v r.ranges r.assigned r.world gathers r.tiles high r.aligned)))

  resolve_content_info-content :
      (w : World)
      → resolve_content_info parts w
        ≡ ((parts.get_head_info w).0, some (length content), true, serves.content_type)
  unfolding resolve_content_info
  resolve_content_info-content w = rw (serves.get_head_info-content w, resolve_content_info) refl

  -- If the origin serves a content that is not empty in ranges, and every range is fetched in the end,
  -- a request that is not streamed gets exactly the bytes of the window that it asks for, in order:
  -- with the status 206 and its place in the content for a part, with 200 and all bytes otherwise.
  pub handle_inner-delivery :
      (o : Options) (w : World)
      → 0 < length content
      → 0 < o.chunk_size
      → o.use_streaming ≡ false
      → (handle_inner parts o w).1
        ≡ replied (delivery (client_window (length content) o.client_range))
  unfolding handle_inner
  handle_inner-delivery o w some_bytes pos gathers =
      let w₁ = (request_proxy parts o w).0 in
      let found = resolve_content_info-content w₁ in
      let used : (length content == 0) ≡ false = ground arith in
      let length_found = ap (λ (r : World × Option ℕ × Bool × Text). r.1) found in
      let ranges_found = ap (λ (r : World × Option ℕ × Bool × Text). r.2) found in
      let type_found = ap (λ (r : World × Option ℕ × Bool × Text). r.3) found in
      rw (length_found, handle_inner)
        (rw (ranges_found, type_found)
          (rw (serves.not_excluded, used)
            (reply_ranges-delivery o (resolve_content_info parts w₁).0 some_bytes pos gathers)))
