-- ===== src/Handler/Uncached.antt =====
-- proxy/handlers/request.py: no request is answered from the memory.
use proxysplit.Base.{
  ℕ, suc, String, ◌≡◌, refl, ap, inl, inr, Bool, true, false, not, ◌&&◌, none, some, List, [], ◌∷◌,
  Bool-cases, Option-cases, ◌==◌, string_eq, nat_eq, length, All,
}
use mathlib.Core.Path.{subst⁻¹}
use proxysplit.Cache
use proxysplit.Cache.{get, put}
use proxysplit.Cache.Control.{ParseFloat}
use proxysplit.Handler.{
  Stored, Inner, responded, streamed, timed_out, raised, Parts, hit_l1_revalidated, revalidated,
  hit_l1, hit_l2, Answer, replied, sent_stream, Request, State, bound_cache, fresh, is_http, store,
  serve_inner, serve_missed, handle_request, handle_all,
}

-- An answer that does not come from the cache in memory.
abbrev pub from_elsewhere : Answer → Bool
from_elsewhere sent_stream = true
from_elsewhere (replied status body none) = true
from_elsewhere (replied status body (some hit_l2)) = true
from_elsewhere (replied status body (some hit_l1)) = false
from_elsewhere (replied status body (some hit_l1_revalidated)) = false
from_elsewhere (replied status body (some revalidated)) = false

module _ (parse_float : ParseFloat) (parts : Parts) where
  open parts use {World, disk_get, disk_put, handle_inner}

  -- The cache stays empty, and the answer is from elsewhere.
  abbrev Uncached : State parts × Answer → Type 0
  Uncached (s, answer) = (s.cache ≡ bound_cache) × (from_elsewhere answer ≡ true)

  store-bound :
      (now wall : ℕ) (url : String) (f : Stored) (w : World)
      → store parse_float parts now wall url f (fresh parts w) ≡ fresh parts w
  unfolding store put Cache.init
  store-bound now wall url f w = refl

  serve_inner-at :
      (now wall : ℕ) (q : Request) (w : World) (r : Inner)
      → (handle_inner q.url w).1 ≡ r
      → Uncached (serve_inner parse_float parts now wall q (fresh parts w))
  unfolding serve_inner
  serve_inner-at now wall q w streamed e = rw (e, serve_inner) (refl, refl)
  serve_inner-at now wall q w timed_out e = rw (e, serve_inner) (refl, refl)
  serve_inner-at now wall q w raised e = rw (e, serve_inner) (refl, refl)
  serve_inner-at now wall q w (responded f) e = elim (Bool-cases q.is_get) [
    | inl gets ↦
        let kept = store-bound now wall q.url f (handle_inner q.url w).0 in
        rw (e, serve_inner) (rw gets (ap (λ (s : State parts). s.cache) kept, refl))
    | inr other ↦ rw (e, serve_inner) (rw other (refl, refl))
  ]

  serve_inner-Uncached :
      (now wall : ℕ) (q : Request) (w : World)
      → Uncached (serve_inner parse_float parts now wall q (fresh parts w))
  serve_inner-Uncached now wall q w = serve_inner-at now wall q w (handle_inner q.url w).1 refl

  serve_missed-Uncached :
      (now wall : ℕ) (q : Request) (w : World)
      → Uncached (serve_missed parse_float parts now wall q (fresh parts w))
  unfolding serve_missed
  serve_missed-Uncached now wall q w = elim (Option-cases (disk_get q.url w).1) [
    | inl missed ↦ rw (missed, serve_missed) (serve_inner-Uncached now wall q (disk_get q.url w).0)
    | inr (f, hit) ↦
        let kept = store-bound now wall q.url f (disk_get q.url w).0 in
        rw (hit, serve_missed) (ap (λ (s : State parts). s.cache) kept, refl)
  ]

  handle_request-Uncached :
      (now wall : ℕ) (q : Request) (w : World)
      → Uncached (handle_request parse_float parts now wall q (fresh parts w))
  unfolding handle_request get Cache.init
  handle_request-Uncached now wall q w = elim (Bool-cases (q.url == "")) [
    | inl unnamed ↦ rw (unnamed, handle_request) (refl, refl)
    | inr named ↦ elim (Bool-cases (is_http q.url)) [
      | inr other ↦ rw (named, handle_request) (rw other (refl, refl))
      | inl http ↦ elim (Bool-cases (q.is_get && not q.no_cache)) [
        | inl reads ↦
            rw (named, handle_request) (rw (http, reads) (serve_missed-Uncached now wall q w))
        | inr passes ↦
            rw (named, handle_request) (rw (http, passes) (serve_inner-Uncached now wall q w))
      ]
    ]
  ]

  -- The handler's cache stays as it was bound at import, and no request is answered from it: in every
  -- sequence of requests each answer comes from the disk or from `handle_inner`, or is a refusal.
  pub handle_all-uncached :
      (calls : List (ℕ × ℕ × Request)) (s : State parts)
      → s.cache ≡ bound_cache
      → let (s', answers) = handle_all parse_float parts calls s in
        (s'.cache ≡ bound_cache)
        × All (λ a. from_elsewhere a ≡ true) answers
        × (length answers ≡ length calls)
  unfolding handle_all
  handle_all-uncached [] s bound = (bound, tt, refl)
  handle_all-uncached ((now, wall, q) ∷ calls) s bound =
      let same : s ≡ fresh parts s.world = ap (λ c. record { cache = c; world = s.world }) bound in
      let first : Uncached (handle_request parse_float parts now wall q s) =
        subst⁻¹ (λ x. Uncached (handle_request parse_float parts now wall q x)) same
          (handle_request-Uncached now wall q s.world) in
      let rest =
        handle_all-uncached calls (handle_request parse_float parts now wall q s).0 first.0 in
      (rest.0, (first.1, rest.1), ap suc rest.2)
