-- ===== src/DiskCache/Limit.antt =====
-- proxy/disk_cache.py: the limit on the size of the table.
use proxysplit.Base.{
  ℕ, zero, suc, ◌+◌, ◌-◌, ◌≤◌, ◌<◌, String, ◌≡◌, refl, ap, inl, inr, some, List, arith, ltb, leb,
  Bool-cases, Option-cases, nat_eq, length,
}
use proxysplit.Cache.Control.{Headers, ParseFloat, ttl_of}
use proxysplit.DiskCache.{Sqlite, DiskCache, enforce_loop, enforce_limit, put}

module _ (sqlite : Sqlite) where
  open sqlite use {Table, delete, total, count, oldest, replace}

  enforce_loop-limit :
      (fuel max_size : ℕ) (t : Table)
      → count t < fuel
      → (t' : Table) × (enforce_loop sqlite fuel max_size (total t) t ≡ some t')
        × (total t' ≤ max_size)
        × (total t ≤ max_size → t' ≡ t)
  unfolding enforce_loop
  enforce_loop-limit zero max_size t h = absurd (omega arith)
  enforce_loop-limit (suc fuel) max_size t h = elim (Bool-cases (ltb max_size (total t))) [
    | inr small ↦ (t, rw small refl, ground arith, λ le. refl)
    | inl big ↦ elim (Option-cases (oldest t)) [
      | inl p ↦
          (t, rw (big, p, enforce_loop) refl, omega (arith, sqlite.oldest-none t p), λ le. refl)
      | inr ((url, size), p) ↦
          let left = sqlite.total-delete t url size p in
          let same : total t - size ≡ total (delete url t) = omega (arith, left) in
          let (t', e, le, keep) =
            enforce_loop-limit fuel max_size (delete url t)
              (omega (arith, sqlite.count-delete t url size p)) in
          (t', rw (big, p, enforce_loop) (rw same e), le, λ fits. absurd (ground arith))
    ]
  ]

  -- `_enforce_limit` ends. Then the table is within its limit, and it is as before if it was so.
  pub enforce_limit-limit :
      (c : DiskCache sqlite)
      → (c' : DiskCache sqlite) × (enforce_limit sqlite c ≡ some c')
        × (total c'.responses ≤ c.max_size)
        × (total c.responses ≤ c.max_size → c' ≡ c)
  unfolding enforce_limit
  enforce_limit-limit c =
      let (t', e, le, keep) =
        enforce_loop-limit (count c.responses + 1) c.max_size c.responses (omega arith) in
      (
        record c { responses = t' },
        rw (e, enforce_limit) refl,
        le,
        λ fits. ap (λ (t : Table). record c { responses = t }) (keep fits),
      )

  -- `put` ends, and whatever the response is, a table that was within its limit is so afterwards.
  pub put-limit :
      (parse_float : ParseFloat) (now wall : ℕ) (url : String) (status : ℕ) (body : List ℕ)
      (headers : Headers) (c : DiskCache sqlite)
      → total c.responses ≤ c.max_size
      → (c' : DiskCache sqlite) × (put sqlite parse_float now wall url status body headers c
          ≡ some c')
        × (total c'.responses ≤ c.max_size)
  unfolding put
  put-limit parse_float now wall url status body headers c within =
      elim (Bool-cases (leb (length body) c.max_body)) [
        | inr big ↦ (c, rw (big, put) refl, within)
        | inl fits ↦ elim (Option-cases (ttl_of parse_float c.default_ttl headers)) [
          | inl p ↦ (c, rw (fits, put) (rw (p, put) refl), within)
          | inr (ttl, p) ↦
              let (c', e, le, keep) = enforce_limit-limit (record c {
                responses =
                    replace url
                      (record {
                        status = status;
                        body = body;
                        headers = headers;
                        expires = now + ttl;
                        cached_at = wall;
                        size = length body;
                      })
                      c.responses;
              }) in
              (c', rw (fits, put) (rw (p, put) e), le)
        ]
      ]
