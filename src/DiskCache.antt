-- ===== src/DiskCache.antt =====
-- proxy/disk_cache.py: `DiskCache`. The sqlite table is an interface, one operation for each statement;
-- each method holds the lock and is one step. `json.dumps` followed by `json.loads` gives the headers
-- back. An exception of sqlite is not modelled.
pub mod Limit
use proxysplit.Base.{
  ℕ, zero, suc, ◌+◌, ◌-◌, ◌*◌, String, ◌≡◌, Option, none, some, List, ltb, leb, if◌then◌else◌,
  nat_eq, length,
}
use proxysplit.Cache.Control.{Headers, ParseFloat, ttl_of}

pub record Row : Type 0 where
  pub status : ℕ
  pub body : List ℕ
  pub headers : Headers
  pub expires : ℕ
  pub cached_at : ℕ
  pub size : ℕ

-- The table `responses`: what the statements do, and how they change the number of rows and the sum
-- of their sizes.
pub record Sqlite : Type 1 where
  pub Table : Type 0
  pub select : String → Table → Option Row
  pub delete : String → Table → Table
  pub replace : String → Row → Table → Table
  pub delete_all : Table → Table
  -- `SELECT SUM(size)`, 0 for no row, and `SELECT COUNT(*)`
  pub total : Table → ℕ
  pub count : Table → ℕ
  -- `SELECT COUNT(*), SUM(size) ... WHERE expires > now`
  pub live : ℕ → Table → ℕ × ℕ
  -- `SELECT url, size ... ORDER BY cached_at ASC LIMIT 1`
  pub oldest : Table → Option (String × ℕ)
  pub oldest-none : (t : Table) → oldest t ≡ none → total t ≡ 0
  pub count-delete :
      (t : Table) (url : String) (size : ℕ)
      → oldest t ≡ some (url, size)
      → count (delete url t) + 1 ≡ count t
  pub total-delete :
      (t : Table) (url : String) (size : ℕ)
      → oldest t ≡ some (url, size)
      → total (delete url t) + size ≡ total t

abbrev pub Response : Type 0
Response = ℕ × List ℕ × Headers

module _ (sqlite : Sqlite) where
  open sqlite use {Table, select, delete, replace, delete_all, total, count, live, oldest}

  pub record DiskCache : Type 0 where
    pub max_size : ℕ
    pub default_ttl : ℕ
    pub max_body : ℕ
    pub hits : ℕ
    pub misses : ℕ
    pub responses : Table

  unfoldable pub init : ℕ → ℕ → ℕ → Table → DiskCache
  init max_size_mb default_ttl max_body_mb t = record {
    max_size = max_size_mb * 1024 * 1024;
    default_ttl = default_ttl;
    max_body = max_body_mb * 1024 * 1024;
    hits = 0;
    misses = 0;
    responses = t;
  }

  unfoldable pub get : ℕ → String → DiskCache → DiskCache × Option Response
  get now url c = elim (select url c.responses) [
    | none ↦ (record c { misses = c.misses + 1 }, none)
    | some row ↦
        if ltb row.expires now
        then (record c { responses = delete url c.responses; misses = c.misses + 1 }, none)
        else (record c { hits = c.hits + 1 }, some (row.status, row.body, row.headers))
  ]

  -- The `while` loop of `_enforce_limit`, whose `size_now` is the variable `total`; `none` where the
  -- fuel runs out.
  unfoldable pub enforce_loop : ℕ → ℕ → ℕ → Table → Option Table
  enforce_loop zero max_size size_now t = none
  enforce_loop (suc fuel) max_size size_now t =
      if ltb max_size size_now
      then elim (oldest t) [
        | none ↦ some t
        | some (url, size) ↦ enforce_loop fuel max_size (size_now - size) (delete url t)
      ]
      else some t

  -- Each round deletes a row.
  unfoldable pub enforce_limit : DiskCache → Option DiskCache
  unfolding enforce_loop
  enforce_limit c =
      elim (enforce_loop (count c.responses + 1) c.max_size (total c.responses) c.responses) [
        | none ↦ none
        | some t ↦ some (record c { responses = t })
      ]

  module _ (parse_float : ParseFloat) where
    unfoldable pub put : ℕ → ℕ → String → ℕ → List ℕ → Headers → DiskCache → Option DiskCache
    unfolding enforce_limit
    put now wall url status body headers c =
        if leb (length body) c.max_body
        then elim (ttl_of parse_float c.default_ttl headers) [
          | none ↦ some c
          | some ttl ↦
              let row : Row = record {
                status = status;
                body = body;
                headers = headers;
                expires = now + ttl;
                cached_at = wall;
                size = length body;
              } in
              enforce_limit (record c { responses = replace url row c.responses })
        ]
        else some c

  unfoldable pub invalidate : String → DiskCache → DiskCache
  invalidate url c = record c { responses = delete url c.responses }

  unfoldable pub clear : DiskCache → DiskCache
  clear c = record c { responses = delete_all c.responses; hits = 0; misses = 0 }

  -- The numbers of `stats`: entries and bytes that have not expired, hits and misses.
  unfoldable pub stats : ℕ → DiskCache → ℕ × ℕ × ℕ × ℕ
  stats now c = let (entries, bytes) = live now c.responses in (entries, bytes, c.hits, c.misses)
