-- ===== src/Ranges.antt =====
-- proxy/handlers/inner.py: `build_ranges` and `apply_per_proxy_chunk_sizes`. A window of bytes is given
-- by its first byte and by the byte behind its last one, `stop` (so `end_offset` is `stop - 1`), which
-- leaves no negative number: `min(start + size - 1, end_offset) + 1` is `min (start + size) stop`.
-- A `while` loop takes fuel and is `none` where the fuel runs out.
pub mod Tiling
pub mod PerProxy
use proxysplit.Base.{
  to_set, ℕ, zero, suc, ◌+◌, ◌-◌, min, String, Option, none, some, List, [], ◌∷◌, ◌++◌, ltb, leb,
  if◌then◌else◌, string_eq, length, take, replicate, last_or,
}

pub record Range : Type 0 where
  pub first : ℕ
  pub last : ℕ
  pub index : ℕ

-- The `while` loop of `build_ranges`.
unfoldable pub build_loop : ℕ → ℕ → ℕ → ℕ → ℕ → Option (List Range)
build_loop zero chunk_size stop start idx = none
build_loop (suc fuel) chunk_size stop start idx =
    let next = min (start + chunk_size) stop in
    let more : Option (List Range) = elim (build_loop fuel chunk_size stop next (idx + 1)) [
      | none ↦ none
      | some rest ↦ some (record { first = start; last = next - 1; index = idx } ∷ rest)
    ] in
    if ltb start stop then more else some []

-- `end_offset` is `none` for the end of the content. Each round of the loop passes a byte.
unfoldable pub build_ranges : ℕ → ℕ → ℕ → Option ℕ → Option (List Range)
unfolding build_loop
build_ranges content_length chunk_size start_offset end_offset =
    let stop : ℕ = elim end_offset [ none ↦ content_length | some last ↦ last + 1 ] in
    build_loop (stop - start_offset + 1) chunk_size stop start_offset 0

-- The size of a chunk for a proxy reads and may change the statistics, `S`.
module _ {S : Type 0} (chunk_size_for : String → S → S × ℕ) where
  -- The `for` loop: the ranges, where it stopped, and the statistics.
  unfoldable pub assign_loop : List String → ℕ → ℕ → ℕ → S → List Range × ℕ × S
  assign_loop [] stop i cur s = ([], cur, s)
  assign_loop (url ∷ urls) stop i cur s =
      let (s', size) = chunk_size_for url s in
      let next = min (cur + size) stop in
      let (rest, end, s'') = assign_loop urls stop (i + 1) next s' in
      if ltb cur stop
      then (record { first = cur; last = next - 1; index = i } ∷ rest, end, s'')
      else ([], cur, s)

  -- `ranges` for the bytes that are left, of the base size, and a copy of the last proxy for each.
  unfoldable pub apply_per_proxy_chunk_sizes :
      List Range → List String → ℕ → ℕ → ℕ → S → Option (List Range × List String × S)
  unfolding to_set assign_loop build_loop
  apply_per_proxy_chunk_sizes ranges assigned start stop base_chunk_size s =
      if leb (length (to_set assigned)) 1
      then some (ranges, assigned, s)
      else (let (front, cur, s') = assign_loop assigned stop 0 start s in
          elim (build_loop (stop - cur + 1) base_chunk_size stop cur (length front)) [
            | none ↦ none
            | some back ↦
                let all = front ++ back in
                let new_assigned = assigned ++ replicate (length back) (last_or assigned "") in
                some (all, take (length all) new_assigned, s')
          ])
