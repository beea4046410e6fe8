-- ===== src/Dedup.antt =====
-- proxy/dedup.py: one fetch for all requests of a URL that are in flight. Futures are numbers; one
-- that is not `resolved` is pending.
pub mod Waiters
use proxysplit.Base.{
  ℕ, ◌+◌, String, Bool, true, false, none, some, [], if◌then◌else◌, string_eq, nat_eq, length,
}
use proxysplit.Dict.{Dict, lookup, insert, remove}

pub data Ending (R : Type 0) : Type 0 where
  result : R → Ending R
  exception cancelled : Ending R

pub record Inflight (R : Type 0) : Type 0 where
  pub inflight : Dict String ℕ
  pub resolved : Dict ℕ (Ending R)
  pub next_future : ℕ

module _ {R : Type 0} where
  unfoldable pub init : Inflight R
  init = record { inflight = []; resolved = []; next_future = 0 }

  -- The future, and whether the caller is the leader.
  unfoldable pub dedup_get : String → Inflight R → Inflight R × ℕ × Bool
  dedup_get url s = elim (lookup url s.inflight) [
    | some fut ↦ (s, fut, false)
    | none ↦ (
      record s { inflight = insert url s.next_future s.inflight; next_future = s.next_future + 1 },
      s.next_future,
      true,
    )
  ]

  -- `_INFLIGHT.pop(url, None)`, and the end of a future that is not done.
  unfoldable pub finish : String → Ending R → Inflight R → Inflight R
  finish url end s = elim (lookup url s.inflight) [
    | none ↦ s
    | some fut ↦
        let inflight' = remove url s.inflight in
        elim (lookup fut s.resolved) [
          | some earlier ↦ record s { inflight = inflight' }
          | none ↦ record s { inflight = inflight'; resolved = insert fut end s.resolved }
        ]
  ]

  unfoldable pub dedup_put : String → R → Inflight R → Inflight R
  unfolding finish
  dedup_put url r s = finish url (result r) s

  unfoldable pub dedup_done : String → Bool → Inflight R → Inflight R
  unfolding finish
  dedup_done url has_exc s = finish url (if has_exc then exception else cancelled) s

  unfoldable pub inflight_count : Inflight R → ℕ
  inflight_count s = length s.inflight
