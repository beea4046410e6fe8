-- ===== src/Breaker/Backoff.antt =====
-- proxy/circuit_breaker.py: how long a ban lasts, and who sees it.
use proxysplit.Base.{
  ℕ, suc, ◌+◌, ◌-◌, ◌*◌, ◌^◌, ◌≤◌, min, String, ◌≡◌, refl, false, some, arith, ltb, leb, beq_self,
  string_eq, contains,
}
use native.Mathlib.Nat.{pow-succ'}
use proxysplit.Dict.{Unique, insert-Unique, lookup, insert, lookup-insert, contains-keys_where}
use proxysplit.Breaker.{
  opened, Entry, Breaker, answer, entry, backoff, open_entry, is_open, record_failure,
  allow_request, is_blocked, blocked_urls, is_expired, expired_open,
}
use proxysplit.Breaker.Settle.{fire_breakers}

backoff-le : (b : Breaker) (n : ℕ) → backoff b n ≤ b.max_delay
unfolding backoff
backoff-le b n = omega arith

power_after : (n : ℕ) → 2 ^ (n + 2 - 1) ≡ 2 * 2 ^ (n + 1 - 1)
power_after n =
    let e : n + 2 - 1 ≡ suc n = omega arith in
    let f : n + 1 - 1 ≡ n = omega arith in rw (e, f) (pow-succ' 2 n)

-- A ban lasts twice as long as the one before it, up to `max_delay`.
pub backoff-double :
    (b : Breaker) (n : ℕ) → backoff b (n + 2) ≡ min (2 * backoff b (n + 1)) b.max_delay
unfolding backoff
backoff-double b n = rw power_after (grind arith)

bans-lookup :
    (now wall : ℕ) (url : String) (consecutive : ℕ) (reason : String) (b : Breaker)
    → b.threshold ≤ consecutive
    → is_open (entry url b).state ≡ false
    → (record_failure now wall url consecutive reason b).breakers
      ≡ insert url (open_entry b now wall reason (entry url b)) b.breakers
unfolding record_failure
bans-lookup now wall url consecutive reason b h q =
    let many : ltb consecutive b.threshold ≡ false = ground arith in
    rw (many, record_failure) (rw q (fire_breakers url _))

entry-lookup :
    (url : String) (b : Breaker) (e : Entry) → lookup url b.breakers ≡ some e → entry url b ≡ e
unfolding entry
entry-lookup url b e p = ground (arith, p)

open_entry-until :
    (b : Breaker) (now wall : ℕ) (reason : String) (e : Entry)
    → (open_entry b now wall reason e).open_until
      ≡ now + min (b.base_delay * 2 ^ e.strike) b.max_delay
unfolding open_entry
open_entry-until b now wall reason e =
    let same : e.strike + 1 - 1 ≡ e.strike = omega arith in rw same

open_entry-bans :
    (b : Breaker) (now wall : ℕ) (reason : String) (e : Entry)
    → ((open_entry b now wall reason e).state ≡ opened)
      × ((open_entry b now wall reason e).strike ≡ e.strike + 1)
unfolding open_entry
open_entry-bans b now wall reason e = (refl, refl)

module _ (later : ℕ) (url : String) (e : Entry) (b : Breaker) (u : Unique b.breakers)
    (p : lookup url b.breakers ≡ some e) (o : e.state ≡ opened) where
  banned-allow : (allow_request later url b).1 ≡ answer (leb e.open_until later)
  unfolding allow_request
  banned-allow = ground (arith, p, o)

  banned-blocked : contains (blocked_urls later b) url ≡ ltb later e.open_until
  unfolding blocked_urls
  banned-blocked = ground (arith, contains-keys_where (is_blocked later) url b.breakers u, p, o)

  banned-expired : contains (expired_open later b) url ≡ leb e.open_until later
  unfolding expired_open
  banned-expired = ground (arith, contains-keys_where (is_expired later) url b.breakers u, p, o)

-- A row of failures that reaches the threshold, of a proxy that is not already banned, bans it for
-- `base_delay * 2 ** strike` (with the strikes so far) and at most `max_delay`. Until that time, and
-- no longer, the proxy is blocked and refused; from then on it is expired, and the next request
-- is let through.
pub record_failure-bans :
    (now wall later : ℕ) (url : String) (consecutive : ℕ) (reason : String) (b : Breaker)
    → Unique b.breakers
    → b.threshold ≤ consecutive
    → is_open (entry url b).state ≡ false
    → let b' = record_failure now wall url consecutive reason b in
      let until = now + min (b.base_delay * 2 ^ (entry url b).strike) b.max_delay in
      ((entry url b').open_until ≡ until)
      × ((entry url b').strike ≡ (entry url b).strike + 1)
      × ((allow_request later url b').1 ≡ answer (leb until later))
      × (contains (blocked_urls later b') url ≡ ltb later until)
      × (contains (expired_open later b') url ≡ leb until later)
record_failure-bans now wall later url consecutive reason b u h q =
    let b' = record_failure now wall url consecutive reason b in
    let e = entry url b in
    let e' = open_entry b now wall reason e in
    let insertion : b'.breakers ≡ insert url e' b.breakers =
      bans-lookup now wall url consecutive reason b h q in
    let found : lookup url b'.breakers ≡ some e' = rw (insertion, lookup-insert, beq_self url) in
    let unique : Unique b'.breakers = rw insertion (insert-Unique url e' b.breakers u) in
    let until = open_entry-until b now wall reason e in
    let (banned, struck) = open_entry-bans b now wall reason e in
    (
      rw (entry-lookup url b' e' found) until,
      rw (entry-lookup url b' e' found) struck,
      rw (← until) (banned-allow later url e' b' unique found banned),
      rw (← until) (banned-blocked later url e' b' unique found banned),
      rw (← until) (banned-expired later url e' b' unique found banned),
    )
