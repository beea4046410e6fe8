-- ===== src/Wiring/Bans.antt =====
-- proxy/session_pool.py: a row of failures ends in a ban.
use proxysplit.Base.{
  ℕ, ◌+◌, String, ◌≡◌, refl, ap, ◌∙◌, inl, inr, Bool, true, ◌||◌, some, List, [], ◌∷◌, arith, ltb,
  leb, Bool-cases, beq_self, string_eq, length,
}
use proxysplit.Breaker
use proxysplit.Breaker.{Breaker, is_open, fire, open_entry}
use proxysplit.Breaker.Settle.{fire_breakers}
use proxysplit.Dict.{lookup, insert, lookup-insert}
use proxysplit.Float.{Float}
use proxysplit.Stats
use proxysplit.Stats.{ProxyStats}
use proxysplit.Stats.Counts.{entry-insert}
use proxysplit.Wiring.{record_failure}

-- Whether a proxy is banned, whatever the time.
abbrev pub banned : String → Breaker → Bool
banned url b = is_open (Breaker.entry url b).state

entry-stored :
    (url : String) (e : Breaker.Entry) (b : Breaker)
    → lookup url b.breakers ≡ some e
    → Breaker.entry url b ≡ e
unfolding Breaker.entry
entry-stored url e b p = rw (p, Breaker.entry) refl

banned-insert :
    (url : String) (e : Breaker.Entry) (b b' : Breaker)
    → b'.breakers ≡ insert url e b.breakers
    → banned url b' ≡ is_open e.state
banned-insert url e b b' p =
    let found : lookup url b'.breakers ≡ some e =
      rw p (lookup-insert url url e b.breakers ∙ rw beq_self refl) in
    rw (entry-stored url e b' found) refl

is_open-open_entry :
    (b : Breaker) (now wall : ℕ) (reason : String) (e : Breaker.Entry)
    → is_open (open_entry b now wall reason e).state ≡ true
unfolding open_entry
is_open-open_entry b now wall reason e = refl

banned-record_failure :
    (now wall : ℕ) (url : String) (n : ℕ) (reason : String) (b : Breaker)
    → banned url (Breaker.record_failure now wall url n reason b)
      ≡ (banned url b || leb b.threshold n)
unfolding Breaker.record_failure
banned-record_failure now wall url n reason b = elim (Bool-cases (ltb n b.threshold)) [
  | inl few ↦ rw (few, Breaker.record_failure) (ground arith)
  | inr many ↦ elim (Bool-cases (banned url b)) [
    | inl yes_banned ↦
        let e = Breaker.entry url b in
        let kept : Breaker = record b { breakers = insert url e b.breakers } in
        rw (many, Breaker.record_failure)
          (rw yes_banned (banned-insert url e b kept refl ∙ yes_banned))
    | inr free ↦
        let e = open_entry b now wall reason (Breaker.entry url b) in
        let put : Breaker = record b { breakers = insert url e b.breakers } in
        rw (many, Breaker.record_failure)
          (rw free (
            banned-insert url e b (fire url put) (fire_breakers url put)
            ∙ is_open-open_entry b now wall reason (Breaker.entry url b)
            ∙ ground arith))
  ]
]

threshold-record_failure :
    (now wall : ℕ) (url : String) (n : ℕ) (reason : String) (b : Breaker)
    → (Breaker.record_failure now wall url n reason b).threshold ≡ b.threshold
unfolding Breaker.record_failure fire
threshold-record_failure now wall url n reason b = ground arith

module _ (𝓕 : Float) where
  open 𝓕 use {F}

  abbrev pub row : String → ProxyStats 𝓕 → ℕ
  row url d = (Stats.entry 𝓕 url d).consecutive_failures

  entry_self :
      (u : String) (e : Stats.Entry 𝓕) (d : ProxyStats 𝓕) → Stats.entry 𝓕 u (insert u e d) ≡ e
  entry_self u e d = entry-insert 𝓕 u u e d ∙ rw beq_self refl

  row-record_failure :
      (at : F) (url : String) (d : ProxyStats 𝓕)
      → let (d', n) = Stats.record_failure 𝓕 at url d in (n ≡ row url d + 1) × (row url d' ≡ n)
  unfolding Stats.record_failure Stats.invalidate_score
  row-record_failure at url d =
      (refl, ap (λ (e : Stats.Entry 𝓕). e.consecutive_failures) (entry_self url _ d))

  -- The failures of a proxy, each at its times.
  unfoldable pub fail_all :
      List (F × ℕ × ℕ) → String → ProxyStats 𝓕 × Breaker → ProxyStats 𝓕 × Breaker
  unfolding record_failure
  fail_all [] url w = w
  fail_all ((at, now, wall) ∷ times) url w = fail_all times url (record_failure 𝓕 at now wall url w)

  -- After some failures in a row of a proxy it is banned exactly if it was before, or if its row of
  -- failures, with those from before, has reached the threshold.
  pub banned-fail_all :
      (t : F × ℕ × ℕ) (times : List (F × ℕ × ℕ)) (url : String) (d : ProxyStats 𝓕) (b : Breaker)
      → banned url (fail_all (t ∷ times) url (d, b)).1
        ≡ (banned url b || leb b.threshold (row url d + length (t ∷ times)))
  unfolding fail_all record_failure
  banned-fail_all (at, now, wall) [] url d b =
      let (n_row, next) = row-record_failure at url d in
      banned-record_failure now wall url _ "consecutive failures" b ∙ ground (arith, n_row)
  banned-fail_all (at, now, wall) (t ∷ times) url d b =
      let (n_row, next) = row-record_failure at url d in
      let n = (Stats.record_failure 𝓕 at url d).1 in
      let b' = Breaker.record_failure now wall url n "consecutive failures" b in
      let ih = banned-fail_all t times url (Stats.record_failure 𝓕 at url d).0 b' in
      ih
      ∙ ground (
        arith,
        n_row,
        next,
        banned-record_failure now wall url n "consecutive failures" b,
        threshold-record_failure now wall url n "consecutive failures" b,
      )
