-- ===== src/Dedup/Waiters.antt =====
-- proxy/dedup.py: no waiter is forgotten, and waiters get the leader's result.
use proxysplit.Base.{
  ℕ, ◌+◌, ◌≤◌, ◌<◌, String, ◌≡◌, refl, inl, inr, Bool, false, none, some, List, [], ◌∷◌, arith,
  Bool-cases, Option-cases, ◌==◌, string_eq, nat_eq,
}
use proxysplit.Dict.{lookup, insert, remove, lookup-insert, lookup-remove}
use proxysplit.Dedup.{Ending, result, Inflight, init, dedup_get, finish, dedup_put, dedup_done}

pub data Event (R : Type 0) : Type 0 where
  gets : String → Event R
  puts : String → R → Event R
  dones : String → Bool → Event R

module _ {R : Type 0} where
  unfoldable pub step : Event R → Inflight R → Inflight R
  step (gets url) s = (dedup_get url s).0
  step (puts url r) s = dedup_put url r s
  step (dones url exc) s = dedup_done url exc s

  unfoldable pub run : List (Event R) → Inflight R → Inflight R
  unfolding step
  run [] s = s
  run (e ∷ es) s = run es (step e s)

  -- The pending futures are those of the URLs in flight, and each belongs to one URL.
  pub record Inv (s : Inflight R) : Type 0 where
    pub awaited :
        (k : ℕ)
        → k < s.next_future
        → lookup k s.resolved ≡ none
        → (u : String) × (lookup u s.inflight ≡ some k)
    pub pending :
        (u : String) (k : ℕ)
        → lookup u s.inflight ≡ some k
        → (k < s.next_future) × (lookup k s.resolved ≡ none)
    pub single :
        (u v : String) (k : ℕ) → lookup u s.inflight ≡ some k → lookup v s.inflight ≡ some k → u ≡ v
    pub known : (k : ℕ) → s.next_future ≤ k → lookup k s.resolved ≡ none

  init-Inv : Inv init
  unfolding init lookup
  init-Inv = record {
    awaited = λ k h p. absurd (omega arith);
    pending = λ u k h. absurd (cc h);
    single = λ u v k h h'. cc;
    known = λ k h. refl;
  }

  awaited_new :
      (url : String) (s : Inflight R)
      → Inv s
      → lookup url s.inflight ≡ none
      → (k : ℕ) → k < s.next_future + 1
      → lookup k s.resolved ≡ none
      → (u : String) × (lookup u (insert url s.next_future s.inflight) ≡ some k)
  awaited_new url s i p k h q = elim (Bool-cases (k == s.next_future)) [
    | inl same ↦ (
      url,
      ground (arith, lookup-insert url url s.next_future s.inflight, string_eq.beq_iff url url),
    )
    | inr differ ↦
        let (u, e) = i.awaited k (ground arith) q in
        (u, ground (arith, lookup-insert url u s.next_future s.inflight, string_eq.beq_iff url u))
  ]

  awaited_rest :
      (url : String) (fut : ℕ) (end : Ending R) (s : Inflight R)
      → Inv s
      → lookup url s.inflight ≡ some fut
      → (k : ℕ) → k < s.next_future
      → lookup k (insert fut end s.resolved) ≡ none
      → (u : String) × (lookup u (remove url s.inflight) ≡ some k)
  awaited_rest url fut end s i p k h q =
      let changed = lookup-insert fut k end s.resolved in
      let other : (fut == k) ≡ false = ground arith in
      let (u, e) = i.awaited k h (ground arith) in
      (u, ground (arith, lookup-remove url u s.inflight, string_eq.beq_iff url u))

  dedup_get-Inv : (url : String) (s : Inflight R) → Inv s → Inv (dedup_get url s).0
  unfolding dedup_get
  dedup_get-Inv url s i = elim (Option-cases (lookup url s.inflight)) [
    | inr (k, p) ↦ rw (p, dedup_get) i
    | inl p ↦
        rw (p, dedup_get)
          (record {
            awaited = λ k h q. awaited_new url s i p k h q;
            pending = λ u k h.
                ground
                  (arith, lookup-insert url u s.next_future s.inflight, i.pending u k, i.known k);
            single = λ u v k h h'. ground (
              arith,
              lookup-insert url u s.next_future s.inflight,
              lookup-insert url v s.next_future s.inflight,
              i.single u v k,
              i.pending u k,
              i.pending v k,
              string_eq.beq_iff url u,
              string_eq.beq_iff url v,
            );
            known = λ k h. i.known k (omega arith);
          })
  ]

  finish-Inv : (url : String) (end : Ending R) (s : Inflight R) → Inv s → Inv (finish url end s)
  unfolding finish
  finish-Inv url end s i = elim (Option-cases (lookup url s.inflight)) [
    | inl p ↦ rw (p, finish) i
    | inr (fut, p) ↦
        rw (p, (i.pending url fut p).1, finish)
          (record {
            awaited = λ k h q. awaited_rest url fut end s i p k h q;
            pending = λ u k h. ground (
              arith,
              lookup-remove url u s.inflight,
              i.pending u k,
              i.single url u fut,
              lookup-insert fut k end s.resolved,
              string_eq.beq_iff url u,
            );
            single = λ u v k h h'. ground (
              arith,
              lookup-remove url u s.inflight,
              lookup-remove url v s.inflight,
              i.single u v k,
            );
            known = λ k h.
                ground
                  (arith, lookup-insert fut k end s.resolved, i.known k h, i.pending url fut p);
          })
  ]

  step-Inv : (e : Event R) (s : Inflight R) → Inv s → Inv (step e s)
  unfolding step dedup_put dedup_done
  step-Inv (gets url) s i = dedup_get-Inv url s i
  step-Inv (puts url r) s i = finish-Inv url (result r) s i
  step-Inv (dones url exc) s i = finish-Inv url _ s i

  run-Inv : (es : List (Event R)) (s : Inflight R) → Inv s → Inv (run es s)
  unfolding run
  run-Inv [] s i = i
  run-Inv (e ∷ es) s i = run-Inv es (step e s) (step-Inv e s i)

  -- After any calls, the futures that have not ended are exactly those of the URLs in flight, and each
  -- belongs to one URL only: every waiter has a leader that can still end its wait.
  pub run-init_awaited : (es : List (Event R)) → Inv (run es init)
  run-init_awaited es = run-Inv es init init-Inv

  -- Calls for other URLs, and readers of this one.
  abbrev pub Unfinished : String → Event R → Type 0
  Unfinished url (gets u) = Unit
  Unfinished url (puts u r) = (u == url) ≡ false
  Unfinished url (dones u exc) = (u == url) ≡ false
