-- ===== src/SessionPool/Reuse.antt =====
-- proxy/session_pool.py: sessions are open, kept, and closed in the end.
use proxysplit.Base.{
  ℕ, ◌≤◌, String, ◌≡◌, refl, ap, ◌∙◌, ◌⊎◌, inl, inr, true, false, ◌||◌, Option, none, some, [], ◌∷◌,
  arith, if◌then◌else◌, Bool-cases, Option-cases, ◌==◌, beq_self, string_eq, nat_eq, contains,
}
use proxysplit.Dict.{Dict, lookup, lookup-insert, lookup-remove}
use proxysplit.SessionPool.{
  SessionPool, key_of, create, get, invalidate_sync, close, invalidate, close_each, close_all,
}

-- A session that is still to be made is not closed.
abbrev pub Fresh : SessionPool → Type 0
Fresh p = (s : ℕ) → p.next ≤ s → contains p.closed s ≡ false

get_kept :
    (proxy_url : Option String) (s : ℕ) (p : SessionPool)
    → lookup (key_of proxy_url) p.sessions ≡ some s
    → contains p.closed s ≡ false
    → get proxy_url p ≡ (p, s)
unfolding get
get_kept proxy_url s p q c = rw (q, get) (rw c refl)

get_created :
    (proxy_url : Option String) (p : SessionPool)
    → (lookup (key_of proxy_url) p.sessions ≡ none)
      ⊎ ((s : ℕ) × (lookup (key_of proxy_url) p.sessions ≡ some s) × (contains p.closed s ≡ true))
    → get proxy_url p ≡ create (key_of proxy_url) p
unfolding get
get_created proxy_url p (inl q) = rw (q, get) refl
get_created proxy_url p (inr (s, q, c)) = rw (q, get) (rw c refl)

-- `get` gives an open session and keeps it: until it is closed or dropped, the next `get` for the
-- proxy gives the same one and changes nothing; and what other proxies have stays as it was.
pub get-open :
    (proxy_url : Option String) (u : String) (p : SessionPool)
    → Fresh p
    → let (p', s) = get proxy_url p in
      (contains p'.closed s ≡ false)
      × (get proxy_url p' ≡ (p', s))
      × ((key_of proxy_url == u) ≡ false → lookup u p'.sessions ≡ lookup u p.sessions)
get-open proxy_url u p fresh =
    let key = key_of proxy_url in
    let p' = (create key p).0 in
    let new : contains p'.closed p.next ≡ false = fresh p.next (omega arith) in
    let found : lookup key p'.sessions ≡ some p.next =
      lookup-insert key key p.next p.sessions ∙ rw beq_self refl in
    let others : (key == u) ≡ false → lookup u p'.sessions ≡ lookup u p.sessions =
      λ differ. lookup-insert key u p.next p.sessions ∙ rw differ refl in
    let created : get proxy_url p' ≡ (p', p.next) = get_kept proxy_url p.next p' found new in
    elim (Option-cases (lookup key p.sessions)) [
      | inl q ↦ rw (get_created proxy_url p (inl q)) (new, created, others)
      | inr (s, q) ↦ elim (Bool-cases (contains p.closed s)) [
        | inl c ↦ rw (get_created proxy_url p (inr (s, q, c))) (new, created, others)
        | inr c ↦ let kept = get_kept proxy_url s p q c in rw kept (c, kept, λ differ. refl)
      ]
    ]

contains-close :
    (s t : ℕ) (p : SessionPool) → contains (close s p).closed t ≡ (contains p.closed t || s == t)
unfolding close
contains-close s t p = ground (arith, nat_eq.beq_iff s t)

sessions-close : (s : ℕ) (p : SessionPool) → (close s p).sessions ≡ p.sessions
unfolding close
sessions-close s p = ground arith

-- `invalidate` closes the session of the proxy and drops it, and no other.
pub invalidate-closes :
    (proxy_url : Option String) (s : ℕ) (u : String) (t : ℕ) (p : SessionPool)
    → lookup (key_of proxy_url) p.sessions ≡ some s
    → let p' = invalidate proxy_url p in
      (lookup u p'.sessions ≡ (if key_of proxy_url == u then none else lookup u p.sessions))
      × (contains p'.closed t ≡ (contains p.closed t || s == t))
unfolding invalidate invalidate_sync
invalidate-closes proxy_url s u t p q =
    rw (q, invalidate)
      (
        ap (λ d. lookup u d) (sessions-close s (invalidate_sync proxy_url p))
            ∙ lookup-remove (key_of proxy_url) u p.sessions,
        contains-close s t (invalidate_sync proxy_url p),
      )

contains-close_each :
    (sessions : Dict String ℕ) (t : ℕ) (p : SessionPool)
    → contains p.closed t ≡ true
    → contains (close_each sessions p).closed t ≡ true
unfolding close_each
contains-close_each [] t p h = h
contains-close_each ((url, s) ∷ sessions) t p h =
    contains-close_each sessions t (close s p) (contains-close s t p ∙ rw h refl)

close_each-closes :
    (sessions : Dict String ℕ) (u : String) (s : ℕ) (p : SessionPool)
    → lookup u sessions ≡ some s
    → contains (close_each sessions p).closed s ≡ true
unfolding close_each lookup
close_each-closes [] u s p h = cc
close_each-closes ((url, t) ∷ sessions) u s p h = elim (Bool-cases (url == u)) [
  | inl same ↦
      contains-close_each sessions s (close t p)
        (contains-close t s p ∙ ground (arith, nat_eq.beq_iff t s))
  | inr differ ↦ close_each-closes sessions u s (close t p) (ground arith)
]

-- `close_all` closes the session of every proxy and forgets them.
pub close_all-closes :
    (u : String) (s : ℕ) (p : SessionPool)
    → lookup u p.sessions ≡ some s
    → (contains (close_all p).closed s ≡ true) × ((close_all p).sessions ≡ [])
unfolding close_all
close_all-closes u s p h = (close_each-closes p.sessions u s p h, refl)
