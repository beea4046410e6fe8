-- ===== src/Tor/Ports.antt =====
-- proxy/tor_manager.py: the ports of the instances, and what a start leaves running.
use proxysplit.Base.{
  ℕ, zero, suc, ◌+◌, ◌<◌, ◌≡◌, refl, sym, ap, ◌∙◌, ◌≢◌, ◌⊎◌, inl, inr, Bool, true, false, List, [],
  ◌∷◌, ◌++◌, map, arith, Bool-cases, ◌==◌, nat_eq, list_eq, length, drop, filter_by, All, contains,
  Distinct,
}
use proxysplit.Cache.Control.{codes}
use proxysplit.Text.{Text}
use proxysplit.Transfer.{number}
use proxysplit.Transfer.Decimal.{decimal, decimal_lem}
use proxysplit.Tor.{
  Launch, bootstrapped, Instance, Manager, proxy_url, start, new_instance, start_loop, start_all,
  proxy_urls,
}

-- The instances from the index `i` on: their indices count up, and all run on the ports of their index.
abbrev pub Numbered : Manager → ℕ → List Instance → Type 0
Numbered m i [] = Unit
Numbered m i (inst ∷ rest) =
    (inst.index ≡ i)
    × (inst.socks_port ≡ m.base_socks + i)
    × (inst.control_port ≡ m.base_ctrl + i)
    × (inst.alive ≡ true)
    × Numbered m (i + 1) rest

decimal_injective : (a b : ℕ) → decimal a ≡ decimal b → a ≡ b
decimal_injective a b e = sym (decimal_lem a).0 ∙ ap number e ∙ (decimal_lem b).0

-- The URL of an instance on a port.
abbrev url_at : ℕ → Text
url_at port = codes "socks5://127.0.0.1:" ++ decimal port

url_at_injective : (a b : ℕ) → url_at a ≡ url_at b → a ≡ b
url_at_injective a b e = decimal_injective a b (ap (drop 19) e)

contains-Numbered :
    (m : Manager) (i port : ℕ) (instances : List Instance)
    → Numbered m i instances
    → port < m.base_socks + i
    → contains (map proxy_url (filter_by (λ (x : Instance). x.alive) instances)) (url_at port)
      ≡ false
unfolding proxy_url
contains-Numbered m i port [] h l = refl
contains-Numbered m i port (inst ∷ rest) h l =
    let later = contains-Numbered m (i + 1) port rest h.4 (omega arith) in
    let differ : (url_at inst.socks_port == url_at port) ≡ false =
      elim (Bool-cases (url_at inst.socks_port == url_at port)) [
        | inl same ↦
            let e =
              url_at_injective inst.socks_port port
                ((list_eq.beq_iff (url_at inst.socks_port) (url_at port)).0 same) in
            absurd (omega (arith, e, h.1))
        | inr other ↦ other
      ] in
    rw h.3 (rw differ later)

Numbered-Distinct :
    (m : Manager) (i : ℕ) (instances : List Instance)
    → Numbered m i instances
    → let urls = map proxy_url (filter_by (λ (x : Instance). x.alive) instances) in
      Distinct urls × (length urls ≡ length instances)
unfolding proxy_url
Numbered-Distinct m i [] h = (tt, refl)
Numbered-Distinct m i (inst ∷ rest) h =
    let (distinct, size) = Numbered-Distinct m (i + 1) rest h.4 in
    let new = contains-Numbered m (i + 1) inst.socks_port rest h.4 (omega (arith, h.1)) in
    rw h.3 ((new, distinct), omega (arith, size))

-- An instance that does not bootstrap makes `start` raise.
start_fails :
    (l : Launch)
    → (l ≡ bootstrapped) ⊎ ((l ≢ bootstrapped) × ((inst : Instance) → (start l inst).1 ≡ false))
unfolding start
start_fails Launch.not_found = inr (λ e. cc e, λ inst. refl)
start_fails Launch.timed_out = inr (λ e. cc e, λ inst. refl)
start_fails Launch.failed = inr (λ e. cc e, λ inst. refl)
start_fails bootstrapped = inl refl

-- What the loop leaves behind: the instances up to the first one that fails.
record Started (launch : ℕ → Launch) (m : Manager) (left i : ℕ) (instances : List Instance)
    (ok : Bool) : Type 0 where
  numbered : Numbered m i instances
  booted : All (λ (x : Instance). launch x.index ≡ bootstrapped) instances
  complete : ok ≡ true → length instances ≡ left
  stopped : ok ≡ false → (length instances < left) × (launch (i + length instances) ≢ bootstrapped)

start_loop-Started :
    (launch : ℕ → Launch) (m : Manager) (left i : ℕ)
    → let (instances, ok) = start_loop launch m left i in Started launch m left i instances ok
unfolding start_loop start new_instance
start_loop-Started launch m zero i = record {
  numbered = tt;
  booted = tt;
  complete = λ e. refl;
  stopped = λ e. absurd (cc e);
}
start_loop-Started launch m (suc left) i = elim (start_fails (launch i)) [
  | inl ok ↦
      let rest = start_loop-Started launch m left (i + 1) in
      let done = start_loop launch m left (i + 1) in
      rw ok (record {
        numbered = (refl, refl, refl, refl, rest.numbered);
        booted = (ok, rest.booted);
        complete = λ e. ap suc (rest.complete e);
        stopped = λ e.
            let (short, bad) = rest.stopped e in
            let shift : i + suc (length done.0) ≡ i + 1 + length done.0 = omega arith in
            (omega (arith, short), rw shift bad);
      })
  | inr (bad, fails) ↦ rw (fails (new_instance m i)) (record {
    numbered = tt;
    booted = tt;
    complete = λ e. absurd (cc e);
    stopped = λ e. let z : i + 0 ≡ i = omega arith in (omega arith, rw z bad);
  })
]

-- `start_all` of a new manager runs the instances 0, 1, … on the ports of their indices, each with a URL
-- of its own, and the launch of each has bootstrapped. It returns only with all of the instances, and it
-- raises only where the launch behind the last one running has not bootstrapped, and then fewer than all
-- are left running.
pub start_all-Numbered :
    (launch : ℕ → Launch) (m : Manager)
    → m.instances ≡ []
    → let (m', ok) = start_all launch m in
      Numbered m 0 m'.instances
      × All (λ (x : Instance). launch x.index ≡ bootstrapped) m'.instances
      × Distinct (proxy_urls m')
      × (length (proxy_urls m') ≡ length m'.instances)
      × (ok ≡ true → length m'.instances ≡ m.num_instances)
      × (ok ≡ false
          → (length m'.instances < m.num_instances) × (launch (length m'.instances) ≢ bootstrapped))
unfolding start_all proxy_urls
start_all-Numbered launch m new =
    let s = start_loop-Started launch m m.num_instances 0 in
    let (distinct, size) =
      Numbered-Distinct m 0 (start_loop launch m m.num_instances 0).0 s.numbered in
    let n = length (start_loop launch m m.num_instances 0).0 in
    let z : n ≡ 0 + n = omega arith in
    rw new (
      s.numbered,
      s.booted,
      distinct,
      size,
      s.complete,
      λ e. let (short, bad) = s.stopped e in (short, λ q. bad (sym (ap launch z) ∙ q)),
    )
