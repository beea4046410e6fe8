-- ===== src/Tests/Tors.antt =====
-- Two instances of Tor, of which the second one does not bootstrap.
use proxysplit.Base.{
  ℕ, ◌<◌, ◌≡◌, refl, ◌≢◌, true, false, List, [], ◌∷◌, if◌then◌else◌, ◌==◌, nat_eq, list_eq, length,
  All, Distinct,
}
use proxysplit.Tor.{
  Launch, bootstrapped, rejected, signalled, Instance, Manager, start_all, proxy_urls,
}
use proxysplit.Tor.Ports.{Numbered, start_all-Numbered}
use proxysplit.Tor.Signals.{Call, successes, Spaced, successes-Spaced}

abbrev first_only : ℕ → Launch
first_only i = if i == 0 then bootstrapped else Launch.timed_out

abbrev two_instances : Manager
two_instances = record {
  num_instances = 2;
  base_socks = 9050;
  base_ctrl = 9150;
  newnym_cd = 10;
  instances = [];
}

start_all-Numbered_example :
    let (m', ok) = start_all first_only two_instances in
    Numbered two_instances 0 m'.instances
    × All (λ (x : Instance). first_only x.index ≡ bootstrapped) m'.instances
    × Distinct (proxy_urls m')
    × (length (proxy_urls m') ≡ length m'.instances)
    × (ok ≡ true → length m'.instances ≡ 2)
    × (ok ≡ false → (length m'.instances < 2) × (first_only (length m'.instances) ≢ bootstrapped))
start_all-Numbered_example = start_all-Numbered first_only two_instances refl

abbrev instance_0 : Instance
instance_0 = record {
  index = 0;
  socks_port = 9050;
  control_port = 9150;
  alive = true;
  last_newnym = 0;
}

abbrev calls : List Call
calls =
    record { now = 100; dialog = signalled true; took = 1 }
    ∷ record { now = 102; dialog = rejected; took = 0 }
    ∷ record { now = 103; dialog = signalled true; took = 2 }
    ∷ []

successes-Spaced_example : Spaced 10 0 (successes two_instances instance_0 calls)
successes-Spaced_example = successes-Spaced two_instances instance_0 calls
