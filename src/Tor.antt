-- ===== src/Tor.antt =====
-- proxy/tor_manager.py: `TorInstance` and `TorInstanceManager`. How a launch and a dialog on the control
-- port end is an argument. Times are whole numbers of one unit.
pub mod Ports
pub mod Signals
use proxysplit.Base.{
  ℕ, zero, suc, ◌+◌, max, Bool, true, false, List, [], ◌∷◌, ◌++◌, map, if◌then◌else◌, nat_eq,
  filter_by,
}
use proxysplit.Cache.Control.{codes}
use proxysplit.Dict.{Dict, insert}
use proxysplit.Text.{Text}
use proxysplit.Transfer.Decimal.{decimal}

-- How `start` ends: Tor is not found, it does not bootstrap in time, it reports an error, or it runs.
pub data Launch : Type 0 where
  not_found timed_out failed bootstrapped : Launch

pub record Instance : Type 0 where
  pub index : ℕ
  pub socks_port : ℕ
  pub control_port : ℕ
  -- `_proc` is there and has not ended
  pub alive : Bool
  pub last_newnym : ℕ

pub record Manager : Type 0 where
  pub num_instances : ℕ
  pub base_socks : ℕ
  pub base_ctrl : ℕ
  pub newnym_cd : ℕ
  pub instances : List Instance

-- `socks5://127.0.0.1:{socks_port}`
unfoldable pub proxy_url : Instance → Text
unfolding decimal
proxy_url i = codes "socks5://127.0.0.1:" ++ decimal i.socks_port

unfoldable pub stop : Instance → Instance
stop i = record i { alive = false }

-- The instance, and whether `start` returns.
unfoldable pub start : Launch → Instance → Instance × Bool
unfolding stop
start not_found i = (i, false)
start timed_out i = (stop (record i { alive = true }), false)
start failed i = (stop (record i { alive = true }), false)
start bootstrapped i = (record i { alive = true }, true)

unfoldable pub new_instance : Manager → ℕ → Instance
new_instance m i = record {
  index = i;
  socks_port = m.base_socks + i;
  control_port = m.base_ctrl + i;
  alive = false;
  last_newnym = 0;
}

-- The rounds that are left of the loop: the instances it appends, and whether it ends without an
-- exception.
unfoldable pub start_loop : (ℕ → Launch) → Manager → ℕ → ℕ → List Instance × Bool
unfolding start new_instance
start_loop launch m zero i = ([], true)
start_loop launch m (suc left) i =
    let (inst, ok) = start (launch i) (new_instance m i) in
    let (rest, done) = start_loop launch m left (i + 1) in
    if ok then (inst ∷ rest, done) else ([], false)

unfoldable pub start_all : (ℕ → Launch) → Manager → Manager × Bool
unfolding start_loop
start_all launch m =
    let (started, ok) = start_loop launch m m.num_instances 0 in
    (record m { instances = m.instances ++ started }, ok)

unfoldable pub stop_all : Manager → Manager
stop_all m = record m { instances = [] }

unfoldable pub proxy_urls : Manager → List Text
unfolding proxy_url
proxy_urls m = map proxy_url (filter_by (λ (i : Instance). i.alive) m.instances)

-- The dialog on the control port: no connection or a timeout, another answer than 250 to
-- `AUTHENTICATE`, or the signal was sent and answered with 250 or not.
pub data Dialog : Type 0 where
  unreachable rejected : Dialog
  signalled : Bool → Dialog

-- When the dialog of `refresh_circuit` begins: the cooldown since the last success is waited for.
unfoldable pub dialog_time : Manager → Instance → ℕ → ℕ
dialog_time m i now = max now (i.last_newnym + m.newnym_cd)

-- `took` is the time that the dialog takes.
unfoldable pub refresh_circuit : Manager → Dialog → ℕ → ℕ → Instance → Instance × Bool
unfolding dialog_time
refresh_circuit m unreachable now took i = (i, false)
refresh_circuit m rejected now took i = (i, false)
refresh_circuit m (signalled false) now took i = (i, false)
refresh_circuit m (signalled true) now took i =
    (record i { last_newnym = dialog_time m i now + took }, true)

-- The instances after `refresh_all_circuits`, and its outcome by index; every session of an instance
-- is invalidated then.
unfoldable pub refresh_each :
    Manager → (ℕ → Dialog) → ℕ → ℕ → List Instance → List Instance × Dict ℕ Bool
unfolding refresh_circuit
refresh_each m dialog now took [] = ([], [])
refresh_each m dialog now took (i ∷ rest) =
    let (i', ok) = refresh_circuit m (dialog i.index) now took i in
    let (rest', outcome) = refresh_each m dialog now took rest in
    (i' ∷ rest', (i.index, ok) ∷ outcome)

unfoldable pub refresh_all_circuits :
    (ℕ → Dialog) → ℕ → ℕ → Manager → Manager × Dict ℕ Bool × List Text
unfolding refresh_each proxy_url
refresh_all_circuits dialog now took m =
    let (instances, outcome) = refresh_each m dialog now took m.instances in
    (record m { instances = instances }, outcome, map proxy_url m.instances)
