-- ===== src/Container/Networks.antt =====
-- packages/dns-test/src/container/network.rs: the networks that docker puts containers into.
use dnssec_tests.Base.{ℕ, [], ◌∷◌, if◌then◌else◌}
use dnssec_tests.Text.{Text, codes, format, trim}
use dnssec_tests.Error.{message, ok, err}
use dnssec_tests.Uint.{uint_to_string}
use dnssec_tests.System.{System, Io, ◌>>=◌, lift, call, fetch_add}
use dnssec_tests.Container.Messages.{network_failed, panicked}

-- `Network` with its `NetworkInner` and `NetworkConfig`.
pub record Network : Type 0 where
  pub name : Text
  pub subnet : Text

-- `network_count`.
unfoldable pub network_count : {World : Type 0} → Io World ℕ
network_count state =
    (ok state.network_count, record state { network_count = fetch_add state.network_count })

-- `PACKAGE_NAME` is `dns-test`.
unfoldable pub network_name : ℕ → ℕ → Text
network_name pid count =
    format (codes "dns-test-" ∷ uint_to_string pid ∷ codes "-" ∷ uint_to_string count ∷ [])

module _ {World : Type 0} (system : System World) where
  -- `get_network_config`: the subnet.
  unfoldable pub get_network_config : Text → Io World Text
  unfolding network_failed trim
  get_network_config name =
      let command =
        codes "docker"
        ∷ codes "network"
        ∷ codes "inspect"
        ∷ codes "-f"
        ∷ codes "{{range .IPAM.Config}}{{.Subnet}}{{end}}"
        ∷ name
        ∷ [] in
      do
        output ← call (system.output command)
        if output.success
            then (do stdout ← lift output.stdout; lift (ok (trim stdout)))
            else lift (err (message (network_failed command)))

  -- `Network::new` and `NetworkInner::new`.
  unfoldable pub new : Io World Network
  unfolding network_count network_name get_network_config
  new = do
    count ← network_count
    let name = network_name system.id count
    output ← call (
        system.output (
          codes "docker"
          ∷ codes "network"
          ∷ codes "create"
          ∷ codes "--internal"
          ∷ codes "--attachable"
          ∷ name
          ∷ []))
    if output.success
        then (do
          subnet ← get_network_config name
          lift (ok (record { name = name; subnet = subnet })))
        else lift (err (message (panicked output.stdout_lossy output.stderr_lossy)))
