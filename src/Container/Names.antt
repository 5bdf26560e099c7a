-- ===== src/Container/Names.antt =====
-- The names of containers and networks in packages/dns-test/src/container.rs and container/network.rs.
use dnssec_tests.Base.{
  ℕ, ◌≤◌, [], ◌∷◌, ◌++◌, append-nil, append_assoc, some, ◌≡◌, sym, ◌∙◌, ap, arith,
}
use dnssec_tests.Text.{Text, codes, rsplit_once}
use dnssec_tests.Text.Search.{rsplit_once-append}
use dnssec_tests.Error.{ok-eq}
use dnssec_tests.Uint.{u64_max, uint_to_string, parse_uint}
use dnssec_tests.Uint.RoundTrip.{uint_to_string-Lacks, parse_uint-to_string}
use dnssec_tests.System.{System}
use dnssec_tests.Container
use dnssec_tests.Container.Networks.{network_name}

-- A number behind the last dash is read back.
dash-eq :
    (p q : Text) (m n : ℕ)
    → m ≤ u64_max
    → n ≤ u64_max
    → (p ++ b'-' ∷ uint_to_string m) ≡ (q ++ b'-' ∷ uint_to_string n)
    → (p ≡ q) × (m ≡ n)
dash-eq p q m n hm hn e =
    let left =
      rsplit_once-append b'-' p (uint_to_string m) (uint_to_string-Lacks b'-' m (omega arith)) in
    let right =
      rsplit_once-append b'-' q (uint_to_string n) (uint_to_string-Lacks b'-' n (omega arith)) in
    let same : some (p, uint_to_string m) ≡ some (q, uint_to_string n) =
      sym left ∙ ap (rsplit_once (b'-' ∷ [])) e ∙ right in
    let numbers : uint_to_string m ≡ uint_to_string n = cc in
    (
      cc,
      ok-eq (
          sym (parse_uint-to_string u64_max m hm)
          ∙ ap (parse_uint u64_max) numbers
          ∙ parse_uint-to_string u64_max n hn),
    )

abbrev network_prefix : ℕ → Text
network_prefix pid = codes "dns-test-" ++ uint_to_string pid

network_name-dash :
    (pid count : ℕ) → network_name pid count ≡ network_prefix pid ++ b'-' ∷ uint_to_string count
unfolding network_name
network_name-dash pid count = rw append-nil

abbrev container_prefix : Container.Image.Image → ℕ → Text
container_prefix image pid =
    codes "dns-test-" ++ (Container.Image.to_string image ++ b'-' ∷ uint_to_string pid)

container_name-dash :
    {World : Type 0} (system : System World) (image : Container.Image.Image) (count : ℕ)
    → Container.container_name system image count
      ≡ container_prefix image system.id ++ b'-' ∷ uint_to_string count
unfolding Container.container_name
container_name-dash system image count = rw append-nil (
    ap (λ s. codes "dns-test-" ++ s)
      (sym (
        append_assoc (Container.Image.to_string image) (b'-' ∷ uint_to_string system.id)
          (b'-' ∷ uint_to_string count))))

-- Containers with different counts have different names, whatever their images; and so do networks.
pub names-eq :
    {World : Type 0} (system : System World) (image other : Container.Image.Image) (m n : ℕ)
    → m ≤ u64_max
    → n ≤ u64_max
    → (Container.container_name system image m ≡ Container.container_name system other n → m ≡ n)
      × (network_name system.id m ≡ network_name system.id n → m ≡ n)
names-eq system image other m n hm hn = (
  (λ e.
      (dash-eq (container_prefix image system.id) (container_prefix other system.id) m n hm hn
        (sym (container_name-dash system image m) ∙ e ∙ container_name-dash system other n)).1),
  (λ e.
      (dash-eq (network_prefix system.id) (network_prefix system.id) m n hm hn
        (sym (network_name-dash system.id m) ∙ e ∙ network_name-dash system.id n)).1),
)
