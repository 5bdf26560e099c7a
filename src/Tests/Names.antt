-- ===== src/Tests/Names.antt =====
-- Domain names: packages/dns-test/src/fqdn.rs.
use dnssec_tests.Base.{List, [], ◌∷◌, ◌≡◌, refl, arith, none, some, All, inl}
use dnssec_tests.Text.{Text, codes, ends_with}
use dnssec_tests.Error.{ok, panic}
use dnssec_tests.Fqdn.{Fqdn, fqdn, parent, num_labels, com_zone, nameservers, root}
use dnssec_tests.Fqdn.Labels.{IsLabel, of_labels, parent-of_labels}
use dnssec_tests.Fqdn.Parent.{NoEmptyLabel, fqdn-labels, parent_panics}

ns-IsLabel : IsLabel (codes "ns")
ns-IsLabel = record { ne_nil = cc; no_dot = (omega arith, (omega arith, tt)) }

com-IsLabel : IsLabel (codes "com")
com-IsLabel = record { ne_nil = cc; no_dot = (omega arith, (omega arith, (omega arith, tt))) }

parent-of_labels_example : parent (record { inner = codes "ns.com." }) ≡ ok (some com_zone)
parent-of_labels_example =
    parent-of_labels (codes "ns") (codes "com" ∷ []) ns-IsLabel (com-IsLabel, tt)

com_accepted : fqdn (codes "com.") ≡ ok com_zone
unfolding fqdn
com_accepted = refl

com-NoEmptyLabel : NoEmptyLabel (codes "com.")
com-NoEmptyLabel = (inl (omega arith), (inl (omega arith), (inl (omega arith), tt)))

fqdn-labels_example : (ls : List Text) × All IsLabel ls × (com_zone ≡ of_labels ls)
fqdn-labels_example = fqdn-labels (codes "com.") com_accepted com-NoEmptyLabel

parent_panics_example :
    (name : Fqdn) × (fqdn (codes "ns..com.") ≡ ok name)
    × (parent name ≡ panic (codes "called `Result::unwrap()` on an `Err` value"))
unfolding ends_with
parent_panics_example = parent_panics (codes "ns") (codes "com.") ns-IsLabel (cc) refl

parent-root : parent root ≡ ok none
unfolding parent
parent-root = refl

num_labels-nameservers : num_labels nameservers ≡ 2
unfolding num_labels
num_labels-nameservers = refl
