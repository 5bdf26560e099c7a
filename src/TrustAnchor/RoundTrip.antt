-- ===== src/TrustAnchor/RoundTrip.antt =====
-- The files that packages/dns-test/src/trust_anchor.rs prints, read line by line.
use dnssec_tests.Base.{List, [], ◌∷◌, ◌++◌, append_assoc, append-nil, ◌≡◌, refl, ◌∙◌, sym, All}
use dnssec_tests.Text.{Text, codes, lines}
use dnssec_tests.Text.Lines.{lines-inline, Row-IsInline}
use dnssec_tests.Text.Splits.{Lacks}
use dnssec_tests.Error.{Result, ok, ◌>>=◌}
use dnssec_tests.Record.Dnskey
use dnssec_tests.Record.Dnskey.{Dnskey}
use dnssec_tests.TrustAnchor.{TrustAnchor, write_keys, to_string, push_delv, delv}

-- Every line read as a DNSKEY record, the way a resolver reads the file.
abbrev pub read_keys : List Text → Result (List Dnskey)
read_keys [] = ok []
read_keys (line ∷ rest) = do key ← Dnskey.from_str line; keys ← read_keys rest; ok (key ∷ keys)

pub record IsPlain (key : Dnskey) : Type 0 where
  pub valid : Dnskey.IsValid key
  pub plain : Lacks b';' key.public_key

read_keys-write_keys :
    (keys : List Dnskey) → All IsPlain keys → read_keys (lines (write_keys keys)) ≡ ok keys
unfolding write_keys
read_keys-write_keys [] h = unfold lines in refl
read_keys-write_keys (key ∷ keys) h = rw (
  append_assoc,
  lines-inline (Dnskey.to_string key) (write_keys keys)
      (Row-IsInline (Dnskey.to_string-Row key h.0.valid)),
  read_keys,
  Dnskey.RoundTrip.from_str-to_string key h.0.valid h.0.plain,
  read_keys-write_keys keys h.1,
)

-- If every key of a trust anchor is valid and has no semicolon in its public key, then the lines of the
-- printed trust anchor, read as DNSKEY records, are its keys, in the order in which they were added.
pub read_keys-to_string :
    (anchor : TrustAnchor)
    → All IsPlain anchor.keys
    → read_keys (lines (to_string anchor)) ≡ ok anchor.keys
unfolding to_string
read_keys-to_string anchor h = read_keys-write_keys anchor.keys h

-- The statements of the keys.
abbrev pub statements : List Dnskey → Text
statements [] = []
statements (key ∷ keys) = Dnskey.delv key ++ statements keys

push_delv-statements :
    (buf : Text) (keys : List Dnskey) → push_delv buf keys ≡ buf ++ statements keys
unfolding push_delv
push_delv-statements buf [] = sym (append-nil buf)
push_delv-statements buf (key ∷ keys) =
    push_delv-statements (buf ++ Dnskey.delv key) keys
    ∙ append_assoc buf (Dnskey.delv key) (statements keys)

-- The file for `delv` is one block with a statement for each key, in order.
pub delv_lem :
    (anchor : TrustAnchor)
    → delv anchor ≡ codes "trust-anchors {" ++ (statements anchor.keys ++ codes "};")
unfolding delv
delv_lem anchor =
    rw (push_delv-statements (codes "trust-anchors {") anchor.keys)
      (append_assoc (codes "trust-anchors {") (statements anchor.keys) (codes "};"))
