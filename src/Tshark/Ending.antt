-- ===== src/Tshark/Ending.antt =====
-- What the end of a capture returns, in packages/dns-test/src/tshark.rs.
use dnssec_tests.Base.{List, [], ◌∷◌, ◌≡◌, sym, ap, ◌∙◌}
use dnssec_tests.Text.{Text, codes}
use dnssec_tests.Error.{Result, ok, Ensures-err}
use dnssec_tests.System.{System}
use dnssec_tests.System.Returns.{
  Returns, lift-eq-ok, Returns-if, Returns-then, Returns-bind, Returns-lift,
}
use dnssec_tests.Container.{exec, pop_line_ends}
use dnssec_tests.Container.Printed.{Prints, stdout-Prints}
use dnssec_tests.Tshark.{capture_file, Layers, Capture, captures}
use dnssec_tests.Tshark.Captures.{AreCaptures, captures_iff}
use dnssec_tests.Tshark.Run.{Tshark, drain, terminate}

-- The captures in the file with this text.
abbrev pub AreCapturesOf : (Text → Result (List Layers)) → Tshark → Text → List Capture → Type 0
AreCapturesOf decode tshark text captures =
    (entries : List Layers) × (decode (pop_line_ends text) ≡ ok entries)
    × AreCaptures tshark.container.ipv4_addr entries captures

-- If the capture file holds `text`, which `cat` prints whenever it runs, then whatever terminate returns
-- are the messages of the entries that the text decodes to, in order, with their directions as the
-- container sees them; and the log was readable up to its end.
pub terminate-AreCapturesOf :
    {World : Type 0} (system : System World) (decode : Text → Result (List Layers))
    (tshark : Tshark) (text : Text)
    → Prints system (exec tshark.container (codes "cat" ∷ capture_file tshark.id ∷ [])) text
    → Returns
        (λ captures. AreCapturesOf decode tshark text captures × (drain tshark.stdout ≡ ok tt))
        (terminate system decode tshark)
unfolding terminate
terminate-AreCapturesOf system decode tshark text prints = Returns-then _ λ _.
    Returns-then _ λ output.
      Returns-if output.success
        (Returns-bind (lift-eq-ok (drain tshark.stdout)) λ _ drained.
          Returns-bind (stdout-Prints system tshark.container _ text prints) λ printed same.
            Returns-bind (lift-eq-ok (decode printed)) λ entries decoded. Returns-lift (record {
              holds = λ captures e. (
                (entries, ap decode (sym same) ∙ decoded, (captures_iff _ entries captures).0 e),
                drained,
              );
            }))
        (Returns-lift (Ensures-err _))
