-- ===== src/Container/Copies.antt =====
-- The calls behind the copy of a file into a container: `cp` of packages/dns-test/src/container.rs.
use dnssec_tests.Base.{List, [], ◌∷◌, ◌++◌, ◌≡◌, ap, ◌∙◌}
use dnssec_tests.Text.{Text, codes, format}
use dnssec_tests.System.{System}
use dnssec_tests.System.Logged.{
  Call, ran, started, wrote, logged, Makes, Makes-bind, Makes-append_nil, Makes-map, Makes-if,
  output-Makes, status-Makes, spawn-Makes, write-Makes, temp_file-Makes,
}
use dnssec_tests.Container.{Container, exec, checked_output, status, status_ok, cp}
use dnssec_tests.Container.Child.{spawn}

-- The contents are written to a temporary file, which is copied to the path in the container, where
-- everyone may then read and write it.
abbrev pub IsCopy : Container → Text → Text → List Call → Type 0
IsCopy container path contents calls =
    (temporary : Text) × (calls
      ≡ wrote temporary contents
        ∷ ran (
            codes "docker"
            ∷ codes "cp"
            ∷ temporary
            ∷ format (container.id ∷ codes ":" ∷ path ∷ [])
            ∷ [])
        ∷ ran (
            codes "docker"
            ∷ codes "exec"
            ∷ codes "-t"
            ∷ container.id
            ∷ codes "chmod"
            ∷ codes "666"
            ∷ path
            ∷ [])
        ∷ [])

append-eq : {a a' b b' : List Call} → a ≡ a' → b ≡ b' → a ++ b ≡ a' ++ b'
append-eq {a} {a'} {b} e f = ap (λ c. c ++ b) e ∙ ap (λ c. a' ++ c) f

module _ {World : Type 0} (system : System World) where
  checked_output-Makes :
      (command : List Text)
      → Makes (λ _ calls. calls ≡ ran command ∷ []) (checked_output (logged system) command)
  unfolding checked_output
  checked_output-Makes command = Makes-bind (output-Makes system command) λ output first e.
      Makes-if output.success (Makes-append_nil _ first _ e) (Makes-append_nil _ first _ e)

  pub status_ok-Makes :
      (container : Container) (command : List Text)
      → Makes
          (λ _ calls. calls ≡ ran (exec container command) ∷ [])
          (status_ok (logged system) container command)
  unfolding status_ok status
  status_ok-Makes container command =
      Makes-bind (status-Makes system (exec container command)) λ success first e.
        Makes-if success (Makes-append_nil _ first _ e) (Makes-append_nil _ first _ e)

  pub cp-IsCopy :
      (container : Container) (path contents : Text)
      → Makes
          (λ _ calls. IsCopy container path contents calls)
          (cp (logged system) container path contents)
  unfolding cp
  cp-IsCopy container path contents = Makes-bind (temp_file-Makes system) λ temporary c0 e0.
      Makes-bind (write-Makes system temporary contents) λ _ c1 e1.
        Makes-bind (checked_output-Makes _) λ _ c2 e2.
          Makes-map (λ _ c3 e3. (temporary, append-eq e0 (append-eq e1 (append-eq e2 e3))))
            (status_ok-Makes container _)

  pub spawn_exec-Makes :
      (container : Container) (command : List Text)
      → Makes
          (λ _ calls. calls ≡ started (exec container command) ∷ [])
          (spawn (logged system) container command)
  unfolding spawn
  spawn_exec-Makes container command =
      Makes-bind (spawn-Makes system (exec container command))
        λ process first e. Makes-append_nil _ first _ e
