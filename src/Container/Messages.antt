-- ===== src/Container/Messages.antt =====
-- The messages of failed commands in packages/dns-test/src/container.rs.
use dnssec_tests.Base.{ℕ, ◌==◌, ◌||◌, List, [], ◌∷◌, ◌++◌, if◌then◌else◌}
use dnssec_tests.Text.{Text, codes, format}

-- `Debug` of a character in a string, as far as the commands of the crate hold such characters.
abbrev escape : ℕ → Text
escape c =
    if c == 10
    then codes "\\n"
    else if c == 13
    then codes "\\r"
    else if c == 9
    then codes "\\t"
    else if (c == 34) || (c == 92)
    then codes "\\" ++ c ∷ []
    else c ∷ []

pub escaped : Text → Text
escaped [] = []
escaped (c ∷ s) = escape c ++ escaped s

pub quoted : Text → List Text → Text
unfolding escaped
quoted separator [] = []
quoted separator (w ∷ []) = codes "\"" ++ (escaped w ++ codes "\"")
quoted separator (w ∷ v ∷ ws) =
    codes "\"" ++ (escaped w ++ (codes "\"" ++ (separator ++ quoted separator (v ∷ ws))))

-- `format!("[{}] `{command_and_args:?}` failed", name)` and `format!("`{command:?}` failed")`.
unfoldable pub failed : Text → List Text → Text
unfolding quoted
failed name command_and_args = format (
    codes "[" ∷ name ∷ codes "] `[" ∷ quoted (codes ", ") command_and_args ∷ codes "]` failed" ∷ [])

unfoldable pub command_failed : List Text → Text
unfolding quoted
command_failed command = format (codes "`" ∷ quoted (codes " ") command ∷ codes "` failed" ∷ [])

-- `format!("{command:?} failed")`.
unfoldable pub network_failed : List Text → Text
unfolding quoted
network_failed command = quoted (codes " ") command ++ codes " failed"

abbrev pub panicked : Text → Text → Text
panicked stdout stderr =
    format (codes "--- STDOUT ---\n" ∷ stdout ∷ codes "\n--- STDERR ---\n" ∷ stderr ∷ [])
