-- ===== src/Implementation/Configs.antt =====
-- The cases of `format_config` in packages/dns-test/src/implementation.rs.
use dnssec_tests.Base.{Bool, true, false, List, ◌≡◌, ◌⊎◌, inl, inr, refl}
use dnssec_tests.Text.{Text}
use dnssec_tests.Error.{ok, panic}
use dnssec_tests.Implementation.{Implementation, Config, supports_ede}
use dnssec_tests.Implementation.Templates.{Value, format_config}

-- Whether a configuration asks for extended DNS errors.
abbrev pub asks_ede : Config → Bool
asks_ede (Config.name_server _) = false
asks_ede (Config.resolver _ _ ede) = ede

-- A configuration is written if it does not ask for extended errors or the implementation supports
-- them, and in no other case: then the function panics.
pub format_config_cases :
    (render : Text → List (Text × Value) → Text) (implementation : Implementation) (config : Config)
    → ((supports_ede implementation ≡ true) ⊎ (asks_ede config ≡ false))
        × ((t : Text) × (format_config render implementation config ≡ ok t))
      ⊎ (supports_ede implementation ≡ false)
        × (asks_ede config ≡ true)
        × ((m : Text) × (format_config render implementation config ≡ panic m))
unfolding supports_ede format_config
format_config_cases render Implementation.bind (Config.name_server o) = inl (inr refl, (_, refl))
format_config_cases render Implementation.bind (Config.resolver d n true) =
    inr (refl, refl, (_, refl))
format_config_cases render Implementation.bind (Config.resolver d n false) =
    inl (inr refl, (_, refl))
format_config_cases render (Implementation.hickory r) (Config.name_server o) =
    inl (inl refl, (_, refl))
format_config_cases render (Implementation.hickory r) (Config.resolver d n e) =
    inl (inl refl, (_, refl))
format_config_cases render Implementation.unbound (Config.name_server o) = inl (inl refl, (_, refl))
format_config_cases render Implementation.unbound (Config.resolver d n e) =
    inl (inl refl, (_, refl))
