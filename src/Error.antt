-- ===== src/Error.antt =====
-- `Error` and `Result` of packages/dns-test/src/lib.rs: what a fallible function returns, with a
-- third outcome for the panics of `unwrap`, `assert!` and `todo!`.
use dnssec_tests.Base.{Option, none, some, ◌≡◌, refl, subst}
use dnssec_tests.Text.{Text}

-- `core::num::IntErrorKind`, as far as unsigned integers have them.
pub data IntErrorKind : Type 0 where
  empty invalid_digit pos_overflow : IntErrorKind

-- `Box<dyn Error>`: a message of the source, or an error of the standard library.
pub data Error : Type 0 where
  message : Text → Error
  parse_int : IntErrorKind → Error
  addr_parse : Error

pub data Result {ℓ} (T : Type ℓ) : Type ℓ where
  ok : T → Result T
  err : Error → Result T
  panic : Text → Result T

infixl 5 ◌>>=◌ ◌>>◌
abbrev pub ◌>>=◌ {ℓ κ} : {T : Type ℓ} {U : Type κ} (m : Result T) (next : T → Result U) → Result U
panic text >>= next = panic text
err error >>= next = err error
ok value >>= next = next value

abbrev pub ◌>>◌ {ℓ} : {U : Type ℓ} (check : Result (Unit {0})) (next : Result U) → Result U
check >> next = check >>= λ _. next

-- `Option::ok_or`.
abbrev pub ok_or {ℓ} : {A : Type ℓ} → Error → Option A → Result A
ok_or e none = err e
ok_or e (some a) = ok a

-- A successful chain has a successful first part.
pub bind-eq-ok {ℓ κ} :
    {T : Type ℓ} {U : Type κ} (m : Result T) (next : T → Result U) {u : U}
    → (m >>= next) ≡ ok u
    → (t : T) × (m ≡ ok t) × (next t ≡ ok u)
bind-eq-ok (panic text) next chain = cc
bind-eq-ok (err error) next chain = cc
bind-eq-ok (ok value) next chain = (value, refl, chain)

-- Whatever the result is, if there is one, it satisfies `P`.
pub record Ensures {ℓ} {A : Type ℓ} (P : A → Type 0) (r : Result A) : Type ℓ where
  pub holds : (a : A) → r ≡ ok a → P a

pub Ensures-bind {ℓ κ} :
    {A : Type ℓ} {B : Type κ} {P : A → Type 0} {Q : B → Type 0} {m : Result A} {f : A → Result B}
    → Ensures P m
    → ((a : A) → P a → Ensures Q (f a))
    → Ensures Q (m >>= f)
Ensures-bind {m} {f} h k = record {
  holds = λ b e. let (a, ea, ef) = bind-eq-ok m f e in (k a (h.holds a ea)).holds b ef;
}

pub Ensures-ok {ℓ} : {A : Type ℓ} {P : A → Type 0} (a : A) → P a → Ensures P (ok a)
Ensures-ok {P} a h = record { holds = λ b e. subst P (cc) h }

pub Ensures-err {ℓ} : {A : Type ℓ} {P : A → Type 0} (e : Error) → Ensures P (err e)
Ensures-err e = record { holds = λ a h. cc }

pub Ensures-panic {ℓ} : {A : Type ℓ} {P : A → Type 0} (s : Text) → Ensures P (panic s)
Ensures-panic s = record { holds = λ a h. cc }

pub Ensures-check {ℓ} :
    {B : Type ℓ} {Q : B → Type 0} (m : Result (Unit {0})) {r : Result B}
    → Ensures Q r
    → Ensures Q (m >> r)
Ensures-check (ok u) h = h
Ensures-check (err e) h = Ensures-err e
Ensures-check (panic s) h = Ensures-panic s

pub Ensures-any {ℓ} : {A : Type ℓ} (m : Result A) → Ensures (λ _. Unit {0}) m
Ensures-any m = record { holds = λ a e. tt }

pub Ensures-both {ℓ} :
    {A : Type ℓ} {P Q : A → Type 0} {m : Result A}
    → Ensures P m
    → Ensures Q m
    → Ensures (λ a. P a × Q a) m
Ensures-both h k = record { holds = λ a e. (h.holds a e, k.holds a e) }

pub ok-eq {ℓ} : {A : Type ℓ} {a b : A} → ◌≡◌ {A = Result A} (ok a) (ok b) → a ≡ b
ok-eq e = cc
