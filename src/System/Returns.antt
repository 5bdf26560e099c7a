-- ===== src/System/Returns.antt =====
-- What a computation over the operating system returns, if it returns.
use dnssec_tests.Base.{Bool, true, false, if◌then◌else◌, ◌≡◌, refl, ap}
use dnssec_tests.Error.{Result, ok, err, panic, Ensures}
use dnssec_tests.System.{State, Io, and_then, ◌>>=◌, lift}

pub and_then-cong :
    {World A B : Type 0} (f g : A → Io World B)
    → ((a : A) (state : State World) → f a state ≡ g a state)
    → (p : Result A × State World) → and_then f p ≡ and_then g p
and_then-cong f g h (ok a, state) = h a state
and_then-cong f g h (err e, state) = refl
and_then-cong f g h (panic m, state) = refl

-- Whatever value it returns, from whatever state, satisfies `P`.
pub record Returns {World A : Type 0} (P : A → Type 0) (io : Io World A) : Type 0 where
  pub holds : (state state' : State World) (a : A) → io state ≡ (ok a, state') → P a

pub and_then-eq-ok :
    {World A B : Type 0} (next : A → Io World B) (p : Result A × State World) (state' : State World)
    (b : B)
    → and_then next p ≡ (ok b, state')
    → (a : A) × (state : State World) × (p ≡ (ok a, state)) × (next a state ≡ (ok b, state'))
and_then-eq-ok next (ok a, state) state' b e = (a, state, refl, e)
and_then-eq-ok next (err error, state) state' b e = cc
and_then-eq-ok next (panic text, state) state' b e = cc

pub Returns-bind :
    {World A B : Type 0} {P : A → Type 0} {Q : B → Type 0} {io : Io World A} {next : A → Io World B}
    → Returns P io
    → ((a : A) → P a → Returns Q (next a))
    → Returns Q (io >>= next)
unfolding ◌>>=◌
Returns-bind {io} {next} h k = record {
  holds = λ state state' b e.
      let (a, middle, ea, eb) = and_then-eq-ok next (io state) state' b e in
      (k a (h.holds state middle a ea)).holds middle state' b eb;
}

-- Nothing is known of the value.
pub Returns-any : {World A : Type 0} (io : Io World A) → Returns (λ _. Unit {0}) io
Returns-any io = record { holds = λ state state' a e. tt }

pub Returns-lift :
    {World A : Type 0} {P : A → Type 0} {r : Result A}
    → Ensures P r
    → Returns {World = World} P (lift r)
Returns-lift {r} h = record { holds = λ state state' a e. h.holds a (ap (λ p. p.0) e) }

-- The first value does not matter.
pub Returns-then :
    {World A B : Type 0} {Q : B → Type 0} (io : Io World A) {next : A → Io World B}
    → ((a : A) → Returns Q (next a))
    → Returns Q (io >>= next)
Returns-then io k = Returns-bind (Returns-any io) λ a _. k a

-- Both branches return such a value.
pub Returns-if :
    {World A : Type 0} {P : A → Type 0} {io jo : Io World A} (b : Bool)
    → Returns P io
    → Returns P jo
    → Returns P (if b then io else jo)
Returns-if true h k = h
Returns-if false h k = k

pub Returns-map :
    {World A : Type 0} {P Q : A → Type 0} {io : Io World A}
    → ((a : A) → P a → Q a)
    → Returns P io
    → Returns Q io
Returns-map f h = record { holds = λ state state' a e. f a (h.holds state state' a e) }

-- The value is that of a run.
pub Returns-run :
    {World A : Type 0} (io : Io World A)
    → Returns (λ a. (before after : State World) × (io before ≡ (ok a, after))) io
Returns-run io = record { holds = λ state state' a e. (state, state', e) }

pub Returns-both :
    {World A : Type 0} {P Q : A → Type 0} {io : Io World A}
    → Returns P io
    → Returns Q io
    → Returns (λ a. P a × Q a) io
Returns-both h k = record {
  holds = λ state state' a e. (h.holds state state' a e, k.holds state state' a e);
}

-- A result is what it returns.
pub lift-eq-ok :
    {World A : Type 0} (r : Result A) → Returns {World = World} (λ a. r ≡ ok a) (lift r)
lift-eq-ok r = Returns-lift (record { holds = λ a e. e })
