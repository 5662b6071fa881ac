-- ===== src/Base/Effect.antt =====
-- Methods that change their object and may raise: state in, result and state out. What was changed
-- before a raise stays changed.

use mathlib.Core.Bool.{Bool, true, false}
use mathlib.Core.Option.{Option, none, some}
use eltdx.Base.Tests.{if◌then◌else◌}
use eltdx.Base.Outcome.{Error, Result, ok, err}

abbrev pub Effect : Type 0 → Type 0 → Type 0
Effect S A = S → Result A × S

abbrev pub and_then : {S A B : Type 0} → Result A × S → (A → Effect S B) → Result B × S
and_then (ok a, s) f = f a s
and_then (err e, s) f = (err e, s)

infixl 5 ◌>>=◌ ◌>>◌
unfoldable pub ◌>>=◌ : {S A B : Type 0} → Effect S A → (A → Effect S B) → Effect S B
◌>>=◌ m f s = and_then (m s) f

unfoldable pub ◌>>◌ : {S A B : Type 0} → Effect S A → Effect S B → Effect S B
m >> k = m >>= λ _. k

unfoldable pub pure : {S A : Type 0} → A → Effect S A
pure a s = (ok a, s)

unfoldable pub raise : {S A : Type 0} → Error → Effect S A
raise e s = (err e, s)

unfoldable pub modify : {S : Type 0} → (S → S) → Effect S (Unit {0})
modify f s = (ok tt, f s)

-- `raise` under an `if`
unfoldable pub raise_when : {S : Type 0} → Bool → Error → Effect S (Unit {0})
raise_when true e s = (err e, s)
raise_when false e s = (ok tt, s)

-- `try: m; except Exception as e: ...; else: ...`: the outcome as a value
unfoldable pub attempt : {S A : Type 0} → Effect S A → Effect S (Result A)
attempt m s = let r = m s in (ok r.0, r.1)

-- `try: m; finally: f`, where `f` does not raise
unfoldable pub finally : {S A : Type 0} → (S → S) → Effect S A → Effect S A
finally f m s = let r = m s in (r.0, f r.1)

-- A method keeps a property of the state, whether it raises or not.
pub record Keeps {ℓ} {S A : Type 0} (P : S → Type ℓ) (m : Effect S A) : Type ℓ where
  pub keeps : (s : S) → P s → P ((m s).1)

module _ {ℓ} {S : Type 0} {P : S → Type ℓ} where
  pub and_then-Keeps :
      {A B : Type 0} (r : Result A × S) (f : A → Effect S B)
      → P (r.1)
      → ((a : A) → Keeps P (f a))
      → P ((and_then r f).1)
  and_then-Keeps (ok a, s) f p k = (k a).keeps s p
  and_then-Keeps (err e, s) f p k = p

  pub bind-Keeps :
      {A B : Type 0} {m : Effect S A} {f : A → Effect S B}
      → Keeps P m
      → ((a : A) → Keeps P (f a))
      → Keeps P (m >>= f)
  unfolding ◌>>=◌
  bind-Keeps {m = m} {f = f} km kf = record {
    keeps = λ s p. and_then-Keeps (m s) f (km.keeps s p) kf;
  }

  pub then-Keeps :
      {A B : Type 0} {m : Effect S A} {k : Effect S B} → Keeps P m → Keeps P k → Keeps P (m >> k)
  unfolding ◌>>◌
  then-Keeps km kk = bind-Keeps km (λ _. kk)

  pub pure-Keeps : {A : Type 0} (a : A) → Keeps P (pure a)
  unfolding pure
  pure-Keeps a = record { keeps = λ s p. p }

  pub raise-Keeps : {A : Type 0} (e : Error) → Keeps {A = A} P (raise e)
  unfolding raise
  raise-Keeps e = record { keeps = λ s p. p }

  pub attempt-Keeps : {A : Type 0} {m : Effect S A} → Keeps P m → Keeps P (attempt m)
  unfolding attempt
  attempt-Keeps k = record { keeps = λ s p. k.keeps s p }

  pub finally-Keeps :
      {A : Type 0} {m : Effect S A} (f : S → S)
      → ((s : S) → P s → P (f s))
      → Keeps P m
      → Keeps P (finally f m)
  unfolding finally
  finally-Keeps f kf km = record { keeps = λ s p. kf _ (km.keeps s p) }

  pub raise_when-Keeps : (b : Bool) (e : Error) → Keeps P (raise_when b e)
  unfolding raise_when
  raise_when-Keeps true e = record { keeps = λ s p. p }
  raise_when-Keeps false e = record { keeps = λ s p. p }

  pub modify-Keeps : (f : S → S) → ((s : S) → P s → P (f s)) → Keeps P (modify f)
  unfolding modify
  modify-Keeps f k = record { keeps = k }

  pub if-Keeps :
      {A : Type 0} (b : Bool) {m n : Effect S A}
      → Keeps P m
      → Keeps P n
      → Keeps P (if b then m else n)
  if-Keeps true km kn = km
  if-Keeps false km kn = kn

  pub result-Keeps :
      {A B : Type 0} (r : Result A) {f : A → Effect S B} {g : Error → Effect S B}
      → ((a : A) → Keeps P (f a))
      → ((e : Error) → Keeps P (g e))
      → Keeps P (elim r [ ok a ↦ f a | err e ↦ g e ])
  result-Keeps (ok a) kf kg = kf a
  result-Keeps (err e) kf kg = kg e

  pub option-Keeps :
      {A B : Type 0} (o : Option A) {f : A → Effect S B} {g : Effect S B}
      → ((a : A) → Keeps P (f a))
      → Keeps P g
      → Keeps P (elim o [ some a ↦ f a | none ↦ g ])
  option-Keeps (some a) kf kg = kf a
  option-Keeps none kf kg = kg

-- The state that a call leaves, where it returns.
abbrev pub WhenOk {ℓ} : {S A : Type 0} → (S → Type ℓ) → Result A × S → Type ℓ
WhenOk Q (ok a, s) = Q s
WhenOk Q (err e, s) = Unit

-- From a state with the one property a method leads, where it returns, to one with the other.
pub record Leads {ℓ} {S A : Type 0} (P Q : S → Type ℓ) (m : Effect S A) : Type ℓ where
  pub leads : (s : S) → P s → WhenOk Q (m s)

module _ {ℓ} {S : Type 0} where
  when_ok : {A : Type 0} (Q : S → Type ℓ) (r : Result A × S) → Q (r.1) → WhenOk Q r
  when_ok Q (ok a, s) q = q
  when_ok Q (err e, s) q = tt

  pub Keeps-Leads :
      {A : Type 0} {P Q : S → Type ℓ} {m : Effect S A}
      → Keeps Q m
      → ((s : S) → P s → Q s)
      → Leads P Q m
  Keeps-Leads {m = m} k weaken = record { leads = λ s p. when_ok _ (m s) (k.keeps s (weaken s p)) }

module _ {ℓ} {S : Type 0} {Q R : S → Type ℓ} where
  and_then-Leads :
      {A B : Type 0} (r : Result A × S) (f : A → Effect S B)
      → WhenOk Q r
      → ((a : A) → Leads Q R (f a))
      → WhenOk R (and_then r f)
  and_then-Leads (ok a, s) f q k = (k a).leads s q
  and_then-Leads (err e, s) f q k = tt

  pub bind-Leads :
      {A B : Type 0} {P : S → Type ℓ} {m : Effect S A} {f : A → Effect S B}
      → Leads P Q m
      → ((a : A) → Leads Q R (f a))
      → Leads P R (m >>= f)
  unfolding ◌>>=◌
  bind-Leads {m = m} {f = f} lm lf = record {
    leads = λ s p. and_then-Leads (m s) f (lm.leads s p) lf;
  }
