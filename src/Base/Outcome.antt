-- ===== src/Base/Outcome.antt =====
-- Exceptions as values. One constructor for each exception type that the modelled code raises;
-- messages are left out.
use mathlib.Core.Path.{◌≡◌, refl}
use mathlib.Core.Logic.{◌⊎◌, inl, inr}
use mathlib.Core.Bool.{Bool, true, false}

pub data Error : Type 0 where
  -- `eltdx.exceptions`
  protocol_error transport_error connection_closed response_timeout resource_format_error : Error
  -- Python's own
  value_error type_error runtime_error index_error struct_error file_not_found os_error
        socket_timeout :
      Error
  -- `zlib.error`, and `DecompressLimitError` of protocol/decompress.py
  zlib_error decompress_limit : Error
  -- no exception of Python: a loop of the model ran out of fuel
  out_of_fuel : Error
  -- what a caller's own code raises
  user_error : Error

-- `isinstance(e, OSError)`: a timeout of a socket is one.
abbrev pub is_os_error : Error → Bool
is_os_error os_error = true
is_os_error socket_timeout = true
is_os_error file_not_found = true
is_os_error _ = false

-- `isinstance(e, TransportError)`
abbrev pub is_transport_error : Error → Bool
is_transport_error transport_error = true
is_transport_error connection_closed = true
is_transport_error response_timeout = true
is_transport_error _ = false

-- `isinstance(e, EltdxError)`
abbrev pub is_eltdx_error : Error → Bool
is_eltdx_error protocol_error = true
is_eltdx_error resource_format_error = true
is_eltdx_error e = is_transport_error e

pub data Result {ℓ} (A : Type ℓ) : Type ℓ where
  ok : A → Result A
  err : Error → Result A

infixl 5 ◌>>=◌ ◌>>◌
abbrev pub ◌>>=◌ {ℓ κ} : {A : Type ℓ} {B : Type κ} → Result A → (A → Result B) → Result B
ok value >>= next = next value
err e >>= next = err e

abbrev pub ◌>>◌ {ℓ} : {B : Type ℓ} → Result (Unit {0}) → Result B → Result B
m >> k = m >>= λ _. k

-- `if c: raise e`
abbrev pub raise_if : Bool → Error → Result (Unit {0})
raise_if true e = err e
raise_if false e = ok tt

-- A bind that succeeds came from two calls that succeed.
pub >>=-eq-ok {ℓ κ} :
    {B : Type κ} {A : Type ℓ} (first : Result A) (next : A → Result B) {result : B}
    → (first >>= next) ≡ ok result
    → (value : A) × (first ≡ ok value) × (next value ≡ ok result)
>>=-eq-ok (ok value) next done = (value, refl, done)
>>=-eq-ok (err e) next done = cc

-- A bind goes on in the same way after the same result.
pub bind-cong {ℓ κ} :
    {A : Type ℓ} {B : Type κ} (m : Result A) {f g : A → Result B}
    → ((a : A) → f a ≡ g a)
    → (m >>= f) ≡ (m >>= g)
bind-cong (ok a) h = h a
bind-cong (err e) h = refl

pub Result-cases {ℓ} :
    {A : Type ℓ} (r : Result A) → ((a : A) × (r ≡ ok a)) ⊎ ((e : Error) × (r ≡ err e))
Result-cases (ok a) = inl (a, refl)
Result-cases (err e) = inr (e, refl)
