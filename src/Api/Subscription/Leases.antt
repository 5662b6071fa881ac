-- ===== src/Api/Subscription/Leases.antt =====
-- The leases of a subscription are given back, on every path.
pub mod Balance
use eltdx.Base.{
  ℕ, zero, suc, ◌+◌, ◌-◌, ◌≡◌, refl, sym, ap, ◌∙◌, Bool, true, false, ◌||◌, List, [], ◌∷◌, length,
  map, Option, none, some, Result, ok, err, Error, arith, length-map, length-reverse, Result-cases,
  inl, inr, Bool-cases, ltb, not, ◌&&◌, value_error, if◌then◌else◌,
}
use mathlib.Core.List.{reverse}
use eltdx.Base.Int.{ℤ}
use eltdx.Base.Effect.{
  Effect, Keeps, ◌>>=◌, ◌>>◌, pure, raise, attempt, modify, raise_when, and_then, bind-Keeps,
  then-Keeps, raise_when-Keeps, modify-Keeps, if-Keeps, pure-Keeps,
}
use eltdx.Protocol.Text.{Text}
use eltdx.Api.Subscription.{Subscription, Outside, Record, GroupApi, own_api, leased_api, Call}
use eltdx.Api.Subscription.Run.{
  State, Method, call, read, update, clock, pin_all, unpin_all, pinned, armed, connect_groups,
  prepare_connections, release_connections, renew_at, released, refreshed, returned, too_many,
}
use eltdx.Api.Subscription.Keeps.{Stable, read-Keeps}
use eltdx.Api.Subscription.Keeps.Ends.{RunStable}
use eltdx.Api.Subscription.Quiet.{Quiet, Reads}

-- How many connections of the pool are leased: `pin()` takes one, leaving the lease gives one back,
-- and no other call of the subscription changes their number.
pub record LeaseLaws {W : Type 0} (out : Outside W) (held : W → ℕ) : Type 0 where
  pub pin_takes :
      (w : W) (lease : ℕ) → (out.pin w).0.result ≡ ok lease → held ((out.pin w).1) ≡ suc (held w)
  pub pin_fails : (w : W) (e : Error) → (out.pin w).0.result ≡ err e → held ((out.pin w).1) ≡ held w
  pub unpin_gives : (lease : ℕ) (w : W) → held (out.unpin lease w) ≡ held w - 1
  pub callback_neutral : (r : Record) (w : W) → held ((out.callback r w).1) ≡ held w
  pub calls_neutral : Quiet out held

-- The leases that the pool counts, beside `base` others, are the ones on the stack.
abbrev pub Accounts : ℕ → Subscription → ℕ → Type 0
Accounts base s n = (n ≡ base + length s.pin_stack) × (s.group_apis ≡ [] → s.pin_stack ≡ [])

abbrev pub Balanced : {W : Type 0} → (W → ℕ) → ℕ → State W → Type 0
Balanced held base = Reads held (Accounts base)

module _ {W : Type 0} {out : Outside W} {held : W → ℕ} (laws : LeaseLaws out held) (base : ℕ) where
  pub unpin_all-held :
      (leases : List ℕ) (w : W)
      → held w ≡ base + length leases
      → held (unpin_all out leases w) ≡ base
  unpin_all-held [] w h = omega arith
  unpin_all-held (lease ∷ leases) w h =
      unpin_all-held leases (out.unpin lease w) (omega (arith, laws.unpin_gives lease w))

  -- What a loop that pins leaves: its leases or, after an error, none.
  abbrev pub Pinned : Subscription → Result (List ℕ) × State W → Type 0
  Pinned s0 (ok leases, (s, w)) =
      (s.pin_stack ≡ s0.pin_stack)
      × (s.group_apis ≡ s0.group_apis)
      × (held w ≡ base + length leases)
  Pinned s0 (err e, (s, w)) =
      (s.pin_stack ≡ s0.pin_stack) × (s.group_apis ≡ s0.group_apis) × (held w ≡ base)

  pub pin_all-Pinned :
      (s0 : Subscription) (groups : List (List Text)) (leases : List ℕ) (s : Subscription) (w : W)
      → s.pin_stack ≡ s0.pin_stack
      → s.group_apis ≡ s0.group_apis
      → held w ≡ base + length leases
      → Pinned s0 (pin_all out groups leases (s, w))
  unfolding pin_all pure ◌>>=◌ ◌>>◌ attempt call raise modify
  pin_all-Pinned s0 [] leases s w p g h = (p, g, h)
  pin_all-Pinned s0 (group ∷ groups) leases s w p g h = elim (Result-cases ((out.pin w).0.result)) [
    | inl (lease, taken) ↦ rw taken (
        pin_all-Pinned s0 groups (lease ∷ leases) _ _ p g
          (omega (arith, laws.pin_takes w lease taken)))
    | inr (e, failed) ↦
        rw failed (p, g, unpin_all-held leases _ (omega (arith, laws.pin_fails w e failed)))
  ]

  abbrev pub hold : List ℕ → Method W (Unit {0})
  hold leases = update (pinned leases)

  no_api : (leases : List ℕ) → map leased_api (reverse leases) ≡ [] → leases ≡ []
  no_api [] h = refl
  no_api (l ∷ ls) h = absurd (
      omega (arith, ap length h, length-map (reverse (l ∷ ls)) leased_api, length-reverse (l ∷ ls)))

  pub hold-Balanced :
      (s0 : Subscription) (r : Result (List ℕ) × State W)
      → s0.pin_stack ≡ []
      → Pinned s0 r
      → Balanced held base ((and_then r hold).1)
  unfolding update
  hold-Balanced s0 (ok leases, (s, w)) empty (p, g, h) = (h, no_api leases)
  hold-Balanced s0 (err e, (s, w)) empty (p, g, h) =
      let none_held : s.pin_stack ≡ [] = p ∙ empty in
      (h ∙ rw none_held (omega arith), λ _. none_held)
