-- ===== src/Api/Subscription/Run.antt =====
-- The methods of `QuoteSubscription`, src/eltdx/api/subscription.py, on the subscription and the
-- outside's state. A callback may call `stop()` and no other method.
use eltdx.Base.{
  ℕ, zero, suc, ◌+◌, min, Bool, true, not, ◌&&◌, ◌||◌, List, [], ◌∷◌, ◌++◌, map, length, get_elem?,
  replicate, Option, none, some, Result, ok, err, value_error, index_error, ltb, if◌then◌else◌,
}
use mathlib.Core.List.{reverse}
use eltdx.Base.Int.{ℤ, pos, negsuc}
use eltdx.Base.Effect.{Effect, ◌>>=◌, ◌>>◌, pure, raise, modify, raise_when, attempt, finally}
use eltdx.Protocol.Text.{Text}
use eltdx.Api.Subscription.{
  Record, Reply, Call, GroupApi, own_api, leased_api, Outside, Subscription, set_at, cursor,
  remember,
}

abbrev pub State : Type 0 → Type 0
State W = Subscription × W

abbrev pub Method : Type 0 → Type 0 → Type 0
Method W A = Effect (State W) A

module _ {W : Type 0} where
  abbrev pub returned : {A : Type 0} → Subscription → Reply A × W → Result A × State W
  returned s (reply, w) = (reply.result, (record s { stopped = s.stopped || reply.stops }, w))

  -- A call of the outside, in which `stop()` may be called.
  unfoldable pub call : {A : Type 0} → Call W A → Method W A
  call f (s, w) = returned s (f w)

  unfoldable pub read : {A : Type 0} → (Subscription → A) → Method W A
  read f (s, w) = (ok (f s), (s, w))

  unfoldable pub update : (Subscription → Subscription) → Method W (Unit {0})
  update f (s, w) = (ok tt, (f s, w))

  unfoldable pub lift : {A : Type 0} → Result A → Method W A
  lift r s = (r, s)

abbrev pub elem_at : {A : Type 0} → ℕ → List A → Result A
elem_at i xs = elim (get_elem? xs i) [ none ↦ err index_error | some a ↦ ok a ]

-- `stop()`
abbrev pub stop : Subscription → Subscription
stop s = record s { stopped = true }

abbrev pub released : Subscription → Subscription
released s = record s { group_apis = []; next_renew = []; pin_stack = [] }

abbrev pub refreshed : List Record → Subscription → Subscription
refreshed records s = record s { cursors = remember records s.cursors }

abbrev pub least : List (Option ℕ) → Option ℕ
least [] = none
least (none ∷ dues) = least dues
least (some due ∷ dues) = elim (least dues) [ none ↦ some due | some t ↦ some (min due t) ]

-- `until if timeout is None else min(timeout, until)`
abbrev pub at_most : Option ℕ → ℕ → Option ℕ
at_most none until = some until
at_most (some timeout) until = some (min timeout until)

abbrev pub cursors_of : List Text → Subscription → List (Text × ℕ)
cursors_of group s = map (λ code. (code, cursor s.cursors code)) group

abbrev pub pinned : List ℕ → Subscription → Subscription
pinned leases s = record s { pin_stack = leases; group_apis = map leased_api (reverse leases) }

abbrev pub armed : Subscription → Subscription
armed s = record s { next_renew = replicate (length s.groups) none }

abbrev pub due_at : ℕ → Subscription → Option ℕ
due_at index s = elim (get_elem? s.next_renew index) [ none ↦ none | some due ↦ due ]

abbrev pub frame_records : Option (List Record) → List Record
frame_records none = []
frame_records (some records) = records

abbrev pub chosen_timeout : Option ℤ → Subscription → Result (Option ℕ)
chosen_timeout none s = ok s.timeout
chosen_timeout (some (pos n)) s = ok (some n)
chosen_timeout (some (negsuc n)) s = err value_error

module _ {W : Type 0} (out : Outside W) where
  -- `time.monotonic()`
  unfoldable pub clock : Method W ℕ
  clock (s, w) = let r = out.monotonic w in (ok r.0, (s, r.1))

  abbrev pub renew_in : Option ℕ → ℕ → State W → State W
  renew_in none index (s, w) = (record s { next_renew = set_at index none s.next_renew }, w)
  renew_in (some interval) index (s, w) =
      let r = out.monotonic w in
      (record s { next_renew = set_at index (some (r.0 + interval)) s.next_renew }, r.1)

  abbrev pub renew_at : ℕ → State W → State W
  renew_at index st = renew_in st.0.reactivate_interval index st

  -- `_refresh_group`, by the records of the page
  unfoldable pub refresh_group : ℕ → Method W (List Record)
  refresh_group index = do
    group ← read (λ s. s.groups)
    codes ← lift (elem_at index group)
    finally (renew_at index) (do
      apis ← read (λ s. s.group_apis)
      api ← lift (elem_at index apis)
      known ← read (cursors_of codes)
      records ← call (out.refresh api codes known)
      update (refreshed records)
      pure records)

  abbrev pub unpin_all : List ℕ → W → W
  unpin_all [] w = w
  unpin_all (lease ∷ leases) w = unpin_all leases (out.unpin lease w)

  -- `_release_connections`
  abbrev pub release_connections : State W → State W
  release_connections (s, w) = (released s, unpin_all s.pin_stack w)

  -- `close()`
  abbrev pub close : State W → State W
  close (s, w) = release_connections (stop s, w)

  -- `[stack.enter_context(pin()) for _ in groups]`; a lease that fails gives the others back
  unfoldable pub pin_all : List (List Text) → List ℕ → Method W (List ℕ)
  pin_all [] leases = pure leases
  pin_all (group ∷ groups) leases = do
    r ← attempt (call out.pin)
    elim r [
      | ok lease ↦ pin_all groups (lease ∷ leases)
      | err e ↦ do modify (λ st. (st.0, unpin_all leases st.1)); raise e
    ]

  abbrev pub too_many : List (List Text) → Bool
  too_many groups = ltb out.pool_size (length groups) || (ltb 1 (length groups) && not out.has_pin)

  unfoldable pub connect_groups : List (List Text) → Method W (Unit {0})
  connect_groups groups = do
    raise_when (too_many groups) value_error
    if out.has_pin
        then (do
          codes ← read (λ s. s.codes)
          call (out.load_prices codes)
          leases ← pin_all groups []
          update (pinned leases))
        else update (λ s. record s { group_apis = own_api ∷ [] })
    update armed

  -- `if self._group_apis: return`
  unfoldable pub connect_once : List GroupApi → List (List Text) → Method W (Unit {0})
  connect_once [] groups = connect_groups groups
  connect_once (_ ∷ _) groups = pure tt

  -- `_prepare_connections`
  unfoldable pub prepare_connections : Method W (Unit {0})
  prepare_connections = do
    apis ← read (λ s. s.group_apis)
    groups ← read (λ s. s.groups)
    connect_once apis groups

  unfoldable pub refresh_all : ℕ → ℕ → Method W (List Record)
  refresh_all zero index = pure []
  refresh_all (suc left) index = do
    records ← refresh_group index
    more ← refresh_all left (suc index)
    pure (records ++ more)

  -- `activate`, by the records of the joined pages
  unfoldable pub activate : Method W (List Record)
  activate = do
    prepare_connections
    groups ← read (λ s. s.groups)
    r ← attempt (refresh_all (length groups) 0)
    elim r [ ok records ↦ pure records | err e ↦ do modify release_connections; raise e ]
