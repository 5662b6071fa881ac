-- ===== src/Api/Subscription.antt =====
-- `QuoteSubscription` of src/eltdx/api/subscription.py. Times are ticks of one clock; what the
-- object calls (the API's `refresh` and `poll_push`, the pool's `pin`, the callbacks, the clock) is
-- a record of functions on a state `W` of their own.
pub mod Run
pub mod Rounds
pub mod Keeps
pub mod Quiet
pub mod Loop
pub mod Codes
pub mod Cursors
pub mod Dispatch
pub mod Deadline
pub mod Leases
use eltdx.Base.{
  ℕ, zero, suc, ◌+◌, ◌-◌, min, Bool, true, false, not, ◌&&◌, ◌||◌, List, [], ◌∷◌, ◌++◌, map, length,
  get_elem?, take, drop, Option, none, some, Result, ok, err, ◌>>=◌, raise_if, value_error, ltb,
  leb, ◌==◌, if◌then◌else◌, Error,
}
use eltdx.Base.Slices.{slices}
use eltdx.Base.Int.{ℤ, pos, negsuc}
use eltdx.Protocol.Text.{Text, text_eq, member, strip}
use eltdx.Protocol.Code.{normalize_code}

-- A record of a page: a `QuoteRefreshRecord` by its full code and its `update_time_raw`, or one of
-- another type.
pub data Record : Type 0 where
  refresh_record : Text → ℕ → Record
  other_record : Record

-- What a call gives, and whether `stop()` was called before it came back.
pub record Reply (A : Type 0) : Type 0 where
  pub result : Result A
  pub stops : Bool

abbrev pub Call : Type 0 → Type 0 → Type 0
Call W A = W → Reply A × W

-- The API that a group uses: the caller's own, or one on a connection that `pin()` leased.
pub data GroupApi : Type 0 where
  own_api : GroupApi
  leased_api : ℕ → GroupApi

pub record Outside (W : Type 0) : Type 0 where
  -- `api.refresh(codes, cursors=...)`, by the records of its page
  pub refresh : GroupApi → List Text → List (Text × ℕ) → Call W (List Record)
  -- `api.poll_push(timeout=..., parse=True)`
  pub poll_push : Option ℕ → Call W (Option (List Record))
  pub callback : Record → Call W (Unit {0})
  pub on_error : Option (Error → Call W (Unit {0}))
  -- the price resolver, called with the codes
  pub load_prices : List Text → Call W (Unit {0})
  -- the transport: `pool_size`, whether it has `pin`, entering a lease and leaving it
  pub pool_size : ℕ
  pub has_pin : Bool
  pub pin : Call W ℕ
  pub unpin : ℕ → W → W
  pub monotonic : W → ℕ × W

pub record Subscription : Type 0 where
  pub codes : List Text
  pub groups : List (List Text)
  pub cursors : List (Text × ℕ)
  pub timeout : Option ℕ
  pub filter_codes : Bool
  pub reactivate_interval : Option ℕ
  pub stopped : Bool
  pub frames : ℕ
  pub dispatched : ℕ
  pub group_apis : List GroupApi
  pub next_renew : List (Option ℕ)
  -- the leases of `_pin_stack`, the last one first
  pub pin_stack : List ℕ

-- One round of the loop: a text that is not empty is `seen.setdefault(normalize_code(text), None)`.
unfoldable pub set_default : List Text → Text → Result (List Text)
set_default seen [] = ok seen
set_default seen (c ∷ cs) = do
  full ← normalize_code (c ∷ cs)
  ok (if member full seen then seen else seen ++ full ∷ [])

unfoldable pub collect_codes : List Text → List Text → Result (List Text)
collect_codes seen [] = ok seen
collect_codes seen (code ∷ rest) = do
  seen' ← set_default seen (strip code)
  collect_codes seen' rest

abbrev pub not_empty : Result (List Text) → Result (List Text)
not_empty (ok []) = err value_error
not_empty r = r

-- `_normalize_codes`, of a sequence
unfoldable pub normalize_codes : List Text → Result (List Text)
unfolding collect_codes
normalize_codes given = not_empty (collect_codes [] given)

abbrev pub group_size : ℕ
group_size = 100

-- `self._codes[i:i + 100] for i in range(0, len(self._codes), 100)`
abbrev pub groups_of : List Text → List (List Text)
groups_of full = slices group_size (length full) full

abbrev pub is_negative : Option ℤ → Bool
is_negative (some (negsuc n)) = true
is_negative _ = false

abbrev pub is_not_positive : Option ℤ → Bool
is_not_positive (some (negsuc n)) = true
is_not_positive (some (pos n)) = n == 0
is_not_positive none = false

abbrev pub ticks : Option ℤ → Option ℕ
ticks (some (pos n)) = some n
ticks _ = none

abbrev pub new_subscription : List Text → Option ℕ → Bool → Option ℕ → Subscription
new_subscription full timeout filter_codes interval = record {
  codes = full;
  groups = groups_of full;
  cursors = map (λ code. (code, 0)) full;
  timeout = timeout;
  filter_codes = filter_codes;
  reactivate_interval = interval;
  stopped = false;
  frames = 0;
  dispatched = 0;
  group_apis = [];
  next_renew = [];
  pin_stack = [];
}

-- `__init__`, of a callable callback
unfoldable pub subscribe : List Text → Option ℤ → Bool → Option ℤ → Result Subscription
unfolding normalize_codes
subscribe given timeout filter_codes interval =
    if is_negative timeout || is_not_positive interval
    then err value_error
    else elim (normalize_codes given) [
      | err e ↦ err e
      | ok full ↦ ok (new_subscription full (ticks timeout) filter_codes (ticks interval))
    ]

-- `self._cursors[code] = value`, of a code that is a key
abbrev pub set_cursor : Text → ℕ → List (Text × ℕ) → List (Text × ℕ)
set_cursor code value [] = []
set_cursor code value ((key, old) ∷ rest) =
    let others = set_cursor code value rest in
    if text_eq code key then (key, value) ∷ rest else (key, old) ∷ others

-- `_remember`
abbrev pub remember : List Record → List (Text × ℕ) → List (Text × ℕ)
remember [] cursors = cursors
remember (refresh_record code time ∷ records) cursors =
    remember records (set_cursor code time cursors)
remember (other_record ∷ records) cursors = remember records cursors

-- `self._cursors[code]`, of a code that is a key
abbrev pub cursor : List (Text × ℕ) → Text → ℕ
cursor [] code = 0
cursor ((key, value) ∷ rest) code =
    let others = cursor rest code in if text_eq code key then value else others

-- Whether `_dispatch` hands a record to the callback, by `filter_codes` and the codes.
abbrev pub wants : Bool → List Text → Record → Bool
wants filter_codes full other_record = false
wants filter_codes full (refresh_record code time) = not (filter_codes && not (member code full))

abbrev pub is_wanted : Subscription → Record → Bool
is_wanted s r = wants s.filter_codes s.codes r

abbrev pub set_at {ℓ} : {A : Type ℓ} → ℕ → A → List A → List A
set_at i a [] = []
set_at zero a (x ∷ xs) = a ∷ xs
set_at (suc i) a (x ∷ xs) = x ∷ set_at i a xs
