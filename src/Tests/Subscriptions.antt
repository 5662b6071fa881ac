-- ===== src/Tests/Subscriptions.antt =====
-- Runs of the theorems on subscriptions, with a pool of two connections, a clock of ticks and a
-- queue of frames.
use eltdx.Base.{
  ℕ, zero, suc, ◌-◌, ◌<◌, ◌≡◌, refl, true, false, List, [], ◌∷◌, ◌++◌, Option, none, some, ok, err,
  Error, arith, response_timeout,
}
use eltdx.Base.Int.{pos}
use eltdx.Protocol.Text.{Text, codes, in_ranges}
use eltdx.Protocol.Code.{normalize_code, normalize_text, infer_market}
use eltdx.Api.Subscription.{
  Record, refresh_record, other_record, Reply, Outside, Subscription, new_subscription, subscribe,
  remember, cursor, normalize_codes, collect_codes, set_default,
}
use eltdx.Api.Subscription.Rounds.{dispatch}
use eltdx.Api.Subscription.Loop.{run}
use eltdx.Api.Subscription.Codes.{IsGrouped, subscribe-IsGrouped}
use eltdx.Api.Subscription.Cursors.{cursor-remember}
use eltdx.Api.Subscription.Quiet.{Quiet}
use eltdx.Api.Subscription.Dispatch.{
  CallbackLog, LeavesLogged, run-LeavesLogged, Dispatched, wanted_of, dispatch-Dispatched,
}
use eltdx.Api.Subscription.Leases.{LeaseLaws}
use eltdx.Api.Subscription.Leases.Balance.{LeavesReleased, run-LeavesReleased}
use eltdx.Api.Subscription.Deadline.{ClockLaws}
use eltdx.Api.Subscription.Deadline.End.{HasEnded, run-HasEnded}

record World : Type 0 where
  time : ℕ
  held : ℕ
  called : List Record
  frames : List (List Record)

abbrev gives : {A : Type 0} → A → Reply A
gives a = record { result = ok a; stops = false }

abbrev tick : World → World
tick w = record w { time = suc w.time }

abbrev poll : List (List Record) → World → Reply (Option (List Record)) × World
poll [] w = (gives none, tick w)
poll (frame ∷ frames) w = (gives (some frame), tick (record w { frames = frames }))

-- The pool lends two connections, and a third request times out.
abbrev lend : ℕ → World → Reply ℕ × World
lend (suc (suc n)) w = (record { result = err response_timeout; stops = false }, w)
lend n w = (gives n, record w { held = suc n })

abbrev sh600000 : Text
sh600000 = codes "sh600000"

abbrev sz000001 : Text
sz000001 = codes "sz000001"

abbrev sz000002 : Text
sz000002 = codes "sz000002"

abbrev snapshot : List Record
snapshot = refresh_record sh600000 93000 ∷ refresh_record sz000002 93001 ∷ other_record ∷ []

abbrev outside : Outside World
outside = record {
  refresh = λ api full known w. (gives snapshot, w);
  poll_push = λ timeout w. poll w.frames w;
  callback = λ r w. (gives tt, record w { called = w.called ++ r ∷ [] });
  on_error = none;
  load_prices = λ full w. (gives tt, w);
  pool_size = 2;
  has_pin = true;
  pin = λ w. lend w.held w;
  unpin = λ lease w. record w { held = w.held - 1 };
  monotonic = λ w. (w.time, w);
}

abbrev world : World
world = record {
  time = 50;
  held = 0;
  called = [];
  frames = (refresh_record sz000001 93500 ∷ refresh_record sz000002 93501 ∷ []) ∷ [];
}

abbrev given : List Text
given = codes " sh600000" ∷ codes "" ∷ codes "000001" ∷ codes "SH600000" ∷ []

abbrev full : List Text
full = sh600000 ∷ sz000001 ∷ []

abbrev sub : Subscription
sub = new_subscription full (some 5) true (some 7)

subscribed : subscribe given (some (pos 5)) true (some (pos 7)) ≡ ok sub
unfolding subscribe normalize_codes collect_codes set_default normalize_code normalize_text
    infer_market in_ranges
subscribed = refl

subscribe-IsGrouped_example : IsGrouped sub
subscribe-IsGrouped_example =
    subscribe-IsGrouped given (some (pos 5)) true (some (pos 7)) sub subscribed

cursor-remember_example : cursor (remember snapshot sub.cursors) sh600000 ≡ 93000
cursor-remember_example = cursor-remember snapshot sub.cursors sh600000 refl

log-Quiet : Quiet outside (λ w. w.called)
log-Quiet = record {
  refresh_quiet = λ api known_codes known w. refl;
  poll_quiet = λ timeout w. polled w.frames w;
  error_quiet = λ g e w is_set. absurd (ground (arith, is_set));
  load_quiet = λ known_codes w. refl;
  clock_quiet = λ w. refl;
}
  where
    polled : (frames : List (List Record)) (w : World) → (poll frames w).1.called ≡ w.called
    polled [] w = refl
    polled (f ∷ fs) w = refl

log : CallbackLog outside (λ w. w.called)
log = record {
  callback_logs = λ r w. refl;
  calls_quiet = record {
    rounds_quiet = log-Quiet;
    pin_quiet = λ w. lent w.held w;
    unpin_quiet = λ lease w. refl;
  };
}
  where
    lent : (n : ℕ) (w : World) → (lend n w).1.called ≡ w.called
    lent zero w = refl
    lent (suc zero) w = refl
    lent (suc (suc n)) w = refl

run-LeavesLogged_example :
    LeavesLogged
      (λ w. w.called)
      true
      full
      (run outside 4 (some 2) none (new_subscription full (some 5) true (some 7), world))
run-LeavesLogged_example =
    run-LeavesLogged log full (some 5) true (some 7) 4 (some 2) none world refl

dispatch-Dispatched_example :
    Dispatched
      (λ w. w.called)
      sub
      world
      (wanted_of true full snapshot)
      (dispatch outside snapshot (sub, world))
dispatch-Dispatched_example = dispatch-Dispatched log (λ r w. refl) snapshot sub world

leases : LeaseLaws outside (λ w. w.held)
leases = record {
  pin_takes = λ w lease taken. takes w.held w lease taken;
  pin_fails = λ w e failed. fails w.held w e failed;
  unpin_gives = λ lease w. refl;
  callback_neutral = λ r w. refl;
  calls_neutral = record {
    refresh_quiet = λ api known_codes known w. refl;
    poll_quiet = λ timeout w. polled w.frames w;
    error_quiet = λ g e w is_set. absurd (ground (arith, is_set));
    load_quiet = λ known_codes w. refl;
    clock_quiet = λ w. refl;
  };
}
  where
    polled : (frames : List (List Record)) (w : World) → (poll frames w).1.held ≡ w.held
    polled [] w = refl
    polled (f ∷ fs) w = refl

    takes :
        (n : ℕ) (w : World) (lease : ℕ) → (lend n w).0.result ≡ ok lease → (lend n w).1.held ≡ suc n
    takes zero w lease h = refl
    takes (suc zero) w lease h = refl
    takes (suc (suc n)) w lease h = absurd (ground (arith, h))

    fails :
        (n : ℕ) (w : World) (e : Error) → (lend n w).0.result ≡ err e → (lend n w).1.held ≡ w.held
    fails zero w e h = absurd (ground (arith, h))
    fails (suc zero) w e h = absurd (ground (arith, h))
    fails (suc (suc n)) w e h = refl

run-LeavesReleased_example :
    LeavesReleased (λ w. w.held) 0 (run outside 4 (some 2) none (sub, world))
run-LeavesReleased_example = run-LeavesReleased leases 4 (some 2) none sub world refl refl

clock_laws : ClockLaws outside (λ w. w.time)
clock_laws = record {
  clock_reads = λ w. refl;
  clock_later = λ w. omega arith;
  refresh_later = λ api known_codes known w. omega arith;
  poll_later = λ timeout w. polled w.frames w;
  callback_later = λ r w. omega arith;
  error_later = λ g e w is_set. absurd (ground (arith, is_set));
}
  where
    polled : (frames : List (List Record)) (w : World) → w.time < (poll frames w).1.time
    polled [] w = omega arith
    polled (f ∷ fs) w = omega arith

run-HasEnded_example : HasEnded (run outside 3 (some 2) none (sub, world))
run-HasEnded_example = run-HasEnded clock_laws 2 none (sub, world)
