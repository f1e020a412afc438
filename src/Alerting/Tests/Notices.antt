-- ===== src/Alerting/Tests/Notices.antt =====
-- Runs of the notifier.
use philotes.Common.{
  ℕ, ◌+◌, ◌≡◌, refl, true, false, none, some, List, [], ◌∷◌, length, Option, arith,
}
use philotes.Common.Errors.{plain, ok}
use philotes.Common.Int.{pos}
use philotes.Common.Maps.{put, lookup}
use philotes.Alerting.{fired_event, resolved_event}
use philotes.Alerting.Tests.{whole, rule, alert}
use philotes.Alerting.Notifier.{
  should_notify, NotificationChannel, AlertRoute, NotifierServices, Notifier, notify, notify_route,
  notify_key,
}
use philotes.Alerting.Notifier.Since.{NotifierCall, notifies, notifier_calls}
use philotes.Alerting.Notifier.Intervals.{repeat_interval-quiet}

abbrev channel : NotificationChannel
channel = record { id = "c"; name = "ops"; channel_type = "slack"; config = []; enabled = true }

abbrev route : AlertRoute
route = record {
  id = "x";
  rule_id = "r";
  channel_id = "c";
  repeat_interval_seconds = pos 60;
  group_wait_seconds = pos 0;
  group_interval_seconds = pos 0;
  enabled = true;
}

-- The world counts what is sent.
abbrev services : NotifierServices whole
services = record {
  World = ℕ;
  list_routes = λ id w. ok (route ∷ []);
  get_channel = λ id w. ok channel;
  create_history = λ h w. (w, some (plain 3));
  channel_factory = some (λ c. ok (λ m w. (w + 1, none)));
}

abbrev fresh : Notifier whole services
fresh = record { world = 0; last_notified = [] }

abbrev told : Notifier whole services
told = (notify 5 alert rule fired_event fresh).0

sends_once : (notify 9 alert rule fired_event told).0.world ≡ 1
unfolding notify lookup put notify_key philotes.Common.Int.◌*ℤ◌
sends_once = refl

-- A resolution is always sent.
sends_end : (notify 9 alert rule resolved_event told).0.world ≡ 2
unfolding notify lookup
sends_end = refl

abbrev calls : List (ℕ × NotifierCall whole)
calls = (6, notifies alert rule fired_event) ∷ (7, notifies alert rule resolved_event) ∷ []

told_entry : lookup (notify_key alert.fingerprint route.channel_id) told.last_notified ≡ some 5
unfolding lookup notify put notify_key
told_entry = refl

repeat_interval-quiet_example :
    let told_once = (notify_route 5 alert rule fired_event route fresh).0 in
    notify_route 9 alert rule fired_event route (notifier_calls calls told_once)
    ≡ (notifier_calls calls told_once, none)
unfolding philotes.Common.Int.◌*ℤ◌ should_notify lookup notify_route
repeat_interval-quiet_example =
    repeat_interval-quiet 5 9 alert rule rule fired_event fired_event route route channel calls
      fresh refl refl refl refl refl refl (omega arith)
      ((omega arith, omega arith, tt, (omega arith, omega arith, tt, tt))) refl refl
