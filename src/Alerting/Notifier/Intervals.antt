-- ===== src/Alerting/Notifier/Intervals.antt =====
-- Notifications keep the repeat interval of a route.
use Prim.Native.String.{String}
use text.Mathlib.TextEquality.{eq_iff}
use philotes.Common.{ℕ, ◌≤◌, ◌≡◌, refl, sym, ap, ◌∙◌, true, false, Option, none, some, List, arith}
use philotes.Common.Errors.{GoError, ok}
use philotes.Common.Int.{ℤ, sub_ℕ, ltb_ℤ}
use philotes.Common.Floats.{Floats}
use philotes.Common.Maps.{lookup, lookup-put}
use philotes.Alerting.{EventType, AlertRule, AlertInstance}
use philotes.Alerting.Manager.{nanos}
use philotes.Alerting.Notifier.{
  NotificationChannel, AlertRoute, NotifierServices, Notifier, notify_key, is_resolved_event,
  should_notify, update_last_notified, record_notification_event, note_sent, notify_route,
}
use philotes.Alerting.Notifier.Since.{
  SentSince, NotifierCall, notifier_calls, Between, notifier_calls-SentSince,
}

module _ {f : Floats} {sv : NotifierServices f} where
  -- A key whose last notification is younger than the interval is not notified.
  not_due :
      (key : String) (t later : ℕ) (interval : ℤ) (n : Notifier f sv)
      → SentSince key t later n
      → ltb_ℤ (sub_ℕ later t) interval ≡ true
      → (at : ℕ) × (lookup key n.last_notified ≡ some at) × (ltb_ℤ (sub_ℕ later at) interval ≡ true)
  not_due key t later interval n h lt =
      let s = h.at in let a = h.since in let b = h.until in (s, h.entry, ground (arith, lt, a, b))

  -- Within the interval of the entry of a key nothing is sent for it.
  entry-quiet :
      (t later : ℕ) (alert : AlertInstance f) (rule : AlertRule f) (event : EventType)
      (r : AlertRoute) (cs : List (ℕ × NotifierCall f)) (n : Notifier f sv)
      → lookup (notify_key alert.fingerprint r.channel_id) n.last_notified ≡ some t
      → t ≤ later
      → Between (notify_key alert.fingerprint r.channel_id) t later cs
      → is_resolved_event event ≡ false
      → ltb_ℤ (sub_ℕ later t) (nanos r.repeat_interval_seconds) ≡ true
      → notify_route later alert rule event r (notifier_calls cs n) ≡ (notifier_calls cs n, none)
  unfolding notify_route should_notify
  entry-quiet t later alert rule event r cs n e le b open_ young =
      let key = notify_key alert.fingerprint r.channel_id in
      let first : SentSince key t later n = record {
        at = t;
        entry = e;
        since = omega arith;
        until = le;
      } in
      let (at, entry, y) =
        not_due key t later (nanos r.repeat_interval_seconds) (notifier_calls cs n)
          (notifier_calls-SentSince key t later cs n b first) young in
      rw (open_, entry, y, notify_route, should_notify) refl

  note_sent-entry :
      (now : ℕ) (alert : AlertInstance f) (rule : AlertRule f) (channel : NotificationChannel)
      (n : Notifier f sv) (r : sv.World × Option GoError)
      → (note_sent now alert rule channel n r).1 ≡ none
      → lookup
          (notify_key alert.fingerprint channel.id)
          (note_sent now alert rule channel n r).0.last_notified
        ≡ some now
  unfolding note_sent update_last_notified record_notification_event
  note_sent-entry now alert rule channel n (world, some x) e = absurd (ground (arith, e))
  note_sent-entry now alert rule channel n (world, none) e =
      let key = notify_key alert.fingerprint channel.id in
      ground (arith, lookup-put key key now n.last_notified, (eq_iff key key).1 refl)

  notify_route-sent :
      (now : ℕ) (alert : AlertInstance f) (rule : AlertRule f) (event : EventType) (r : AlertRoute)
      (channel : NotificationChannel) (n : Notifier f sv)
      → should_notify now alert.fingerprint r.channel_id r.repeat_interval_seconds event
          n.last_notified
        ≡ true
      → sv.get_channel r.channel_id n.world ≡ ok channel
      → channel.enabled ≡ true
      → (w : sv.World × Option GoError) × (notify_route now alert rule event r n
          ≡ note_sent now alert rule channel n w)
  unfolding notify_route
  notify_route-sent now alert rule event r channel n due found on =
      rw (due, found, on, notify_route) (_, refl)

  sent-entry :
      (now : ℕ) (alert : AlertInstance f) (rule : AlertRule f) (channel : NotificationChannel)
      (channel_id : String) (n : Notifier f sv) (w : sv.World × Option GoError)
      (x : Notifier f sv × Option GoError)
      → x ≡ note_sent now alert rule channel n w
      → channel.id ≡ channel_id
      → x.1 ≡ none
      → lookup (notify_key alert.fingerprint channel_id) x.0.last_notified ≡ some now
  sent-entry now alert rule channel channel_id n w x e named good =
      rw (e, sym named) (note_sent-entry now alert rule channel n w (ap (λ y. y.1) (sym e) ∙ good))

  -- A route that was due, to an enabled channel, and on which the send did not fail is recorded.
  notify_route-entry :
      (now : ℕ) (alert : AlertInstance f) (rule : AlertRule f) (event : EventType) (r : AlertRoute)
      (channel : NotificationChannel) (n : Notifier f sv)
      → should_notify now alert.fingerprint r.channel_id r.repeat_interval_seconds event
          n.last_notified
        ≡ true
      → sv.get_channel r.channel_id n.world ≡ ok channel
      → channel.id ≡ r.channel_id
      → channel.enabled ≡ true
      → (notify_route now alert rule event r n).1 ≡ none
      → lookup
          (notify_key alert.fingerprint r.channel_id)
          (notify_route now alert rule event r n).0.last_notified
        ≡ some now
  notify_route-entry now alert rule event r channel n due found named on good =
      let (w, e) = notify_route-sent now alert rule event r channel n due found on in
      sent-entry now alert rule channel r.channel_id n w (notify_route now alert rule event r n) e
        named good

  -- If at t a route to an enabled channel was due for an alert and its notification was sent without an
  -- error, and until `later` the notifier is called for any notifications, and for clears only that
  -- leave the alert's entry, then a notification of the alert, not of its resolution, on a route to that
  -- channel whose repeat interval has not passed since t sends nothing, records nothing and returns no
  -- error.
  pub repeat_interval-quiet :
      (t later : ℕ) (alert : AlertInstance f) (rule_then rule : AlertRule f)
      (event_then event : EventType) (route_then r : AlertRoute) (channel : NotificationChannel)
      (cs : List (ℕ × NotifierCall f)) (n : Notifier f sv)
      → should_notify t alert.fingerprint route_then.channel_id route_then.repeat_interval_seconds
          event_then n.last_notified
        ≡ true
      → sv.get_channel route_then.channel_id n.world ≡ ok channel
      → channel.id ≡ route_then.channel_id
      → channel.enabled ≡ true
      → (notify_route t alert rule_then event_then route_then n).1 ≡ none
      → r.channel_id ≡ route_then.channel_id
      → t ≤ later
      → Between (notify_key alert.fingerprint r.channel_id) t later cs
      → is_resolved_event event ≡ false
      → ltb_ℤ (sub_ℕ later t) (nanos r.repeat_interval_seconds) ≡ true
      → let behind = notifier_calls cs (notify_route t alert rule_then event_then route_then n).0 in
        notify_route later alert rule event r behind ≡ (behind, none)
  repeat_interval-quiet t later alert rule_then rule event_then event route_then r channel cs n due
        found named on good same le b open_ young =
      let entry =
        notify_route-entry t alert rule_then event_then route_then channel n due found named on
          good in
      entry-quiet t later alert rule event r cs
        (notify_route t alert rule_then event_then route_then n).0 (rw same entry) le b open_ young
