-- ===== src/Alerting/Notifier.antt =====
-- internal/alerting/notifier.go: the notifier, which sends an alert to the channels of its rule's routes. The
-- repository and the senders are services on one world; one reading of the clock serves a notification.
pub mod Since
pub mod Intervals
use Prim.Native.String.{String, ◌++◌ as ◌joined◌}
use text.Mathlib.Text.{starts_with}
use philotes.Common.{
  ℕ, Bool, true, false, not, Option, none, some, List, [], ◌∷◌, ◌++◌, length, keep, if◌then◌else◌,
}
use philotes.Common.Errors.{GoError, plain, wrapped, Fallible, ok, err}
use philotes.Common.Int.{ℤ, pos, sub_ℕ, ltb_ℤ}
use philotes.Common.Floats.{Floats}
use philotes.Common.Maps.{lookup, put}
use philotes.Alerting.{
  EventType, fired_event, resolved_event, acknowledged_event, sent_event, failed_event, AlertRule,
  AlertInstance,
}
use philotes.Alerting.Manager.{nanos}

-- `config` is the channel's configuration, of which the notifier knows nothing.
pub record NotificationChannel : Type 0 where
  pub id : String
  pub name : String
  pub channel_type : String
  pub config : List (String × String)
  pub enabled : Bool

pub record AlertRoute : Type 0 where
  pub id : String
  pub rule_id : String
  pub channel_id : String
  pub repeat_interval_seconds : ℤ
  pub group_wait_seconds : ℤ
  pub group_interval_seconds : ℤ
  pub enabled : Bool

pub record Notification (f : Floats) : Type 0 where
  pub alert : AlertInstance f
  pub rule : AlertRule f
  pub channel : NotificationChannel
  pub route : AlertRoute
  pub event : EventType

-- An entry of the history; `error` is none where the text is empty.
pub record NotifyHistory (f : Floats) : Type 0 where
  pub alert_id : String
  pub rule_id : String
  pub event_type : EventType
  pub channel_id : String
  pub channel_name : String
  pub channel_type : String
  pub error : Option GoError
  pub value : Option (f.Float)

-- `channel_factory` is none if it is nil. A sender is what sends on the world.
pub record NotifierServices (f : Floats) : Type 1 where
  pub World : Type 0
  pub list_routes : String → World → Fallible (List AlertRoute)
  pub get_channel : String → World → Fallible NotificationChannel
  pub create_history : NotifyHistory f → World → World × Option GoError
  pub channel_factory :
      Option (NotificationChannel → Fallible (Notification f → World → World × Option GoError))

pub record Notifier (f : Floats) (sv : NotifierServices f) : Type 0 where
  pub world : sv.World
  pub last_notified : List (String × ℕ)

-- The numbers by which the errors are known.
abbrev pub routes_failed : ℕ
routes_failed = 70

abbrev pub channel_failed : ℕ
channel_failed = 71

abbrev pub factory_missing : ℕ
factory_missing = 72

abbrev pub sender_failed : ℕ
sender_failed = 73

abbrev pub send_failed : ℕ
send_failed = 74

abbrev pub notification_errors : ℕ
notification_errors = 75

abbrev pub batch_errors : ℕ
batch_errors = 76

unfoldable pub notify_key : String → String → String
notify_key fingerprint channel_id = fingerprint joined (":" joined channel_id)

abbrev pub is_resolved_event : EventType → Bool
is_resolved_event resolved_event = true
is_resolved_event _ = false

unfoldable pub should_notify : ℕ → String → String → ℤ → EventType → List (String × ℕ) → Bool
should_notify now fingerprint channel_id interval event last_notified =
    if is_resolved_event event
    then true
    else elim (lookup (notify_key fingerprint channel_id) last_notified) [
      | none ↦ true
      | some t ↦ not (ltb_ℤ (sub_ℕ now t) (nanos interval))
    ]

abbrev history_entry :
    {f : Floats}
    → AlertInstance f
    → AlertRule f
    → NotificationChannel
    → EventType
    → Option GoError
    → NotifyHistory f
history_entry alert rule channel event x = record {
  alert_id = alert.id;
  rule_id = rule.id;
  event_type = event;
  channel_id = channel.id;
  channel_name = channel.name;
  channel_type = channel.channel_type;
  error = x;
  value = alert.current_value;
}

abbrev error_of : ℕ → List GoError → Option GoError
error_of number [] = none
error_of number (x ∷ xs) = some (plain number)

-- The world behind a send, with its error.
unfoldable pub send_notification :
    {f : Floats} (sv : NotifierServices f) → Notification f → sv.World → sv.World × Option GoError
send_notification sv notification world = elim (sv.channel_factory) [
  | none ↦ (world, some (plain factory_missing))
  | some factory ↦ elim (factory notification.channel) [
    | err x ↦ (world, some (wrapped sender_failed x))
    | ok sender ↦
        let (behind, x) = sender notification world in
        (behind, elim x [ none ↦ none | some e ↦ some (wrapped send_failed e) ])
  ]
]

module _ {f : Floats} {sv : NotifierServices f} where
  unfoldable pub update_last_notified : ℕ → String → String → Notifier f sv → Notifier f sv
  update_last_notified now fingerprint channel_id n = record n {
    last_notified = put (notify_key fingerprint channel_id) now n.last_notified;
  }

  unfoldable pub clear_last_notified : String → Notifier f sv → Notifier f sv
  clear_last_notified fingerprint n = record n {
    last_notified = keep (λ e. not (starts_with e.0 (fingerprint joined ":"))) n.last_notified;
  }

  -- The error of the repository is logged.
  unfoldable pub record_notification_event :
      AlertInstance f
      → AlertRule f
      → NotificationChannel
      → EventType
      → Option GoError
      → Notifier f sv
      → Notifier f sv
  record_notification_event alert rule channel event x n = record n {
    world = (sv.create_history (history_entry alert rule channel event x) n.world).0;
  }

  -- What is recorded behind a send.
  unfoldable pub note_sent :
      ℕ
      → AlertInstance f
      → AlertRule f
      → NotificationChannel
      → Notifier f sv
      → sv.World × Option GoError
      → Notifier f sv × Option GoError
  unfolding update_last_notified record_notification_event
  note_sent now alert rule channel n (world, some x) = (
    record_notification_event alert rule channel failed_event (some x) (record n { world = world }),
    some x,
  )
  note_sent now alert rule channel n (world, none) = (
    record_notification_event alert rule channel sent_event none
        (update_last_notified now alert.fingerprint channel.id (record n { world = world })),
    none,
  )

  -- The body of the loop, for a route; its error, if any.
  unfoldable pub notify_route :
      ℕ
      → AlertInstance f
      → AlertRule f
      → EventType
      → AlertRoute
      → Notifier f sv
      → Notifier f sv × Option GoError
  unfolding should_notify send_notification note_sent
  notify_route now alert rule event route n =
      if should_notify now alert.fingerprint route.channel_id route.repeat_interval_seconds event
        n.last_notified
      then elim (sv.get_channel route.channel_id n.world) [
        | err x ↦ (n, some (wrapped channel_failed x))
        | ok channel ↦
            if channel.enabled
            then note_sent now alert rule channel n (
                send_notification sv
                  (record {
                    alert = alert;
                    rule = rule;
                    channel = channel;
                    route = route;
                    event = event;
                  })
                  n.world)
            else (n, none)
      ]
      else (n, none)

  -- The loop over the routes, with its errors.
  unfoldable pub notify_routes :
      ℕ
      → AlertInstance f
      → AlertRule f
      → EventType
      → List AlertRoute
      → Notifier f sv
      → Notifier f sv × List GoError
  unfolding notify_route
  notify_routes now alert rule event [] n = (n, [])
  notify_routes now alert rule event (r ∷ rs) n =
      let (n1, x) = notify_route now alert rule event r n in
      let (n2, xs) = notify_routes now alert rule event rs n1 in
      (n2, elim x [ none ↦ xs | some e ↦ e ∷ xs ])

  unfoldable pub notify :
      ℕ → AlertInstance f → AlertRule f → EventType → Notifier f sv → Notifier f sv × Option GoError
  unfolding notify_routes
  notify now alert rule event n = elim (sv.list_routes rule.id n.world) [
    | err x ↦ (n, some (wrapped routes_failed x))
    | ok routes ↦
        let (n1, xs) = notify_routes now alert rule event routes n in
        (n1, error_of notification_errors xs)
  ]

  -- The loop of `NotifyBatch`.
  unfoldable pub notify_each :
      ℕ
      → List (AlertInstance f × AlertRule f × EventType)
      → Notifier f sv
      → Notifier f sv × List GoError
  unfolding notify
  notify_each now [] n = (n, [])
  notify_each now ((alert, rule, event) ∷ rest) n =
      let (n1, x) = notify now alert rule event n in
      let (n2, xs) = notify_each now rest n1 in (n2, elim x [ none ↦ xs | some e ↦ e ∷ xs ])

  unfoldable pub notify_batch :
      ℕ
      → List (AlertInstance f × AlertRule f × EventType)
      → Notifier f sv
      → Notifier f sv × Option GoError
  unfolding notify_each
  notify_batch now alerts n =
      let (n1, xs) = notify_each now alerts n in (n1, error_of batch_errors xs)
