-- ===== src/Alerting/Notifier/Since.antt =====
-- internal/alerting/notifier.go: what calls of the notifier leave of the time of a notification.
use Prim.Native.String.{String, ◌++◌}
use text.Mathlib.Text.{◌==◌ as str_eq, starts_with}
use text.Mathlib.TextEquality.{eq_iff}
use philotes.Common.{
  ℕ, ◌≤◌, ◌≡◌, refl, sym, subst, ◌∙◌, inl, inr, false, not, Option, none, some, List, [], ◌∷◌, keep,
  Bool-cases, arith,
}
use philotes.Common.Errors.{GoError, Fallible-cases}
use philotes.Common.Floats.{Floats}
use philotes.Common.Maps.{lookup, lookup-put}
use philotes.Alerting.{EventType, AlertRule, AlertInstance}
use philotes.Alerting.Notifier.{
  NotificationChannel, AlertRoute, NotifierServices, Notifier, notify_key, should_notify,
  update_last_notified, clear_last_notified, record_notification_event, note_sent, notify_route,
  notify_routes, notify,
}

module _ {f : Floats} {sv : NotifierServices f} where
  -- The last notification for a key was at t or later, and not behind `later`.
  pub record SentSince (key : String) (t later : ℕ) (n : Notifier f sv) : Type 0 where
    pub at : ℕ
    pub entry : lookup key n.last_notified ≡ some at
    pub since : t ≤ at
    pub until : at ≤ later

  note_sent-SentSince :
      (key : String) (t now later : ℕ) (alert : AlertInstance f) (rule : AlertRule f)
      (channel : NotificationChannel) (n : Notifier f sv) (r : sv.World × Option GoError)
      → t ≤ now
      → now ≤ later
      → SentSince key t later n
      → SentSince key t later (note_sent now alert rule channel n r).0
  unfolding note_sent update_last_notified record_notification_event
  note_sent-SentSince key t now later alert rule channel n (world, some x) le ge h = record {
    at = h.at;
    entry = h.entry;
    since = h.since;
    until = h.until;
  }
  note_sent-SentSince key t now later alert rule channel n (world, none) le ge h =
      let new = notify_key alert.fingerprint channel.id in
      elim (Bool-cases (str_eq new key)) [
        | inl same ↦ record {
          at = now;
          entry = ground (arith, same, lookup-put new key now n.last_notified);
          since = le;
          until = ge;
        }
        | inr other ↦ record {
          at = h.at;
          entry = ground (arith, other, h.entry, lookup-put new key now n.last_notified);
          since = h.since;
          until = h.until;
        }
      ]

  notify_route-SentSince :
      (key : String) (t now later : ℕ) (alert : AlertInstance f) (rule : AlertRule f)
      (event : EventType) (r : AlertRoute) (n : Notifier f sv)
      → t ≤ now
      → now ≤ later
      → SentSince key t later n
      → SentSince key t later (notify_route now alert rule event r n).0
  unfolding notify_route
  notify_route-SentSince key t now later alert rule event r n le ge h =
      elim (Bool-cases (
        should_notify now alert.fingerprint r.channel_id r.repeat_interval_seconds event
          n.last_notified)) [
            | inr x ↦ rw (x, notify_route) h
            | inl x ↦ elim (Fallible-cases (sv.get_channel r.channel_id n.world)) [
              | inr (e, y) ↦ rw (x, y, notify_route) h
              | inl (channel, y) ↦ elim (Bool-cases channel.enabled) [
                | inr z ↦ rw (x, y, z, notify_route) h
                | inl z ↦
                    rw (x, y, z, notify_route)
                      (note_sent-SentSince key t now later alert rule channel n _ le ge h)
              ]
            ]
          ]

  notify_routes-SentSince :
      (key : String) (t now later : ℕ) (alert : AlertInstance f) (rule : AlertRule f)
      (event : EventType) (rs : List AlertRoute) (n : Notifier f sv)
      → t ≤ now
      → now ≤ later
      → SentSince key t later n
      → SentSince key t later (notify_routes now alert rule event rs n).0
  unfolding notify_routes
  notify_routes-SentSince key t now later alert rule event [] n le ge h = h
  notify_routes-SentSince key t now later alert rule event (r ∷ rs) n le ge h =
      notify_routes-SentSince key t now later alert rule event rs
        (notify_route now alert rule event r n).0 le ge
        (notify_route-SentSince key t now later alert rule event r n le ge h)

  notify-SentSince :
      (key : String) (t now later : ℕ) (alert : AlertInstance f) (rule : AlertRule f)
      (event : EventType) (n : Notifier f sv)
      → t ≤ now
      → now ≤ later
      → SentSince key t later n
      → SentSince key t later (notify now alert rule event n).0
  unfolding notify
  notify-SentSince key t now later alert rule event n le ge h =
      elim (Fallible-cases (sv.list_routes rule.id n.world)) [
        | inr (e, x) ↦ rw (x, notify) h
        | inl (rs, x) ↦
            rw (x, notify) (notify_routes-SentSince key t now later alert rule event rs n le ge h)
      ]

lookup-cleared :
    (key prefix : String) (m : List (String × ℕ))
    → starts_with key prefix ≡ false
    → lookup key (keep (λ e. not (starts_with e.0 prefix)) m) ≡ lookup key m
unfolding lookup
lookup-cleared key prefix [] h = refl
lookup-cleared key prefix ((k, a) ∷ m) h = elim (Bool-cases (str_eq k key)) [
  | inl same ↦
      let stays : starts_with k prefix ≡ false =
        subst (λ x. starts_with x prefix ≡ false) (sym ((eq_iff k key).0 same)) h in
      rw (stays, same) refl
  | inr other ↦ elim (Bool-cases (starts_with k prefix)) [
    | inl gone ↦ rw (gone, other) (lookup-cleared key prefix m h)
    | inr stays ↦ rw (stays, other) (lookup-cleared key prefix m h)
  ]
]

-- A call of the notifier.
pub data NotifierCall (f : Floats) : Type 0 where
  notifies : AlertInstance f → AlertRule f → EventType → NotifierCall f
  clears : String → NotifierCall f

module _ {f : Floats} {sv : NotifierServices f} where
  unfoldable pub notifier_call : ℕ → NotifierCall f → Notifier f sv → Notifier f sv
  notifier_call now (notifies alert rule event) n = (notify now alert rule event n).0
  notifier_call now (clears fingerprint) n = clear_last_notified fingerprint n

  unfoldable pub notifier_calls : List (ℕ × NotifierCall f) → Notifier f sv → Notifier f sv
  unfolding notifier_call
  notifier_calls [] n = n
  notifier_calls ((now, c) ∷ cs) n = notifier_calls cs (notifier_call now c n)

-- A call that does not clear a key.
abbrev pub Spares : {f : Floats} → String → NotifierCall f → Type 0
Spares key (notifies alert rule event) = Unit
Spares key (clears fingerprint) = starts_with key (fingerprint ++ ":") ≡ false

-- Calls between two times that do not clear a key.
abbrev pub Between : {f : Floats} → String → ℕ → ℕ → List (ℕ × NotifierCall f) → Type 0
Between key t later [] = Unit
Between key t later ((now, c) ∷ cs) =
    (t ≤ now) × (now ≤ later) × Spares key c × Between key t later cs

module _ {f : Floats} {sv : NotifierServices f} where
  notifier_call-SentSince :
      (key : String) (t now later : ℕ) (c : NotifierCall f) (n : Notifier f sv)
      → t ≤ now
      → now ≤ later
      → Spares key c
      → SentSince key t later n
      → SentSince key t later (notifier_call now c n)
  unfolding notifier_call clear_last_notified
  notifier_call-SentSince key t now later (notifies alert rule event) n le ge s h =
      notify-SentSince key t now later alert rule event n le ge h
  notifier_call-SentSince key t now later (clears fingerprint) n le ge s h = record {
    at = h.at;
    entry = lookup-cleared key (fingerprint ++ ":") n.last_notified s ∙ h.entry;
    since = h.since;
    until = h.until;
  }

  pub notifier_calls-SentSince :
      (key : String) (t later : ℕ) (cs : List (ℕ × NotifierCall f)) (n : Notifier f sv)
      → Between key t later cs
      → SentSince key t later n
      → SentSince key t later (notifier_calls cs n)
  unfolding notifier_calls
  notifier_calls-SentSince key t later [] n b h = h
  notifier_calls-SentSince key t later ((now, c) ∷ cs) n b h =
      notifier_calls-SentSince key t later cs (notifier_call now c n) b.3
        (notifier_call-SentSince key t now later c n b.0 b.1 b.2 h)
