-- ===== src/Alerts/Handling.antt =====
-- What `processAlerts` of AVS/pkg/monitoring/alerts.go hands on: which alerts reach the handlers, in which
-- order, and what the handlers do with them. An alert is named by its id. A handler is two functions on a
-- state of its own making, with whether it fails.
use mathlib.Core.List.{append_assoc}
use sync_hook.Prelude.{
  ℕ, ◌≡◌, refl, sym, ap, ◌∙◌, map, String, List, [], ◌∷◌, ◌++◌, Option, none, some, Bool,
  if◌then◌else◌, ltb, length, Map, lookup, string_eq, Bool-cases, Option-cases, inl, inr,
}
use sync_hook.Alerts.{
  Alert, AlertManager, AlertThresholds, Message, Datum, channel_size, send, new_alert_manager,
  create_alert, resolve_alert, cleanup_old_alerts,
}

pub record AlertHandler (W : Type 0) : Type 0 where
  pub handle_alert : String → W → W × Bool
  pub handle_alert_resolved : String → W → W × Bool

module _ {W : Type 0} where
  -- `AddHandler`
  unfoldable pub add_handler : AlertHandler W → List (AlertHandler W) → List (AlertHandler W)
  add_handler h handlers = handlers ++ (h ∷ [])

  -- A failure is logged only.
  unfoldable pub handle_alert : List (AlertHandler W) → String → W → W
  handle_alert [] id w = w
  handle_alert (h ∷ handlers) id w = handle_alert handlers id (h.handle_alert id w).0

  unfoldable pub handle_alert_resolved : List (AlertHandler W) → String → W → W
  handle_alert_resolved [] id w = w
  handle_alert_resolved (h ∷ handlers) id w =
      handle_alert_resolved handlers id (h.handle_alert_resolved id w).0

  -- A handler that is added is called after all others, whether these fail or not.
  pub handle_alert-add_handler :
      (handlers : List (AlertHandler W)) (h : AlertHandler W) (id : String) (w : W)
      → handle_alert (add_handler h handlers) id w
        ≡ (h.handle_alert id (handle_alert handlers id w)).0
  unfolding handle_alert add_handler
  handle_alert-add_handler [] h id w = refl
  handle_alert-add_handler (g ∷ handlers) h id w =
      handle_alert-add_handler handlers h id (g.handle_alert id w).0

module _ {F : Type 0} where
  -- The ids that the channels take at a call, after those that they have taken: a full channel drops one.
  abbrev pub taken : String → AlertManager F → List String → List String
  taken id am ids = if ltb (length am.alert_chan) channel_size then ids ++ (id ∷ []) else ids

  abbrev pub taken_if_active : String → Option (Alert F) → List String → List String → List String
  taken_if_active id none chan ids = ids
  taken_if_active id (some a) chan ids =
      if a.resolved then ids else if ltb (length chan) channel_size then ids ++ (id ∷ []) else ids

  abbrev pub taken_resolution : String → AlertManager F → List String → List String
  taken_resolution id am ids = taken_if_active id (lookup id am.alerts) am.resolve_chan ids

  module _ {W : Type 0} (handlers : List (AlertHandler W)) (th : AlertThresholds F) (w₀ : W) where
    -- A life of the manager with its handlers: the calls of its methods, and what `processAlerts` receives
    -- from either channel, which goes to the handlers at once. The lists are the ids that the two channels
    -- have taken; the last index is what the handlers have made of their state.
    pub data Life : AlertManager F → List String → List String → W → Type 0 where
      start : Life (new_alert_manager th) [] [] w₀
      created :
          {am : AlertManager F} {alerts resolutions : List String} {w : W} (id : String) (now : ℕ)
          (alert_type severity : String) (message : Message F) (source : String)
          (metadata : Map String (Datum F)) (tags : List String)
          → Life am alerts resolutions w
          → Life
              (create_alert id now alert_type severity message source metadata tags am)
              (taken id am alerts)
              resolutions
              w
      resolution :
          {am : AlertManager F} {alerts resolutions : List String} {w : W} (now : ℕ) (id : String)
          → Life am alerts resolutions w
          → Life (resolve_alert now id am).0 alerts (taken_resolution id am resolutions) w
      cleaned :
          {am : AlertManager F} {alerts resolutions : List String} {w : W} (now : ℕ)
          → Life am alerts resolutions w
          → Life (cleanup_old_alerts now am) alerts resolutions w
      alert_received :
          {am : AlertManager F} {alerts resolutions : List String} {w : W} (id : String)
          (ids : List String)
          → am.alert_chan ≡ id ∷ ids
          → Life am alerts resolutions w
          → Life (record am { alert_chan = ids }) alerts resolutions (handle_alert handlers id w)
      resolution_received :
          {am : AlertManager F} {alerts resolutions : List String} {w : W} (id : String)
          (ids : List String)
          → am.resolve_chan ≡ id ∷ ids
          → Life am alerts resolutions w
          → Life
              (record am { resolve_chan = ids })
              alerts
              resolutions
              (handle_alert_resolved handlers id w)

-- What the handlers are called with.
pub data Call : Type 0 where
  alert alert_resolved : String → Call

-- The call of one handler.
abbrev pub effect : {W : Type 0} → Call → AlertHandler W → W → W
effect (alert id) h w = (h.handle_alert id w).0
effect (alert_resolved id) h w = (h.handle_alert_resolved id w).0

-- One call after the other, each of all handlers in turn, the last call first in the list.
abbrev pub in_turn : {W : Type 0} → List (W → W) → W → W
in_turn [] w = w
in_turn (f ∷ fs) w = in_turn fs (f w)

abbrev pub performed : {W : Type 0} → List (AlertHandler W) → List Call → W → W
performed handlers [] w = w
performed handlers (c ∷ calls) w = in_turn (map (effect c) handlers) (performed handlers calls w)

-- The ids of the alerts of some calls, first call first, and those of the resolutions.
abbrev pub alerts_of : List Call → List String
alerts_of [] = []
alerts_of (alert id ∷ calls) = alerts_of calls ++ (id ∷ [])
alerts_of (alert_resolved id ∷ calls) = alerts_of calls

abbrev pub resolutions_of : List Call → List String
resolutions_of [] = []
resolutions_of (alert id ∷ calls) = resolutions_of calls
resolutions_of (alert_resolved id ∷ calls) = resolutions_of calls ++ (id ∷ [])

module _ {W : Type 0} where
  handle_alert-in_turn :
      (handlers : List (AlertHandler W)) (id : String) (w : W)
      → handle_alert handlers id w ≡ in_turn (map (effect (alert id)) handlers) w
  unfolding handle_alert
  handle_alert-in_turn [] id w = refl
  handle_alert-in_turn (h ∷ handlers) id w = handle_alert-in_turn handlers id _

  handle_alert_resolved-in_turn :
      (handlers : List (AlertHandler W)) (id : String) (w : W)
      → handle_alert_resolved handlers id w ≡ in_turn (map (effect (alert_resolved id)) handlers) w
  unfolding handle_alert_resolved
  handle_alert_resolved-in_turn [] id w = refl
  handle_alert_resolved-in_turn (h ∷ handlers) id w = handle_alert_resolved-in_turn handlers id _

module _ {F : Type 0} where
  resolve_alert-chans :
      (now : ℕ) (id : String) (am : AlertManager F) (handed ids : List String)
      → ids ≡ handed ++ am.resolve_chan
      → ((resolve_alert now id am).0.alert_chan ≡ am.alert_chan)
        × (taken_resolution id am ids ≡ handed ++ (resolve_alert now id am).0.resolve_chan)
  unfolding resolve_alert send
  resolve_alert-chans now id am handed ids h = elim (Option-cases (lookup id am.alerts)) [
    | inl missing ↦ rw (resolve_alert, taken_resolution, missing) (refl, h)
    | inr (a, found) ↦ elim (Bool-cases a.resolved) [
      | inl already ↦ rw (resolve_alert, taken_resolution, found, already) (refl, h)
      | inr active ↦ elim (Bool-cases (ltb (length am.resolve_chan) channel_size)) [
        | inl room ↦
            rw (resolve_alert, taken_resolution, found, active, room)
              (refl, ap (λ l. l ++ (id ∷ [])) h ∙ append_assoc handed am.resolve_chan (id ∷ []))
        | inr full ↦ rw (resolve_alert, taken_resolution, found, active, full) (refl, h)
      ]
    ]
  ]

  module _ {W : Type 0} (handlers : List (AlertHandler W)) (th : AlertThresholds F) (w₀ : W) where
    -- The state of the handlers is that of some calls, which have handed on what the channels have taken
    -- and do not hold any more.
    abbrev pub Handled : AlertManager F → List String → List String → W → Type 0
    Handled am alerts resolutions w =
        (calls : List Call) × (w ≡ performed handlers calls w₀)
        × (alerts ≡ alerts_of calls ++ am.alert_chan)
        × (resolutions ≡ resolutions_of calls ++ am.resolve_chan)

    -- Whatever the manager does, what the handlers have done is what comes of calls of all of them in turn,
    -- whether these fail or not: one for each alert that the channel of alerts has taken, in its order, up
    -- to those that still wait in it, and one for each resolution likewise.
    pub Life-Handled :
        {am : AlertManager F} {alerts resolutions : List String} {w : W}
        → Life handlers th w₀ am alerts resolutions w
        → Handled am alerts resolutions w
    unfolding new_alert_manager create_alert cleanup_old_alerts send
    Life-Handled start = ([], refl, refl, refl)
    Life-Handled (created {am} id now alert_type severity message source metadata tags life) =
        let (calls, done, sent, resolved) = Life-Handled life in
        elim (Bool-cases (ltb (length am.alert_chan) channel_size)) [
          | inl room ↦ rw room (
            calls,
            done,
            ap (λ l. l ++ (id ∷ [])) sent ∙ append_assoc (alerts_of calls) am.alert_chan (id ∷ []),
            resolved,
          )
          | inr full ↦ rw full (calls, done, sent, resolved)
        ]
    Life-Handled (resolution {am} {alerts} {resolutions} now id life) =
        let (calls, done, sent, resolved) = Life-Handled life in
        let (same, taken) =
          resolve_alert-chans now id am (resolutions_of calls) resolutions resolved in
        (calls, done, sent ∙ ap (λ l. alerts_of calls ++ l) (sym same), taken)
    Life-Handled (cleaned now life) = Life-Handled life
    Life-Handled (alert_received {w = w} id ids e life) =
        let (calls, done, sent, resolved) = Life-Handled life in
        (
          alert id ∷ calls,
          handle_alert-in_turn handlers id w ∙ ap (in_turn (map (effect (alert id)) handlers)) done,
          sent
              ∙ ap (λ l. alerts_of calls ++ l) e
              ∙ sym (append_assoc (alerts_of calls) (id ∷ []) ids),
          resolved,
        )
    Life-Handled (resolution_received {w = w} id ids e life) =
        let (calls, done, sent, resolved) = Life-Handled life in
        (
          alert_resolved id ∷ calls,
          handle_alert_resolved-in_turn handlers id w
              ∙ ap (in_turn (map (effect (alert_resolved id)) handlers)) done,
          sent,
          resolved
              ∙ ap (λ l. resolutions_of calls ++ l) e
              ∙ sym (append_assoc (resolutions_of calls) (id ∷ []) ids),
        )
