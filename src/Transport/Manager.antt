-- ===== src/Transport/Manager.antt =====
-- internal/transport/manager.go, and reportHealth of ws_client.go: which of the two clients works.
--
-- The channel of health events holds 8. An `Event` is a call of reportHealth, or the loop of Run that
-- takes an event off the channel.
pub mod Health
use mgate_agent.Base.{
  ℕ, zero, suc, ◌+◌, ◌≤◌, ◌<◌, ◌≡◌, refl, sym, ◌∙◌, subst, ap, ◌⊎◌, inl, inr, Bool, true, false,
  not, ◌||◌, ◌&&◌, Option, none, some, List, [], ◌∷◌, ◌++◌, ltb, length, length-append,
  if◌then◌else◌, Bool-cases, arith, Result, ok, err,
}
use mgate_agent.Transport.Dispatcher.{ResultDispatcher}

pub data HealthState : Type 0 where
  connected disconnected : HealthState

pub data ManagerError : Type 0 where
  no_transport no_dispatcher : ManagerError

pub record Manager : Type 0 where
  pub ws_enabled : Bool
  pub pull_enabled : Bool
  pub dispatcher : ResultDispatcher
  pub events : List HealthState
  pub ws_healthy : Bool

-- NewManager, and the empty channel of Run
unfoldable pub new_manager : Bool → Bool → Option ResultDispatcher → Result ManagerError Manager
new_manager ws_enabled pull_enabled dispatcher =
    if not ws_enabled && not pull_enabled then err no_transport else elim dispatcher [
      | none ↦ err no_dispatcher
      | some d ↦ ok (record {
        ws_enabled = ws_enabled;
        pull_enabled = pull_enabled;
        dispatcher = d;
        events = [];
        ws_healthy = false;
      })
    ]

abbrev pub channel_size : ℕ
channel_size = 8

-- a send that is dropped when the channel is full, as in reportHealth and reportManagerErr
unfoldable pub offer {ℓ} : {A : Type ℓ} → ℕ → A → List A → List A
offer size x queue = if ltb (length queue) size then queue ++ x ∷ [] else queue

unfoldable pub is_connected : HealthState → Bool
is_connected connected = true
is_connected disconnected = false

-- (*WSClient).reportHealth
unfoldable pub report_health : HealthState → Manager → Manager
unfolding offer
report_health state m = record m { events = offer channel_size state m.events }

-- one turn of the loop over the health events
unfoldable pub take_event : Manager → Manager
unfolding is_connected
take_event m = elim m.events [
  | [] ↦ m
  | state ∷ rest ↦ record m { events = rest; ws_healthy = is_connected state }
]

-- the function that Run gives to the pull client
unfoldable pub should_poll : Manager → Bool
should_poll m = not m.ws_enabled || not m.ws_healthy

pub data Event : Type 0 where
  reported : HealthState → Event
  taken : Event

unfoldable pub run_event : Event → Manager → Manager
unfolding report_health take_event
run_event (reported state) m = report_health state m
run_event taken m = take_event m

unfoldable pub run_events : List Event → Manager → Manager
unfolding run_event
run_events [] m = m
run_events (e ∷ es) m = run_events es (run_event e m)

-- no report meets a full channel
unfoldable pub has_room : List Event → Manager → Bool
unfolding run_event
has_room [] m = true
has_room (reported state ∷ es) m =
    ltb (length m.events) channel_size && has_room es (run_event (reported state) m)
has_room (taken ∷ es) m = has_room es (run_event taken m)

-- whether the last report said `connected`; before the first one, what is given
unfoldable pub last_report : List Event → Bool → Bool
unfolding is_connected
last_report [] b = b
last_report (reported state ∷ es) b = last_report es (is_connected state)
last_report (taken ∷ es) b = last_report es b
