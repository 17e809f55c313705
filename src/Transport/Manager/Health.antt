-- ===== src/Transport/Manager/Health.antt =====
-- internal/transport/manager.go: the pull client works when the WebSocket does not.
use mgate_agent.Base.{
  ◌≡◌, refl, sym, ◌∙◌, ap, inl, inr, Bool, true, false, not, ◌||◌, List, [], ◌∷◌, ◌++◌, ltb, length,
  Bool-cases, arith,
}
use mgate_agent.Transport.Manager.{
  HealthState, Manager, channel_size, offer, is_connected, report_health, take_event, should_poll,
  Event, reported, taken, run_event, run_events, has_room, last_report,
}

-- the last state of a channel
unfoldable last_of : List HealthState → Bool → Bool
unfolding is_connected
last_of [] b = b
last_of (s ∷ ss) b = last_of ss (is_connected s)

last_of-append :
    (ss : List HealthState) (s : HealthState) (b : Bool) → last_of (ss ++ s ∷ []) b ≡ is_connected s
unfolding last_of
last_of-append [] s b = refl
last_of-append (t ∷ ss) s b = last_of-append ss s (is_connected t)

-- the state that the channel leads to
abbrev ahead : Manager → Bool
ahead m = last_of m.events m.ws_healthy

take_event-ahead : (m : Manager) → ahead (take_event m) ≡ ahead m
unfolding take_event last_of
take_event-ahead m = took m.events refl
  where
    took : (ss : List HealthState) → m.events ≡ ss → ahead (take_event m) ≡ ahead m
    took [] e = rw (take_event, e) (rw e refl)
    took (s ∷ ss) e = rw (take_event, e) refl

report_health-ahead :
    (state : HealthState) (m : Manager)
    → ltb (length m.events) channel_size ≡ true
    → ahead (report_health state m) ≡ is_connected state
unfolding report_health offer
report_health-ahead state m room =
    rw (report_health, offer, room) (last_of-append m.events state m.ws_healthy)

run_events-ahead :
    (es : List Event) (m : Manager)
    → has_room es m ≡ true
    → ahead (run_events es m) ≡ last_report es (ahead m)
unfolding run_events has_room run_event last_report
run_events-ahead [] m room = refl
run_events-ahead (taken ∷ es) m room =
    run_events-ahead es (take_event m) room ∙ ap (last_report es) (take_event-ahead m)
run_events-ahead (reported state ∷ es) m room =
    elim (Bool-cases (ltb (length m.events) channel_size)) [
      | inr e ↦ absurd (ground (arith, e, room))
      | inl e ↦
          let rest : has_room es (report_health state m) ≡ true = ground (arith, e, room) in
          run_events-ahead es (report_health state m) rest
          ∙ ap (last_report es) (report_health-ahead state m e)
    ]

-- an event changes the channel and the health only
run_event-ws_enabled : (e : Event) (m : Manager) → (run_event e m).ws_enabled ≡ m.ws_enabled
unfolding run_event report_health take_event
run_event-ws_enabled (reported state) m = refl
run_event-ws_enabled taken m = kept m.events refl
  where
    kept : (ss : List HealthState) → m.events ≡ ss → (take_event m).ws_enabled ≡ m.ws_enabled
    kept [] e = rw (take_event, e) refl
    kept (s ∷ ss) e = rw (take_event, e) refl

run_events-ws_enabled :
    (es : List Event) (m : Manager) → (run_events es m).ws_enabled ≡ m.ws_enabled
unfolding run_events
run_events-ws_enabled [] m = refl
run_events-ws_enabled (e ∷ es) m =
    run_events-ws_enabled es (run_event e m) ∙ run_event-ws_enabled e m

-- After any reports of health, none of which met a full channel, and once the manager has taken all
-- of them, the pull client polls exactly when the WebSocket is disabled or the last report was not
-- that it is connected; with no report, the WebSocket counts as not connected.
pub should_poll-last_report :
    (es : List Event) (m : Manager)
    → m.events ≡ []
    → m.ws_healthy ≡ false
    → has_room es m ≡ true
    → (run_events es m).events ≡ []
    → should_poll (run_events es m) ≡ (not m.ws_enabled || not (last_report es false))
unfolding should_poll last_of
should_poll-last_report es m none_yet unhealthy room drained =
    let end = run_events es m in
    let now : ahead end ≡ end.ws_healthy = rw drained refl in
    let before : ahead m ≡ false = rw (none_yet, unhealthy) refl in
    let healthy : end.ws_healthy ≡ last_report es false =
      sym now ∙ run_events-ahead es m room ∙ ap (last_report es) before in
    rw (healthy, run_events-ws_enabled es m) refl
