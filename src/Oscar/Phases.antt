-- ===== src/Oscar/Phases.antt =====
-- Each phase is followed by one that OSCAR_TRANSITIONS allows, so the loop ends.
use cobalto.Base.{
  ℕ, zero, suc, ◌≤◌, ◌<◌, ◌≡◌, refl, inl, inr, String, true, false, Option, none, some, In, arith,
  string_eq, Bool-cases, ◌≢◌,
}
use cobalto.Base.Dict.{Dict, lookup}
use cobalto.Base.Json.{Fields, end, Value}
use cobalto.Oscar.{
  Phase, orient, strategize, collect, analyze, report, complete, Agent, OscarState, Ended, returned,
  Outcome, finished, oscar_transitions, advance_phase, phase_orient, phase_strategize,
  phase_collect, phase_analyze, phase_report, dispatch, close_phase, execute_phase, is_complete,
  phases, init, orchestrate, run_agent, next_phase, triage_with, add_history, alert_input,
  severity_of,
}

-- The state that a phase leaves when it ends normally goes on to `after`; an exception leaves the
-- phase itself in place.
abbrev EndsAt : Phase → Phase → Ended → Type 0
EndsAt during after (returned s) = s.phase ≡ after
EndsAt during after (Ended.raised e s) = s.phase ≡ during

run_agent-EndsAt :
    (during after : Phase) (o : Option Agent) (input : Fields)
    (store : Fields → OscarState → OscarState) (s : OscarState) (rest : OscarState → Ended)
    → s.phase ≡ during
    → ((output : Fields) → (store output s).phase ≡ during)
    → ((q : OscarState) → q.phase ≡ during → EndsAt during after (rest q))
    → EndsAt during after (run_agent o input store s rest)
unfolding run_agent
run_agent-EndsAt during after none input store s rest h hs hr = hr s h
run_agent-EndsAt during after (some agent) input store s rest h hs hr = go (agent input)
  where
    go :
        (r : Outcome)
        → EndsAt during after (elim r [
          | finished output ↦ rest (store output s)
          | Outcome.raised e ↦ Ended.raised e s
        ])
    go (finished output) = hr (store output s) (hs output)
    go (Outcome.raised e) = h

triage-EndsAt :
    (o : Option Agent) (alert_data : Fields) (s : OscarState)
    → s.phase ≡ orient
    → EndsAt orient strategize (triage_with o alert_data s)
unfolding triage_with advance_phase
triage-EndsAt none alert_data s h = rw h refl
triage-EndsAt (some agent) alert_data s h =
    run_agent-EndsAt orient strategize (some agent) (alert_input alert_data s end)
      (λ output q. record q { triage_result = some output }) s (λ q. returned (advance_phase q)) h
      (λ output. h) (λ q hq. rw hq refl)

module _ (agents : Dict String Agent) (alert_data : Fields) (s : OscarState) where
  orient-EndsAt : EndsAt orient strategize (phase_orient agents alert_data s)
  unfolding phase_orient
  orient-EndsAt = triage-EndsAt (lookup "silver-triage" agents) alert_data _ refl

  collect-EndsAt : EndsAt collect analyze (phase_collect agents alert_data s)
  unfolding phase_collect advance_phase
  collect-EndsAt =
      run_agent-EndsAt collect analyze (lookup "silver-analysis" agents) _ _ _ _ refl
        (λ output. refl)
        λ q h.
          run_agent-EndsAt collect analyze (lookup "silver-intel" agents) _ _ _ _ h (λ output. h)
            (λ r hr. rw hr refl)

  report-EndsAt : EndsAt report complete (phase_report agents alert_data s)
  unfolding phase_report
  report-EndsAt =
      run_agent-EndsAt report complete (lookup "silver-response" agents) _ _ _ _ refl
        (λ output. refl)
        λ q h.
          run_agent-EndsAt report complete (lookup "silver-docs" agents) _ _ _ _ h (λ output. h)
            (λ r hr. refl)

strategize-In : (v : Value) → In (next_phase v) (oscar_transitions strategize)
unfolding next_phase oscar_transitions
strategize-In v = ground arith

-- What `_execute_phase` leaves, given where the phase ends.
pub close_phase-In :
    (during after : Phase) (e : Ended)
    → In after (oscar_transitions during)
    → EndsAt during after e
    → In (close_phase during e).phase (oscar_transitions during)
unfolding close_phase add_history advance_phase
close_phase-In during after (returned s) allowed h = rw h allowed
close_phase-In orient after (Ended.raised e s) allowed h = rw h (inl refl)
close_phase-In strategize after (Ended.raised e s) allowed h = rw h (inl refl)
close_phase-In collect after (Ended.raised e s) allowed h = rw h (inl refl)
close_phase-In analyze after (Ended.raised e s) allowed h = rw h (inl refl)
close_phase-In report after (Ended.raised e s) allowed h = rw h (inl refl)
close_phase-In complete after (Ended.raised e s) allowed h = rw h (inl refl)

dispatch-In :
    (p : Phase) (agents : Dict String Agent) (alert_data : Fields) (s : OscarState)
    → In (close_phase p (dispatch p agents alert_data s)).phase (oscar_transitions p)
unfolding dispatch
dispatch-In orient agents alert_data s =
    close_phase-In orient strategize (phase_orient agents alert_data s)
      (unfold oscar_transitions in inl refl) (orient-EndsAt agents alert_data s)
dispatch-In strategize agents alert_data s =
    unfold phase_strategize close_phase add_history in strategize-In (severity_of s.triage_result)
dispatch-In collect agents alert_data s =
    close_phase-In collect analyze (phase_collect agents alert_data s)
      (unfold oscar_transitions in inl refl) (collect-EndsAt agents alert_data s)
dispatch-In analyze agents alert_data s =
    unfold oscar_transitions phase_analyze advance_phase close_phase add_history in inl refl
dispatch-In report agents alert_data s =
    close_phase-In report complete (phase_report agents alert_data s)
      (unfold oscar_transitions in inl refl) (report-EndsAt agents alert_data s)
dispatch-In complete agents alert_data s =
    unfold oscar_transitions close_phase add_history in inl refl

-- Whatever the agents return or raise, executing a phase leads to a phase that OSCAR_TRANSITIONS
-- lists for it.
pub execute_phase-follows_transitions :
    (agents : Dict String Agent) (alert_data : Fields) (s : OscarState)
    → In (execute_phase agents alert_data s).phase (oscar_transitions s.phase)
unfolding execute_phase
execute_phase-follows_transitions agents alert_data s = dispatch-In s.phase agents alert_data s

-- The phases that may still be executed.
abbrev pub rounds : Phase → ℕ
rounds orient = 5
rounds strategize = 4
rounds collect = 3
rounds analyze = 2
rounds report = 1
rounds complete = 0

rounds-lt : (p q : Phase) → p ≢ complete → In q (oscar_transitions p) → rounds q < rounds p
unfolding oscar_transitions
rounds-lt orient q h (inl e) = rw e (omega arith)
rounds-lt orient q h (inr e) = absurd e
rounds-lt strategize q h (inl e) = rw e (omega arith)
rounds-lt strategize q h (inr (inl e)) = rw e (omega arith)
rounds-lt strategize q h (inr (inr e)) = absurd e
rounds-lt collect q h (inl e) = rw e (omega arith)
rounds-lt collect q h (inr e) = absurd e
rounds-lt analyze q h (inl e) = rw e (omega arith)
rounds-lt analyze q h (inr e) = absurd e
rounds-lt report q h (inl e) = rw e (omega arith)
rounds-lt report q h (inr e) = absurd e
rounds-lt complete q h e = absurd (h refl)

not_complete : (p : Phase) → is_complete p ≡ false → p ≢ complete
unfolding is_complete
not_complete p h e = ground arith

complete_of : (p : Phase) → is_complete p ≡ true → p ≡ complete
unfolding is_complete
complete_of p h = ground arith

none_left : (p : Phase) → rounds p ≤ 0 → p ≡ complete
none_left p h = ground arith

phases-total :
    (fuel : ℕ) (agents : Dict String Agent) (alert_data : Fields) (s : OscarState)
    → rounds s.phase ≤ fuel
    → (t : OscarState) × (phases fuel agents alert_data s ≡ some t) × (t.phase ≡ complete)
unfolding phases
phases-total zero agents alert_data s h = elim (Bool-cases (is_complete s.phase)) [
  | inl done ↦ (s, rw (done, phases), complete_of s.phase done)
  | inr more ↦ absurd (not_complete s.phase more (none_left s.phase h))
]
phases-total (suc fuel) agents alert_data s h = elim (Bool-cases (is_complete s.phase)) [
  | inl done ↦ (s, rw (done, phases), complete_of s.phase done)
  | inr more ↦
      rw (more, phases)
        (phases-total fuel agents alert_data (execute_phase agents alert_data s) (
          omega (
            arith,
            rounds-lt s.phase (execute_phase agents alert_data s).phase (not_complete s.phase more)
                (execute_phase-follows_transitions agents alert_data s),
          )))
]

-- Five rounds of the loop are enough for any alert and any agents, raising ones included: the
-- orchestration comes to an end in the phase `complete`.
pub orchestrate-total :
    (fuel : ℕ) (agents : Dict String Agent) (alert_id tenant_id : String) (alert_data : Fields)
    → 5 ≤ fuel
    → (t : OscarState) × (orchestrate fuel agents alert_id tenant_id alert_data ≡ some t)
      × (t.phase ≡ complete)
unfolding orchestrate
orchestrate-total fuel agents alert_id tenant_id alert_data h =
    phases-total fuel agents alert_data (init alert_id tenant_id) h
