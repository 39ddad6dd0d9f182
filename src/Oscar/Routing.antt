-- ===== src/Oscar/Routing.antt =====
-- The route that an alert takes, as a function of what triage found.
use cobalto.Base.{◌≡◌, refl, String, Option, none, some, List, [], ◌∷◌, ◌++◌, map, string_eq}
use cobalto.Base.Dict.{Dict, lookup}
use cobalto.Base.Json.{Fields, end}
use cobalto.Oscar.{
  Phase, orient, strategize, collect, analyze, report, complete, Agent, OscarState, PhaseEntry,
  Ended, returned, Outcome, finished, advance_phase, phase_orient, phase_strategize, phase_collect,
  phase_analyze, phase_report, dispatch, close_phase, execute_phase, run_agent, triage_with,
  add_history, alert_input,
}
use mathlib.Core.List.{map-append}

abbrev pub phase_of : PhaseEntry → Phase
phase_of e = e.phase

abbrev pub visited : OscarState → List Phase
visited s = map phase_of s.history

-- However a phase ends, it has left the history alone.
abbrev KeepsHistory : List PhaseEntry → Ended → Type 0
KeepsHistory h (returned s) = s.history ≡ h
KeepsHistory h (Ended.raised e s) = s.history ≡ h

run_agent-KeepsHistory :
    (h : List PhaseEntry) (o : Option Agent) (input : Fields)
    (store : Fields → OscarState → OscarState) (s : OscarState) (rest : OscarState → Ended)
    → s.history ≡ h
    → ((output : Fields) → (store output s).history ≡ h)
    → ((q : OscarState) → q.history ≡ h → KeepsHistory h (rest q))
    → KeepsHistory h (run_agent o input store s rest)
unfolding run_agent
run_agent-KeepsHistory h none input store s rest e hs hr = hr s e
run_agent-KeepsHistory h (some agent) input store s rest e hs hr = go (agent input)
  where
    go :
        (r : Outcome)
        → KeepsHistory h (elim r [
          | finished output ↦ rest (store output s)
          | Outcome.raised m ↦ Ended.raised m s
        ])
    go (finished output) = hr (store output s) (hs output)
    go (Outcome.raised m) = e

triage-KeepsHistory :
    (o : Option Agent) (alert_data : Fields) (s : OscarState)
    → KeepsHistory s.history (triage_with o alert_data s)
unfolding triage_with advance_phase
triage-KeepsHistory none alert_data s = refl
triage-KeepsHistory (some agent) alert_data s =
    run_agent-KeepsHistory s.history (some agent) (alert_input alert_data s end)
      (λ output q. record q { triage_result = some output }) s (λ q. returned (advance_phase q))
      refl (λ output. refl) (λ q h. h)

dispatch-KeepsHistory :
    (p : Phase) (agents : Dict String Agent) (alert_data : Fields) (s : OscarState)
    → KeepsHistory s.history (dispatch p agents alert_data s)
unfolding dispatch
dispatch-KeepsHistory orient agents alert_data s =
    unfold phase_orient in
    triage-KeepsHistory (lookup "silver-triage" agents) alert_data
      (record s { phase = orient; current_agent = some "silver-triage" })
dispatch-KeepsHistory strategize agents alert_data s = unfold phase_strategize in refl
dispatch-KeepsHistory collect agents alert_data s =
    unfold phase_collect advance_phase in
    run_agent-KeepsHistory s.history (lookup "silver-analysis" agents) _ _ _ _ refl (λ output. refl)
      λ q h.
        run_agent-KeepsHistory s.history (lookup "silver-intel" agents) _ _ _ _ h (λ output. h)
          (λ r hr. hr)
dispatch-KeepsHistory analyze agents alert_data s = unfold phase_analyze advance_phase in refl
dispatch-KeepsHistory report agents alert_data s =
    unfold phase_report in
    run_agent-KeepsHistory s.history (lookup "silver-response" agents) _ _ _ _ refl (λ output. refl)
      λ q h.
        run_agent-KeepsHistory s.history (lookup "silver-docs" agents) _ _ _ _ h (λ output. h)
          (λ r hr. hr)
dispatch-KeepsHistory complete agents alert_data s = refl

close_phase-visited :
    (p : Phase) (h : List PhaseEntry) (e : Ended)
    → KeepsHistory h e
    → visited (close_phase p e) ≡ map phase_of h ++ p ∷ []
unfolding close_phase add_history advance_phase
close_phase-visited p h (returned s) e = simp (e, map-append)
close_phase-visited p h (Ended.raised m s) e = simp (e, map-append)

-- Executing a phase adds that phase to the history, however it ends.
pub execute_phase-visited :
    (agents : Dict String Agent) (alert_data : Fields) (s : OscarState)
    → visited (execute_phase agents alert_data s) ≡ visited s ++ s.phase ∷ []
unfolding execute_phase
execute_phase-visited agents alert_data s =
    close_phase-visited s.phase s.history (dispatch s.phase agents alert_data s)
      (dispatch-KeepsHistory s.phase agents alert_data s)
