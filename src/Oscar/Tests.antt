-- ===== src/Oscar/Tests.antt =====
-- Runs of the orchestration, and its theorems at concrete inputs.
use cobalto.Base.{◌≡◌, refl, String, some, [], ◌∷◌, In, arith, string_eq}
use cobalto.Base.Dict.{Dict, lookup}
use cobalto.Base.Json.{Fields, str, end, field, is_text}
use cobalto.Oscar.{
  orient, strategize, collect, analyze, report, complete, Agent, Outcome, finished, OscarState,
  init, execute_phase, oscar_transitions, orchestrate, severity_of,
}
use cobalto.Oscar.Phases.{execute_phase-follows_transitions, orchestrate-total}
use cobalto.Oscar.Routing.{visited}
use cobalto.Oscar.Route.{triaged, full_route, orchestrate_route}

abbrev alert : Fields
alert = field "severity" (str "critical") end

abbrev finds_critical : Agent
finds_critical input = finished (field "severity" (str "critical") end)

abbrev breaks : Agent
breaks input = Outcome.raised "timeout"

-- The analysis agent raises, and the route is the same.
abbrev agents : Dict String Agent
agents = ("silver-triage", finds_critical) ∷ ("silver-analysis", breaks) ∷ []

abbrev broken_agents : Dict String Agent
broken_agents = ("silver-triage", breaks) ∷ []

execute_phase-follows_transitions_example :
    In (execute_phase agents alert (init "a1" "t1")).phase (oscar_transitions orient)
execute_phase-follows_transitions_example =
    execute_phase-follows_transitions agents alert (init "a1" "t1")

orchestrate-total_example :
    (t : OscarState) × (orchestrate 5 agents "a1" "t1" alert ≡ some t) × (t.phase ≡ complete)
orchestrate-total_example = orchestrate-total 5 agents "a1" "t1" alert (omega arith)

orchestrate_route_example :
    (t : OscarState) × (orchestrate 5 agents "a1" "t1" alert ≡ some t)
    × (visited t
        ≡ full_route (severity_of (triaged (lookup "silver-triage" agents) "a1" "t1" alert)))
orchestrate_route_example = orchestrate_route 5 agents "a1" "t1" alert (omega arith)

deep_route :
    full_route (severity_of (triaged (lookup "silver-triage" agents) "a1" "t1" alert))
    ≡ orient ∷ strategize ∷ collect ∷ analyze ∷ report ∷ []
unfolding severity_of lookup is_text
deep_route = refl

found_broken : lookup "silver-triage" broken_agents ≡ some breaks
unfolding lookup
found_broken = refl
