-- ===== src/Oscar/Route.antt =====
-- The whole route of an orchestration.
use cobalto.Base.{
  ℕ, zero, suc, ◌-◌, ◌≤◌, ◌≡◌, refl, ◌∙◌, ap, subst, inl, inr, String, Bool, true, false, ◌||◌,
  Option, none, some, List, [], ◌∷◌, ◌++◌, In, arith, string_eq, if◌then◌else◌, Bool-cases,
}
use cobalto.Base.Dict.{Dict, lookup}
use cobalto.Base.Json.{Fields, Value, is_text, end, field, obj, str}
use cobalto.Oscar.{
  Phase, orient, strategize, collect, analyze, report, complete, Agent, OscarState, Ended, returned,
  Outcome, finished, oscar_transitions, advance_phase, phase_orient, phase_strategize, dispatch,
  close_phase, execute_phase, is_complete, phases, init, orchestrate, run_agent, next_phase,
  severity_of, basic_triage, triage_with, add_history, alert_input,
}
use cobalto.Oscar.Phases.{execute_phase-follows_transitions}
use cobalto.Oscar.Routing.{visited, execute_phase-visited}

-- The severities that call for evidence before the report.
abbrev pub needs_analysis : Value → Bool
needs_analysis severity =
    is_text "critical" severity || (is_text "high" severity || is_text "medium" severity)

abbrev pub full_route : Value → List Phase
full_route severity =
    if needs_analysis severity
    then orient ∷ strategize ∷ collect ∷ analyze ∷ report ∷ []
    else orient ∷ strategize ∷ report ∷ []

next_deep : (v : Value) → needs_analysis v ≡ true → next_phase v ≡ collect
unfolding next_phase
next_deep v h = ground arith

next_shallow : (v : Value) → needs_analysis v ≡ false → next_phase v ≡ report
unfolding next_phase
next_shallow v h = ground arith

only : {p q : Phase} → In p (q ∷ []) → p ≡ q
only (inl e) = e
only (inr h) = absurd h

module _ (agents : Dict String Agent) (alert_data : Fields) where
  -- With this fuel the loop ends, having visited these phases.
  abbrev Ends : ℕ → OscarState → List Phase → Type 0
  Ends fuel s route =
      (t : OscarState) × (phases fuel agents alert_data s ≡ some t) × (visited t ≡ route)

  phases_complete :
      (fuel : ℕ) (s : OscarState)
      → is_complete s.phase ≡ true
      → phases fuel agents alert_data s ≡ some s
  unfolding phases
  phases_complete zero s h = rw (h, phases)
  phases_complete (suc fuel) s h = rw (h, phases)

  phases-suc :
      (fuel : ℕ) (s : OscarState)
      → is_complete s.phase ≡ false
      → phases (suc fuel) agents alert_data s
        ≡ phases fuel agents alert_data (execute_phase agents alert_data s)
  unfolding phases
  phases-suc fuel s h = rw (h, phases)

  Ends-complete :
      (fuel : ℕ) (s : OscarState) {route : List Phase}
      → s.phase ≡ complete
      → visited s ≡ route
      → Ends fuel s route
  unfolding is_complete
  Ends-complete fuel s h v = (s, phases_complete fuel s (ap is_complete h), v)

  -- One round of the loop.
  Ends-round :
      (fuel : ℕ) (s : OscarState) (p : Phase) {done route : List Phase}
      → s.phase ≡ p
      → is_complete p ≡ false
      → visited s ≡ done
      → ((q : OscarState)
          → In q.phase (oscar_transitions p)
          → visited q ≡ done ++ p ∷ []
          → q ≡ execute_phase agents alert_data s
          → Ends fuel q route)
      → Ends (suc fuel) s route
  Ends-round fuel s p h more v rest =
      let q = execute_phase agents alert_data s in
      let (t, ran, route) =
        rest q
          (subst (λ x. In q.phase (oscar_transitions x)) h
            (execute_phase-follows_transitions agents alert_data s))
          (execute_phase-visited agents alert_data s ∙ cc (v, h)) refl in
      (t, phases-suc fuel s (ap is_complete h ∙ more) ∙ ran, route)

  -- From each phase on, the loop runs through the phases that follow it.
  Ends-report :
      (fuel : ℕ) (s : OscarState) {done : List Phase}
      → s.phase ≡ report
      → visited s ≡ done
      → Ends (suc fuel) s (done ++ report ∷ [])
  unfolding oscar_transitions is_complete
  Ends-report fuel s h v =
      Ends-round fuel s report h refl v (λ q i w e. Ends-complete fuel q (only i) w)

  Ends-analyze :
      (fuel : ℕ) (s : OscarState) {done : List Phase}
      → s.phase ≡ analyze
      → visited s ≡ done
      → Ends (suc (suc fuel)) s ((done ++ analyze ∷ []) ++ report ∷ [])
  unfolding oscar_transitions is_complete
  Ends-analyze fuel s h v =
      Ends-round (suc fuel) s analyze h refl v (λ q i w e. Ends-report fuel q (only i) w)

  Ends-collect :
      (fuel : ℕ) (s : OscarState) {done : List Phase}
      → s.phase ≡ collect
      → visited s ≡ done
      → Ends (suc (suc (suc fuel))) s (((done ++ collect ∷ []) ++ analyze ∷ []) ++ report ∷ [])
  unfolding oscar_transitions is_complete
  Ends-collect fuel s h v =
      Ends-round (suc (suc fuel)) s collect h refl v (λ q i w e. Ends-analyze fuel q (only i) w)

  dispatch_strategize :
      (p : Phase) (s : OscarState)
      → p ≡ strategize
      → (close_phase p (dispatch p agents alert_data s)).phase
        ≡ next_phase (severity_of s.triage_result)
  unfolding dispatch phase_strategize close_phase add_history
  dispatch_strategize p s h = rw h refl

  strategize-next :
      (s : OscarState)
      → s.phase ≡ strategize
      → (execute_phase agents alert_data s).phase ≡ next_phase (severity_of s.triage_result)
  unfolding execute_phase
  strategize-next s h = dispatch_strategize s.phase s h

  Ends-strategize :
      (fuel : ℕ) (s : OscarState)
      → s.phase ≡ strategize
      → visited s ≡ orient ∷ []
      → Ends (suc (suc (suc (suc fuel)))) s (full_route (severity_of s.triage_result))
  unfolding oscar_transitions is_complete
  Ends-strategize fuel s h v = Ends-round (suc (suc (suc fuel))) s strategize h refl v λ q i w e.
      elim (Bool-cases (needs_analysis (severity_of s.triage_result))) [
        | inl deep ↦ rw deep (
            Ends-collect fuel q
              (ap (λ (x : OscarState). x.phase) e ∙ strategize-next s h ∙ next_deep _ deep) w)
        | inr shallow ↦ rw shallow (
            Ends-report (suc (suc fuel)) q
              (ap (λ (x : OscarState). x.phase) e ∙ strategize-next s h ∙ next_shallow _ shallow) w)
      ]

-- What triage leaves in the state: the output of the registered triage agent, nothing if it raised,
-- and the fallback if there is none.
abbrev pub triaged : Option Agent → String → String → Fields → Option Fields
triaged none alert_id tenant_id alert_data =
    some (basic_triage alert_data (init alert_id tenant_id))
triaged (some agent) alert_id tenant_id alert_data =
    elim (agent (
      field "alert" (obj alert_data)
        (field "alert_id" (str alert_id) (field "tenant_id" (str tenant_id) end)))) [
          | finished output ↦ some output
          | Outcome.raised e ↦ none
        ]

module _ (alert_id tenant_id : String) (alert_data : Fields) where
  triage-triaged :
      (o : Option Agent)
      → (close_phase orient (
          triage_with o alert_data (record (init alert_id tenant_id) {
            phase = orient;
            current_agent = some "silver-triage";
          }))).triage_result
        ≡ triaged o alert_id tenant_id alert_data
  unfolding triage_with run_agent close_phase advance_phase add_history alert_input basic_triage
  triage-triaged none = refl
  triage-triaged (some agent) =
      elim (agent (
          field "alert" (obj alert_data)
            (field "alert_id" (str alert_id) (field "tenant_id" (str tenant_id) end))))
        as (λ r.
          (close_phase orient (elim r [
            | finished output ↦ returned (
                advance_phase (record (init alert_id tenant_id) {
                  phase = orient;
                  current_agent = some "silver-triage";
                  triage_result = some output;
                }))
            | Outcome.raised e ↦ Ended.raised e (record (init alert_id tenant_id) {
              phase = orient;
              current_agent = some "silver-triage";
            })
          ])).triage_result
          ≡ elim r [ finished output ↦ some output | Outcome.raised e ↦ none ]) [
            | finished output ↦ refl
            | Outcome.raised e ↦ refl
          ]

  orient-triaged :
      (agents : Dict String Agent)
      → (execute_phase agents alert_data (init alert_id tenant_id)).triage_result
        ≡ triaged (lookup "silver-triage" agents) alert_id tenant_id alert_data
  unfolding execute_phase dispatch phase_orient
  orient-triaged agents = triage-triaged (lookup "silver-triage" agents)

-- With five rounds or more the orchestration ends, and its history is: orient, strategize, then
-- collect, analyze and report if triage left the severity critical, high or medium, and only report
-- otherwise, a triage agent that raised included, whatever the other agents return or raise.
pub orchestrate_route :
    (fuel : ℕ) (agents : Dict String Agent) (alert_id tenant_id : String) (alert_data : Fields)
    → 5 ≤ fuel
    → (t : OscarState) × (orchestrate fuel agents alert_id tenant_id alert_data ≡ some t)
      × (visited t
          ≡ full_route
              (severity_of (triaged (lookup "silver-triage" agents) alert_id tenant_id alert_data)))
unfolding orchestrate oscar_transitions is_complete
orchestrate_route fuel agents alert_id tenant_id alert_data h =
    let start = init alert_id tenant_id in
    let route =
      full_route
        (severity_of (triaged (lookup "silver-triage" agents) alert_id tenant_id alert_data)) in
    let go : Ends agents alert_data (suc (suc (suc (suc (suc (fuel - 5)))))) start route =
      Ends-round agents alert_data (suc (suc (suc (suc (fuel - 5))))) start orient refl refl refl
        λ q i w e.
          let r : Ends agents alert_data (suc (suc (suc (suc (fuel - 5))))) q
              (full_route (severity_of q.triage_result)) =
            Ends-strategize agents alert_data (fuel - 5) q (only i) w in
          subst
            (λ x.
              Ends agents alert_data (suc (suc (suc (suc (fuel - 5))))) q
                (full_route (severity_of x)))
            (ap (λ (x : OscarState). x.triage_result) e
              ∙ orient-triaged alert_id tenant_id alert_data agents)
            r in
    subst (λ n. Ends agents alert_data n start route) (omega arith) go

-- If the triage agent raises, the alert is routed as an informational one, whatever its severity:
-- no evidence is collected or analysed.
pub triage_failure_skips_analysis :
    (fuel : ℕ) (agents : Dict String Agent) (alert_id tenant_id : String) (alert_data : Fields)
    (agent : Agent) (message : String)
    → 5 ≤ fuel
    → lookup "silver-triage" agents ≡ some agent
    → agent (
        field "alert"
          (obj alert_data)
          (field "alert_id" (str alert_id) (field "tenant_id" (str tenant_id) end)))
      ≡ Outcome.raised message
    → (t : OscarState) × (orchestrate fuel agents alert_id tenant_id alert_data ≡ some t)
      × (visited t ≡ orient ∷ strategize ∷ report ∷ [])
unfolding severity_of is_text
triage_failure_skips_analysis fuel agents alert_id tenant_id alert_data agent message h found
      failed =
    let (t, ran, route) = orchestrate_route fuel agents alert_id tenant_id alert_data h in
    (t, ran, route ∙ rw (found, failed) refl)
