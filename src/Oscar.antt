-- ===== src/Oscar.antt =====
-- class MagentaSupervisor of services/langgraph/agents/supervisor.py: the OSCAR state machine.
-- An agent is what its `run` does to an input; the timestamps of the history are not modelled.
pub mod Phases
pub mod Routing
pub mod Route
mod Tests
use cobalto.Base.{
  ℕ, zero, suc, String, Bool, true, false, Option, none, some, List, [], ◌∷◌, ◌++◌, length,
  string_eq, ◌||◌, if◌then◌else◌,
}
use cobalto.Base.Dict.{Dict, lookup, insert}
use cobalto.Base.Json.{
  Value, null, num, str, decimal, list, obj, Items, nil, cons, Fields, end, field, get_field,
  get_field_or, set_field, is_text,
}

pub data Phase : Type 0 where
  orient strategize collect analyze report complete : Phase

-- The output of `AgentResult`, or an exception.
pub data Outcome : Type 0 where
  finished : Fields → Outcome
  raised : String → Outcome

abbrev pub Agent : Type 0
Agent = Fields → Outcome

pub data PhaseStatus : Type 0 where
  completed : PhaseStatus
  failed : String → PhaseStatus

-- An entry of `history`, and in `errors` the phase and message of "Phase … failed: …".
pub record PhaseEntry : Type 0 where
  pub phase : Phase
  pub agent : Value
  pub status : PhaseStatus

pub record OscarState : Type 0 where
  pub phase : Phase
  pub alert_id : String
  pub tenant_id : String
  pub triage_result : Option Fields
  pub analysis_result : Option Fields
  pub intel_result : Option Fields
  pub response_result : Option Fields
  pub documentation_result : Option Fields
  pub current_agent : Option String
  pub history : List PhaseEntry
  pub errors : List (Phase × String)

unfoldable pub oscar_transitions : Phase → List Phase
oscar_transitions orient = strategize ∷ []
oscar_transitions strategize = collect ∷ report ∷ []
oscar_transitions collect = analyze ∷ []
oscar_transitions analyze = report ∷ []
oscar_transitions report = complete ∷ []
oscar_transitions complete = complete ∷ []

unfoldable pub phase_agents : Phase → Value
phase_agents orient = str "silver-triage"
phase_agents strategize = null
phase_agents collect = list (cons (str "silver-analysis") (cons (str "silver-intel") nil))
phase_agents analyze = str "silver-analysis"
phase_agents report = list (cons (str "silver-docs") (cons (str "silver-response") nil))
phase_agents complete = null

first_phase : List Phase → Phase
first_phase [] = complete
first_phase (p ∷ ps) = p

unfoldable pub advance_phase : OscarState → OscarState
unfolding oscar_transitions first_phase
advance_phase s = record s { phase = first_phase (oscar_transitions s.phase) }

-- A phase ends normally or with the exception that it raised; what it wrote before stays.
pub data Ended : Type 0 where
  returned : OscarState → Ended
  raised : String → OscarState → Ended

-- An optional dict as a value of an agent's input.
dict_or_none : Option Fields → Value
dict_or_none none = null
dict_or_none (some d) = obj d

-- `agent = self._agents.get(name)`, `if agent:` run it and store its output.
run_agent :
    Option Agent
    → Fields
    → (Fields → OscarState → OscarState)
    → OscarState
    → (OscarState → Ended)
    → Ended
run_agent none input store s rest = rest s
run_agent (some agent) input store s rest = elim (agent input) [
  | finished output ↦ rest (store output s)
  | raised e ↦ Ended.raised e s
]

unfoldable pub basic_triage : Fields → OscarState → Fields
unfolding get_field_or
basic_triage alert_data s = field "alert_id" (str s.alert_id) (
    field "alert_type" (str "unknown") (
      field "severity" (get_field_or "severity" (str "informational") alert_data)
        (field "indicators" (list nil) (field "confidence" (decimal 5 1) end))))

alert_input : Fields → OscarState → Fields → Fields
alert_input alert_data s more =
    field "alert" (obj alert_data)
      (field "alert_id" (str s.alert_id) (field "tenant_id" (str s.tenant_id) more))

triage_with : Option Agent → Fields → OscarState → Ended
unfolding run_agent basic_triage advance_phase alert_input
triage_with none alert_data s =
    returned (advance_phase (record s { triage_result = some (basic_triage alert_data s) }))
triage_with (some agent) alert_data s =
    run_agent (some agent) (alert_input alert_data s end)
      (λ output q. record q { triage_result = some output }) s (λ q. returned (advance_phase q))

unfoldable pub phase_orient : Dict String Agent → Fields → OscarState → Ended
unfolding triage_with
phase_orient agents alert_data s =
    triage_with (lookup "silver-triage" agents) alert_data
      (record s { phase = orient; current_agent = some "silver-triage" })

dict_or_empty : Option Fields → Fields
dict_or_empty none = end
dict_or_empty (some d) = d

-- `triage.get("severity", "informational")`
unfoldable pub severity_of : Option Fields → Value
unfolding dict_or_empty get_field_or
severity_of triage = get_field_or "severity" (str "informational") (dict_or_empty triage)

unfoldable pub next_phase : Value → Phase
unfolding is_text
next_phase severity =
    if is_text "critical" severity || is_text "high" severity
    then collect
    else if is_text "medium" severity
    then collect
    else report

unfoldable pub phase_strategize : OscarState → Ended
unfolding severity_of next_phase
phase_strategize s = returned (record s {
  phase = next_phase (severity_of s.triage_result);
  current_agent = some "supervisor";
})

triage_input : Fields → OscarState → Fields
unfolding alert_input dict_or_none
triage_input alert_data s =
    alert_input alert_data s (field "triage_result" (dict_or_none s.triage_result) end)

unfoldable pub phase_collect : Dict String Agent → Fields → OscarState → Ended
unfolding run_agent triage_input advance_phase
phase_collect agents alert_data s =
    let s1 : OscarState = record s { phase = collect; current_agent = some "silver-analysis" } in
    run_agent (lookup "silver-analysis" agents) (triage_input alert_data s1)
      (λ output q. record q { analysis_result = some output }) s1
      λ s2.
        run_agent (lookup "silver-intel" agents) (triage_input alert_data s2)
          (λ output q. record q { intel_result = some output }) s2 λ s3. returned (advance_phase s3)

default_risk : Value
default_risk = obj (
    field "risk_score" (num 50) (
      field "risk_level" (str "medium")
        (field "risk_factors" (list (cons (str "Automated assessment") nil)) end)))

add_risk : Option Value → Fields → Fields
unfolding default_risk set_field
add_risk none d = set_field "risk_assessment" default_risk d
add_risk (some v) d = d

-- `if self._state.analysis_result:` an empty dict counts as missing.
unfoldable pub assess_risk : Option Fields → Option Fields
unfolding add_risk get_field
assess_risk none = none
assess_risk (some end) = some end
assess_risk (some (field k v d)) =
    some (add_risk (get_field "risk_assessment" (field k v d)) (field k v d))

unfoldable pub phase_analyze : OscarState → Ended
unfolding assess_risk advance_phase
phase_analyze s = returned (
    advance_phase (record s {
      phase = analyze;
      current_agent = some "silver-analysis";
      analysis_result = assess_risk s.analysis_result;
    }))

response_input : Fields → OscarState → Fields
unfolding alert_input dict_or_none
response_input alert_data s = alert_input alert_data s (
    field "analysis_result" (dict_or_none s.analysis_result)
      (field "triage_result" (dict_or_none s.triage_result) end))

docs_input : Fields → OscarState → Fields
unfolding alert_input dict_or_none
docs_input alert_data s = alert_input alert_data s (
    field "triage_result" (dict_or_none s.triage_result) (
      field "analysis_result" (dict_or_none s.analysis_result)
        (field "response_result" (dict_or_none s.response_result) end)))

unfoldable pub phase_report : Dict String Agent → Fields → OscarState → Ended
unfolding run_agent response_input docs_input
phase_report agents alert_data s =
    let s1 : OscarState = record s { phase = report; current_agent = some "silver-response" } in
    run_agent (lookup "silver-response" agents) (response_input alert_data s1)
      (λ output q. record q { response_result = some output }) s1
      λ s2.
        run_agent (lookup "silver-docs" agents) (docs_input alert_data s2)
          (λ output q. record q { documentation_result = some output }) s2
          λ s3. returned (record s3 { phase = complete })

-- The branch on the phase; `unknown_phase` is reached at `complete` alone.
unfoldable pub dispatch : Phase → Dict String Agent → Fields → OscarState → Ended
dispatch orient agents alert_data s = phase_orient agents alert_data s
dispatch strategize agents alert_data s = phase_strategize s
dispatch collect agents alert_data s = phase_collect agents alert_data s
dispatch analyze agents alert_data s = phase_analyze s
dispatch report agents alert_data s = phase_report agents alert_data s
dispatch complete agents alert_data s = returned (record s { phase = complete })

add_history : Phase → PhaseStatus → OscarState → OscarState
unfolding phase_agents
add_history p status s = record s {
  history = s.history ++ (record { phase = p; agent = phase_agents p; status = status } ∷ []);
}

unfoldable pub close_phase : Phase → Ended → OscarState
unfolding add_history advance_phase
close_phase p (returned s) = add_history p completed s
close_phase p (raised e s) =
    add_history p (failed e) (advance_phase (record s { errors = s.errors ++ (p, e) ∷ [] }))

unfoldable pub execute_phase : Dict String Agent → Fields → OscarState → OscarState
unfolding dispatch close_phase
execute_phase agents alert_data s = close_phase s.phase (dispatch s.phase agents alert_data s)

unfoldable pub is_complete : Phase → Bool
is_complete complete = true
is_complete orient = false
is_complete strategize = false
is_complete collect = false
is_complete analyze = false
is_complete report = false

-- `while self._state.phase != "complete"`, on fuel; `none` means that the fuel ran out.
unfoldable pub phases : ℕ → Dict String Agent → Fields → OscarState → Option OscarState
unfolding is_complete
phases zero agents alert_data s = if is_complete s.phase then some s else none
phases (suc fuel) agents alert_data s = elim (is_complete s.phase) [
  | true ↦ some s
  | false ↦ phases fuel agents alert_data (execute_phase agents alert_data s)
]

abbrev pub init : String → String → OscarState
init alert_id tenant_id = record {
  phase = orient;
  alert_id = alert_id;
  tenant_id = tenant_id;
  triage_result = none;
  analysis_result = none;
  intel_result = none;
  response_result = none;
  documentation_result = none;
  current_agent = none;
  history = [];
  errors = [];
}

-- The final state, of which `_compile_result` returns the fields with `"status": "completed"`.
unfoldable pub orchestrate : ℕ → Dict String Agent → String → String → Fields → Option OscarState
orchestrate fuel agents alert_id tenant_id alert_data =
    phases fuel agents alert_data (init alert_id tenant_id)
