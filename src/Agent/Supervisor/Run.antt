-- ===== src/Agent/Supervisor/Run.antt =====
-- The rest of SupervisorAgent: routing by the registry, the legacy routing, and `run`.
use cobalto.Base.{
  ℕ, ◌+◌, ◌*◌, max, String, Bool, ◌&&◌, ◌||◌, Option, none, some, List, [], ◌∷◌, ◌++◌, length, ltb,
  leb, take, nat_eq, string_eq, ◌==◌, if◌then◌else◌,
}
use cobalto.Base.Dict.{Dict, lookup}
use cobalto.Base.Json.{
  Value, str, null, bool, num, decimal, list, obj, Fields, get_field_or, truthy,
}
use cobalto.Agent.Registry.{
  AgentCapability, alert_parsing, severity_assessment, ioc_extraction, ioc_enrichment,
  deep_analysis, attack_narrative, mitre_mapping, risk_assessment, log_correlation, opencti_query,
  misp_correlation, threat_actor_profiling, cve_lookup, containment, remediation, notification,
  approval_gating, hypothesis_generation, search_query_building, case_creation, report_generation,
  evidence_collection, orchestration, routing, decision_making, AgentType, triage, analysis,
  threat_intel, response, threat_hunt, documentation, supervisor, Agent, Registry, find_agents,
  count,
}
use cobalto.Agent.Supervisor.{
  Reason, by_default, deep_analysis_needed, correlation_needed, medium_triage, low_triage,
  has_indicators, no_agents_found, by_registry, by_rule, Fraction, percent, RoutingDecision,
  determine_required_capabilities, bump, most_frequent, is_urgent, route_via_mapping,
}

-- `AgentCapability(text)`; `none` is its ValueError.
abbrev capability_values : Dict String AgentCapability
capability_values =
    ("alert_parsing", alert_parsing)
    ∷ ("severity_assessment", severity_assessment)
    ∷ ("ioc_extraction", ioc_extraction)
    ∷ ("ioc_enrichment", ioc_enrichment)
    ∷ ("deep_analysis", deep_analysis)
    ∷ ("attack_narrative", attack_narrative)
    ∷ ("mitre_mapping", mitre_mapping)
    ∷ ("risk_assessment", risk_assessment)
    ∷ ("log_correlation", log_correlation)
    ∷ ("opencti_query", opencti_query)
    ∷ ("misp_correlation", misp_correlation)
    ∷ ("threat_actor_profiling", threat_actor_profiling)
    ∷ ("cve_lookup", cve_lookup)
    ∷ ("containment", containment)
    ∷ ("remediation", remediation)
    ∷ ("notification", notification)
    ∷ ("approval_gating", approval_gating)
    ∷ ("hypothesis_generation", hypothesis_generation)
    ∷ ("search_query_building", search_query_building)
    ∷ ("case_creation", case_creation)
    ∷ ("report_generation", report_generation)
    ∷ ("evidence_collection", evidence_collection)
    ∷ ("orchestration", orchestration)
    ∷ ("routing", routing)
    ∷ ("decision_making", decision_making)
    ∷ []

-- `agent_type.value`
abbrev type_value : AgentType → String
type_value triage = "triage"
type_value analysis = "analysis"
type_value threat_intel = "threat_intel"
type_value response = "response"
type_value threat_hunt = "threat_hunt"
type_value documentation = "documentation"
type_value supervisor = "supervisor"

-- The counts by agent type, and the pairs that the reasons name.
abbrev pub Found : Type 0
Found = Dict String ℕ × List (String × String)

note_agents : String → List Agent → Found → Found
unfolding bump
note_agents cap [] found = found
note_agents cap (agent ∷ agents) (counts, reasons) =
    let name = type_value agent.agent_type in
    note_agents cap agents (bump name counts, reasons ++ (cap, name) ∷ [])

note_capability : String → Option AgentCapability → Registry → Found → Found
unfolding note_agents
note_capability text none registry found = found
note_capability text (some cap) registry found = note_agents text (find_agents cap registry) found

unfoldable pub found_agents : List String → Registry → Found → Found
unfolding note_capability
found_agents [] registry found = found
found_agents (cap ∷ caps) registry found =
    found_agents caps registry (note_capability cap (lookup cap capability_values) registry found)

count_in : Option ℕ → ℕ
count_in none = 0
count_in (some n) = n

-- `min(0.95, 0.5 + match_score * 0.4)`, where the score is `matches / total`
unfoldable pub registry_confidence : ℕ → ℕ → Fraction
registry_confidence matches total =
    if leb (45 * total) (40 * matches)
    then percent 95
    else record { part = 50 * total + 40 * matches; over = 100 * total }

decide_found : ℕ → Found → RoutingDecision
unfolding most_frequent registry_confidence count_in
decide_found total ([], reasons) = record {
  next_agent = "triage";
  reason = no_agents_found;
  confidence = percent 50;
  priority = 0;
}
decide_found total ((name, n) ∷ counts, reasons) =
    let best = most_frequent name n counts in
    record {
      next_agent = best;
      reason = by_registry (take 3 reasons);
      confidence = registry_confidence (count_in (lookup best ((name, n) ∷ counts))) (max total 1);
      priority = 0;
    }

unfoldable pub route_via_registry : List String → Registry → RoutingDecision
unfolding decide_found found_agents
route_via_registry required registry =
    decide_found (length required) (found_agents required registry ([], []))

unfoldable pub route_by_capabilities :
    Option Registry → List String → String → Bool → RoutingDecision
unfolding route_via_registry route_via_mapping
route_by_capabilities none required severity has_iocs = route_via_mapping required severity has_iocs
route_by_capabilities (some registry) required severity has_iocs =
    if ltb 0 (count registry)
    then route_via_registry required registry
    else route_via_mapping required severity has_iocs

-- A legacy rule: its target and its priority, by its condition.
pub record RoutingRule : Type 0 where
  pub target_agent : String
  pub priority : ℕ

unfoldable pub legacy_decision : String → String → Reason → ℕ → RoutingDecision
unfolding is_urgent
legacy_decision severity agent reason confidence = record {
  next_agent = agent;
  reason = reason;
  confidence = percent confidence;
  priority = if is_urgent severity then 0 else 1;
}

-- The tests on severity and indicators.
unfoldable pub legacy_choice : String → Bool → RoutingDecision
unfolding is_urgent legacy_decision
legacy_choice severity has_iocs =
    let decide = legacy_decision severity in
    let indicators = decide "threat_intel" has_indicators 85 in
    if is_urgent severity
    then decide "analysis" deep_analysis_needed 90
    else (if severity == "medium"
        then (if has_iocs
            then decide "threat_intel" correlation_needed 85
            else decide "triage" medium_triage 80)
        else (if has_iocs
            then indicators
            else (if severity == "low"
                then decide "triage" low_triage 70
                else decide "triage" by_default 80)))

-- The first rule that matches and has a priority above 0.
unfoldable pub apply_rules :
    (String → Bool) → List (String × RoutingRule) → RoutingDecision → RoutingDecision
apply_rules holds [] decision = decision
apply_rules holds ((condition, rule) ∷ rules) decision =
    let later = apply_rules holds rules decision in
    if holds condition && ltb 0 rule.priority
    then record decision {
      next_agent = rule.target_agent;
      reason = by_rule condition;
      confidence = percent 90;
    }
    else later

-- `holds` is `_evaluate_condition` at the alert.
unfoldable pub determine_routing :
    (String → Bool) → List (String × RoutingRule) → String → Bool → RoutingDecision
unfolding apply_rules legacy_choice
determine_routing holds rules severity has_iocs =
    apply_rules holds rules (legacy_choice severity has_iocs)

abbrev patterns : List (String × String)
patterns =
    ("brute", "brute-force")
    ∷ ("malware", "malware")
    ∷ ("ransomware", "ransomware")
    ∷ ("phishing", "phishing")
    ∷ ("exfiltration", "data-exfiltration")
    ∷ ("lateral", "lateral-movement")
    ∷ ("recon", "recon")
    ∷ ("policy", "policy-violation")
    ∷ []

first_pattern : (String → Bool) → List (String × String) → String
first_pattern in_text [] = "unknown"
first_pattern in_text ((pattern, alert_type) ∷ rest) =
    let later = first_pattern in_text rest in if in_text pattern then alert_type else later

-- `.lower()` of a value; `none` is the AttributeError of one that is no text.
lower_value : (String → String) → Value → Option String
lower_value lower (str s) = some (lower s)
lower_value lower null = none
lower_value lower (bool b) = none
lower_value lower (num n) = none
lower_value lower (decimal m k) = none
lower_value lower (list vs) = none
lower_value lower (obj fs) = none

type_of_text : (String → String → Bool) → Option String → Option String
unfolding first_pattern
type_of_text mentions none = none
type_of_text mentions (some text) = some (first_pattern (λ pattern. mentions pattern text) patterns)

unfoldable pub detect_alert_type :
    (String → String) → (String → String → Bool) → Fields → Option String
unfolding type_of_text lower_value
detect_alert_type lower mentions alert =
    type_of_text mentions (lower_value lower (get_field_or "rule_description" (str "") alert))

unfoldable pub alert_severity : (String → String) → Fields → Option String
unfolding lower_value
alert_severity lower alert = lower_value lower (get_field_or "severity" (str "informational") alert)

unfoldable pub alert_has_iocs : Fields → Bool
alert_has_iocs alert =
    truthy (get_field_or "source_ip" null alert) || truthy (get_field_or "indicators" null alert)

-- The output of a run.
pub record Routed : Type 0 where
  pub routing : RoutingDecision
  pub severity : String
  pub alert_type : String
  pub has_iocs : Bool
  pub required_capabilities : List String

unfoldable pub run_on : Option Registry → Option String → Option String → Bool → Option Routed
unfolding determine_required_capabilities route_by_capabilities
run_on registry none severity has_iocs = none
run_on registry (some alert_type) none has_iocs = none
run_on registry (some alert_type) (some severity) has_iocs =
    let required = determine_required_capabilities severity alert_type has_iocs in
    some (record {
      routing = route_by_capabilities registry required severity has_iocs;
      severity = severity;
      alert_type = alert_type;
      has_iocs = has_iocs;
      required_capabilities = required;
    })

-- `none` is the failed result of an alert whose description or severity is no text.
unfoldable pub run :
    (String → String) → (String → String → Bool) → Option Registry → Fields → Option Routed
unfolding run_on detect_alert_type alert_severity alert_has_iocs
run lower mentions registry alert =
    run_on registry (detect_alert_type lower mentions alert) (alert_severity lower alert)
      (alert_has_iocs alert)
