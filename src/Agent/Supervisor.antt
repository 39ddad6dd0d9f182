-- ===== src/Agent/Supervisor.antt =====
-- class SupervisorAgent of frameworks/agent-sdk/src/cobalto/agent/supervisor.py: which agent an
-- alert is routed to. `str.lower`, the test `pattern in text` and the condition parser of the
-- legacy rules are arguments; a confidence is a fraction.
pub mod Run
pub mod Routing
mod Tests
use cobalto.Base.{
  ℕ, zero, suc, ◌+◌, ◌*◌, max, String, Bool, true, false, ◌&&◌, ◌||◌, not, Option, none, some, List,
  [], ◌∷◌, ◌++◌, contains, length, ltb, leb, filter, take, nat_eq, string_eq, ◌==◌, if◌then◌else◌,
  DecEq, nat_beq,
}
use cobalto.Base.Dict.{Dict, lookup, insert, has_key}
use cobalto.Base.Json.{Value, str, null, Fields, end, get_field_or, truthy}
use cobalto.Agent.Registry.{
  AgentCapability, alert_parsing, severity_assessment, ioc_extraction, ioc_enrichment,
  deep_analysis, attack_narrative, mitre_mapping, risk_assessment, log_correlation, opencti_query,
  misp_correlation, threat_actor_profiling, cve_lookup, containment, remediation, notification,
  approval_gating, hypothesis_generation, search_query_building, case_creation, report_generation,
  evidence_collection, orchestration, routing, decision_making, AgentType, triage, analysis,
  threat_intel, response, threat_hunt, documentation, supervisor, Agent, Registry, find_agents,
  count,
}

abbrev pub severity_to_capabilities : Dict String (List String)
severity_to_capabilities =
    ("critical", "severity_assessment" ∷ "deep_analysis" ∷ "containment" ∷ "remediation" ∷ [])
    ∷ ("high", "severity_assessment" ∷ "deep_analysis" ∷ "containment" ∷ [])
    ∷ ("medium", "ioc_enrichment" ∷ "log_correlation" ∷ [])
    ∷ ("low", "alert_parsing" ∷ [])
    ∷ ("informational", "alert_parsing" ∷ [])
    ∷ []

abbrev pub alert_type_capabilities : Dict String (List String)
alert_type_capabilities =
    ("brute-force", "ioc_enrichment" ∷ "log_correlation" ∷ [])
    ∷ ("malware", "deep_analysis" ∷ "threat_actor_profiling" ∷ "mitre_mapping" ∷ [])
    ∷ ("ransomware", "deep_analysis" ∷ "containment" ∷ "remediation" ∷ "mitre_mapping" ∷ [])
    ∷ ("phishing", "ioc_enrichment" ∷ "threat_actor_profiling" ∷ [])
    ∷ ("data-exfiltration", "deep_analysis" ∷ "containment" ∷ "log_correlation" ∷ [])
    ∷ ("lateral-movement", "deep_analysis" ∷ "log_correlation" ∷ "mitre_mapping" ∷ [])
    ∷ ("recon", "alert_parsing" ∷ "ioc_enrichment" ∷ [])
    ∷ ("policy-violation", "alert_parsing" ∷ "notification" ∷ [])
    ∷ []

abbrev pub capability_to_agent : Dict String String
capability_to_agent =
    ("alert_parsing", "triage")
    ∷ ("severity_assessment", "triage")
    ∷ ("ioc_extraction", "triage")
    ∷ ("ioc_enrichment", "triage")
    ∷ ("deep_analysis", "analysis")
    ∷ ("attack_narrative", "analysis")
    ∷ ("mitre_mapping", "analysis")
    ∷ ("risk_assessment", "analysis")
    ∷ ("log_correlation", "analysis")
    ∷ ("opencti_query", "threat_intel")
    ∷ ("misp_correlation", "threat_intel")
    ∷ ("threat_actor_profiling", "threat_intel")
    ∷ ("cve_lookup", "threat_intel")
    ∷ ("containment", "response")
    ∷ ("remediation", "response")
    ∷ ("notification", "response")
    ∷ ("approval_gating", "response")
    ∷ ("case_creation", "documentation")
    ∷ ("report_generation", "documentation")
    ∷ ("evidence_collection", "documentation")
    ∷ []

-- What the text of a decision's reason is built from.
pub data Reason : Type 0 where
  by_default deep_analysis_needed correlation_needed medium_triage low_triage has_indicators :
      Reason
  no_agents_found : Reason
  by_capability : String → List String → Reason
  by_registry : List (String × String) → Reason
  by_rule : String → Reason

pub record Fraction : Type 0 where
  pub over : ℕ
  pub part : ℕ

abbrev pub percent : ℕ → Fraction
percent n = record { part = n; over = 100 }

-- But for the metadata.
pub record RoutingDecision : Type 0 where
  pub next_agent : String
  pub reason : Reason
  pub confidence : Fraction
  pub priority : ℕ

texts_or : Option (List String) → List String → List String
texts_or none d = d
texts_or (some caps) d = caps

-- `for cap in caps: if cap not in required: required.append(cap)`
unfoldable pub add_missing : List String → List String → List String
add_missing [] required = required
add_missing (cap ∷ caps) required =
    add_missing caps (if contains cap required then required else required ++ cap ∷ [])

unfoldable pub determine_required_capabilities : String → String → Bool → List String
unfolding texts_or add_missing
determine_required_capabilities severity alert_type has_iocs =
    let base = texts_or (lookup severity severity_to_capabilities) ("alert_parsing" ∷ []) in
    let required = add_missing (texts_or (lookup alert_type alert_type_capabilities) []) base in
    let enriched = add_missing ("ioc_enrichment" ∷ "opencti_query" ∷ []) required in
    if has_iocs then enriched else required

-- `d[name] = d.get(name, 0) + 1`
count_or : Option ℕ → ℕ
count_or none = 0
count_or (some n) = n

unfoldable pub bump : String → Dict String ℕ → Dict String ℕ
unfolding count_or
bump name d = insert name (count_or (lookup name d) + 1) d

bump_known : Option String → Dict String ℕ → Dict String ℕ
unfolding bump
bump_known none d = d
bump_known (some name) d = bump name d

unfoldable pub candidate_agents : List String → Dict String ℕ → Dict String ℕ
unfolding bump_known
candidate_agents [] d = d
candidate_agents (cap ∷ caps) d =
    candidate_agents caps (bump_known (lookup cap capability_to_agent) d)

-- `max(d, key=d.__getitem__)`: the first of the most frequent.
unfoldable pub most_frequent : String → ℕ → Dict String ℕ → String
most_frequent name n [] = name
most_frequent name n ((other, m) ∷ d) =
    let best_other = most_frequent other m d in
    let best = most_frequent name n d in if ltb n m then best_other else best

unfoldable pub is_urgent : String → Bool
is_urgent severity = severity == "critical" || severity == "high"

unfoldable pub override_urgent : String → Dict String ℕ → String → String
unfolding is_urgent
override_urgent severity candidates best =
    if is_urgent severity
    then (if has_key "analysis" candidates
        then "analysis"
        else (if has_key "response" candidates then "response" else best))
    else best

unfoldable pub override_iocs : Bool → Dict String ℕ → String → String
override_iocs has_iocs candidates best =
    if has_iocs && best == "triage"
    then (if has_key "threat_intel" candidates then "threat_intel" else best)
    else best

is_agent : String → Option String → Bool
is_agent name none = false
is_agent name (some agent) = agent == name

-- The capabilities of the reason, at most three.
matched_caps : String → List String → List String
unfolding is_agent
matched_caps agent required =
    take 3 (filter (λ (cap : String). is_agent agent (lookup cap capability_to_agent)) required)

route_candidates : List String → String → Bool → Dict String ℕ → RoutingDecision
unfolding most_frequent override_urgent override_iocs matched_caps
route_candidates required severity has_iocs [] = record {
  next_agent = "triage";
  reason = by_default;
  confidence = percent 80;
  priority = 0;
}
route_candidates required severity has_iocs ((name, n) ∷ d) =
    let candidates = (name, n) ∷ d in
    let best =
      override_iocs has_iocs candidates
        (override_urgent severity candidates (most_frequent name n d)) in
    record {
      next_agent = best;
      reason = by_capability best (matched_caps best required);
      confidence = percent 85;
      priority = 0;
    }

-- `severity` and `has_iocs` are what the alert gives.
unfoldable pub route_via_mapping : List String → String → Bool → RoutingDecision
unfolding route_candidates candidate_agents
route_via_mapping required severity has_iocs =
    route_candidates required severity has_iocs (candidate_agents required [])
