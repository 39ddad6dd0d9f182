-- ===== src/Agent/Supervisor/Tests.antt =====
-- The theorems on routing at concrete inputs.
use mathlib.Core.Option
use cobalto.Base.{◌≡◌, refl, String, Bool, false, none, some, inl, ◌==◌, string_eq}
use cobalto.Base.Dict.{lookup, insert}
use cobalto.Base.Json.{str, Fields, end, field, get_field, get_field_or}
use cobalto.Agent.Supervisor.{
  alert_type_capabilities, determine_required_capabilities, route_via_mapping, is_urgent,
  add_missing, candidate_agents, most_frequent, override_urgent, override_iocs, bump,
}
use cobalto.Agent.Supervisor.Run.{Routed, run, alert_severity, detect_alert_type}
use cobalto.Agent.Supervisor.Routing.{urgent_to_analysis}

-- Text that is in lower case, and a test that finds a text only in itself.
abbrev keep : String → String
keep s = s

abbrev whole : String → String → Bool
whole pattern text = pattern == text

abbrev urgent_alert : Fields
urgent_alert = field "severity" (str "critical") (field "rule_description" (str "phishing") end)

rated : alert_severity keep urgent_alert ≡ some "critical"
unfolding alert_severity get_field_or get_field
rated = refl

typed : detect_alert_type keep whole urgent_alert ≡ some "phishing"
unfolding detect_alert_type get_field_or get_field
typed = refl

urgent_to_analysis_example :
    Option.map (λ (r : Routed). r.routing.next_agent) (run keep whole none urgent_alert)
    ≡ Option.map (λ (s : String). "analysis") (detect_alert_type keep whole urgent_alert)
urgent_to_analysis_example = urgent_to_analysis keep whole urgent_alert rated (inl refl)

unknown_type : lookup "unknown" alert_type_capabilities ≡ none
unfolding lookup
unknown_type = refl

-- With a type that asks for more they differ: the legacy routing says triage.
low_ransomware :
    (route_via_mapping
      (determine_required_capabilities "low" "ransomware" false)
      "low"
      false).next_agent
    ≡ "analysis"
unfolding determine_required_capabilities lookup insert add_missing route_via_mapping
    candidate_agents bump most_frequent override_urgent override_iocs is_urgent
low_ransomware = refl
