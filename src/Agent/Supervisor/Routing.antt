-- ===== src/Agent/Supervisor/Routing.antt =====
-- Where alerts go: the agent chosen covers what the alert asks for.
use mathlib.Core.Option
use cobalto.Base.Json.{Fields}
use cobalto.Base.{
  ℕ, ◌+◌, ◌≡◌, refl, sym, ap, subst, ◌∙◌, String, Bool, true, false, ◌||◌, Option, none, some, List,
  [], ◌∷◌, ◌++◌, contains, nat_eq, string_eq, ◌==◌, if◌then◌else◌, arith, Bool-cases, ◌⊎◌, inl, inr,
  ==_true, ==_sound,
}
use cobalto.Base.Dict.{Dict, lookup, insert, has_key, lookup-insert}
use cobalto.Agent.Supervisor.{
  severity_to_capabilities, alert_type_capabilities, capability_to_agent, add_missing,
  determine_required_capabilities, bump, count_or, bump_known, candidate_agents, most_frequent,
  is_urgent, override_urgent, override_iocs, route_candidates, route_via_mapping, texts_or,
}
use cobalto.Agent.Supervisor.Run.{
  legacy_choice, determine_routing, Routed, run, alert_severity, alert_has_iocs, detect_alert_type,
  legacy_decision, apply_rules, run_on, route_by_capabilities,
}

contains_append :
    (c : String) (xs ys : List String) → contains c xs ≡ true → contains c (xs ++ ys) ≡ true
contains_append c [] ys h = cc
contains_append c (x ∷ xs) ys h = elim (Bool-cases (c == x)) [
  | inl here ↦ rw here refl
  | inr there ↦ rw there (contains_append c xs ys (ground (arith, h, there)))
]

contains-add_missing :
    (c : String) (caps required : List String)
    → contains c required ≡ true
    → contains c (add_missing caps required) ≡ true
unfolding add_missing
contains-add_missing c [] required h = h
contains-add_missing c (cap ∷ caps) required h = elim (Bool-cases (contains cap required)) [
  | inl old ↦ rw (old, add_missing) (contains-add_missing c caps required h)
  | inr new ↦
      rw (new, add_missing)
        (contains-add_missing c caps (required ++ cap ∷ [])
          (contains_append c required (cap ∷ []) h))
]

has_key-bump :
    (k name : String) (d : Dict String ℕ) → has_key k (bump name d) ≡ (name == k || has_key k d)
unfolding bump
has_key-bump k name d =
    ap (λ (o : Option ℕ). elim o [ none ↦ false | some n ↦ true ])
      (lookup-insert name k (count_or (lookup name d) + 1) d)
    ∙ ground arith

has_key-bump_known :
    (k : String) (o : Option String) (d : Dict String ℕ)
    → has_key k d ≡ true
    → has_key k (bump_known o d) ≡ true
unfolding bump_known
has_key-bump_known k none d h = h
has_key-bump_known k (some name) d h = has_key-bump k name d ∙ ground (arith, h)

has_key-candidate_agents :
    (k : String) (caps : List String) (d : Dict String ℕ)
    → has_key k d ≡ true
    → has_key k (candidate_agents caps d) ≡ true
unfolding candidate_agents
has_key-candidate_agents k [] d h = h
has_key-candidate_agents k (cap ∷ caps) d h =
    has_key-candidate_agents k caps _ (has_key-bump_known k (lookup cap capability_to_agent) d h)

-- A required capability makes its agent a candidate.
candidate_of :
    (c agent : String) (caps : List String) (d : Dict String ℕ)
    → contains c caps ≡ true
    → lookup c capability_to_agent ≡ some agent
    → has_key agent (candidate_agents caps d) ≡ true
unfolding candidate_agents bump_known
candidate_of c agent [] d h k = cc
candidate_of c agent (cap ∷ caps) d h k = elim (Bool-cases (c == cap)) [
  | inl here ↦ rw (ap (λ (x : String). lookup x capability_to_agent) (sym (==_sound here)) ∙ k) (
      has_key-candidate_agents agent caps _
        (has_key-bump agent agent d ∙ ground (arith, ==_true agent)))
  | inr there ↦ candidate_of c agent caps _ (ground (arith, h, there)) k
]

-- What the severity alone asks for.
abbrev base_of : String → List String
base_of severity = texts_or (lookup severity severity_to_capabilities) ("alert_parsing" ∷ [])

asks_critical : contains "deep_analysis" (base_of "critical") ≡ true
unfolding texts_or lookup
asks_critical = refl

asks_high : contains "deep_analysis" (base_of "high") ≡ true
unfolding texts_or lookup
asks_high = refl

urgent_cases :
    (severity : String) → is_urgent severity ≡ true → (severity ≡ "critical") ⊎ (severity ≡ "high")
unfolding is_urgent
urgent_cases severity h = elim (Bool-cases (severity == "critical")) [
  | inl critical ↦ inl (==_sound critical)
  | inr other ↦
      let high : (severity == "high") ≡ true = ground (arith, h, other) in inr (==_sound high)
]

urgent_base :
    (severity : String)
    → is_urgent severity ≡ true
    → contains "deep_analysis" (base_of severity) ≡ true
urgent_base severity h =
    let asks = λ (s : String). contains "deep_analysis" (base_of s) ≡ true in
    elim (urgent_cases severity h) [
      | inl critical ↦ subst asks (sym critical) asks_critical
      | inr high ↦ subst asks (sym high) asks_high
    ]

-- What an urgent alert asks for, whatever its type and indicators.
needs_analysis :
    (severity alert_type : String) (has_iocs : Bool)
    → is_urgent severity ≡ true
    → contains "deep_analysis" (determine_required_capabilities severity alert_type has_iocs) ≡ true
unfolding determine_required_capabilities
needs_analysis severity alert_type false h =
    contains-add_missing "deep_analysis" (texts_or (lookup alert_type alert_type_capabilities) [])
      (base_of severity) (urgent_base severity h)
needs_analysis severity alert_type true h =
    contains-add_missing "deep_analysis" ("ioc_enrichment" ∷ "opencti_query" ∷ [])
      (add_missing (texts_or (lookup alert_type alert_type_capabilities) []) (base_of severity))
      (contains-add_missing "deep_analysis"
        (texts_or (lookup alert_type alert_type_capabilities) []) (base_of severity)
        (urgent_base severity h))

abbrev no_counts : Dict String ℕ
no_counts = []

no_candidates : has_key "analysis" no_counts ≡ false
unfolding lookup
no_candidates = refl

urgent_choice :
    (severity : String) (has_iocs : Bool) (required : List String) (d : Dict String ℕ)
    → is_urgent severity ≡ true
    → has_key "analysis" d ≡ true
    → (route_candidates required severity has_iocs d).next_agent ≡ "analysis"
unfolding route_candidates override_urgent override_iocs
urgent_choice severity has_iocs required [] h k = cc (k, no_candidates)
urgent_choice severity has_iocs required ((name, n) ∷ d) h k = rw (h, k) (ground arith)

analysis_known : lookup "deep_analysis" capability_to_agent ≡ some "analysis"
unfolding lookup
analysis_known = refl

is_urgent-cases :
    (severity : String) → (severity ≡ "critical") ⊎ (severity ≡ "high") → is_urgent severity ≡ true
unfolding is_urgent
is_urgent-cases severity (inl critical) = rw critical refl
is_urgent-cases severity (inr high) = rw high refl

urgent_typed :
    (severity : String) (has_iocs : Bool) (alert_type : Option String)
    → is_urgent severity ≡ true
    → Option.map
        (λ (r : Routed). r.routing.next_agent)
        (run_on none alert_type (some severity) has_iocs)
      ≡ Option.map (λ (s : String). "analysis") alert_type
unfolding run_on route_by_capabilities route_via_mapping
urgent_typed severity has_iocs none h = refl
urgent_typed severity has_iocs (some alert_type) h =
    let required = determine_required_capabilities severity alert_type has_iocs in
    ap some (
      urgent_choice severity has_iocs required (candidate_agents required []) h (
        candidate_of "deep_analysis" "analysis" required []
          (needs_analysis severity alert_type has_iocs h) analysis_known))

-- Without a registry an alert whose severity reads as "critical" or "high" goes to the analysis
-- agent, whatever its type and whether it has indicators, if its type can be detected, and has no
-- routing if that fails.
pub urgent_to_analysis :
    (lower : String → String) (mentions : String → String → Bool) (alert : Fields)
    {severity : String}
    → alert_severity lower alert ≡ some severity
    → (severity ≡ "critical") ⊎ (severity ≡ "high")
    → Option.map (λ (r : Routed). r.routing.next_agent) (run lower mentions none alert)
      ≡ Option.map (λ (s : String). "analysis") (detect_alert_type lower mentions alert)
unfolding run
urgent_to_analysis lower mentions alert {severity} rated h = rw rated (
    urgent_typed severity (alert_has_iocs alert) (detect_alert_type lower mentions alert)
      (is_urgent-cases severity h))

required_unknown :
    (severity alert_type : String) (has_iocs : Bool)
    → lookup alert_type alert_type_capabilities ≡ none
    → determine_required_capabilities severity alert_type has_iocs ≡ (
        if has_iocs
        then add_missing ("ioc_enrichment" ∷ "opencti_query" ∷ []) (base_of severity)
        else base_of severity)
unfolding determine_required_capabilities texts_or add_missing
required_unknown severity alert_type has_iocs h = rw h refl

-- The two ways of routing agree on an alert that has only a severity and perhaps indicators.
abbrev AgreeOn : (String → Bool) → String → Bool → List String → Type 0
AgreeOn holds severity has_iocs base =
    (route_via_mapping
      (if has_iocs then add_missing ("ioc_enrichment" ∷ "opencti_query" ∷ []) base else base)
      severity has_iocs).next_agent
    ≡ (determine_routing holds [] severity has_iocs).next_agent

module _ (holds : String → Bool) where
  agree_words :
      (b : Bool)
      → AgreeOn holds "critical" b (base_of "critical")
        × AgreeOn holds "high" b (base_of "high")
        × AgreeOn holds "medium" b (base_of "medium")
  unfolding texts_or lookup insert add_missing bump count_or bump_known candidate_agents
      most_frequent is_urgent override_urgent override_iocs route_candidates route_via_mapping
      legacy_choice legacy_decision determine_routing apply_rules
  agree_words true = (refl, refl, refl)
  agree_words false = (refl, refl, refl)

  -- A severity that asks for parsing only.
  agree_calm :
      (severity : String) (b : Bool)
      → is_urgent severity ≡ false
      → (severity == "medium") ≡ false
      → AgreeOn holds severity b ("alert_parsing" ∷ [])
  unfolding lookup insert add_missing bump count_or bump_known candidate_agents most_frequent
      override_urgent override_iocs route_candidates route_via_mapping legacy_choice legacy_decision
      determine_routing apply_rules
  agree_calm severity true h k = rw (h, k) refl
  agree_calm severity false h k = rw (h, k) (ground arith)

  base_calm :
      (severity : String)
      → is_urgent severity ≡ false
      → (severity == "medium") ≡ false
      → base_of severity ≡ "alert_parsing" ∷ []
  unfolding is_urgent texts_or lookup
  base_calm severity h k = ground (
    arith,
    string_eq.same_iff "critical" severity,
    string_eq.same_iff severity "critical",
    string_eq.same_iff "high" severity,
    string_eq.same_iff severity "high",
    string_eq.same_iff "medium" severity,
    string_eq.same_iff severity "medium",
  )

  -- For an alert whose type asks for nothing more, routing by the capability table and the legacy
  -- routing without rules choose the same agent, whatever the severity and the indicators.
  pub mapping_agrees_with_legacy :
      (severity alert_type : String) (has_iocs : Bool)
      → lookup alert_type alert_type_capabilities ≡ none
      → (route_via_mapping
          (determine_required_capabilities severity alert_type has_iocs)
          severity
          has_iocs).next_agent
        ≡ (determine_routing holds [] severity has_iocs).next_agent
  mapping_agrees_with_legacy severity alert_type has_iocs unknown =
      let (on_critical, on_high, on_medium) = agree_words has_iocs in
      let agree = λ (s : String). AgreeOn holds s has_iocs (base_of s) in
      rw (required_unknown severity alert_type has_iocs unknown)
        (elim (Bool-cases (is_urgent severity)) [
          | inl urgent ↦ elim (urgent_cases severity urgent) [
            | inl e ↦ subst agree (sym e) on_critical
            | inr e ↦ subst agree (sym e) on_high
          ]
          | inr calm ↦ elim (Bool-cases (severity == "medium")) [
            | inl medium ↦ subst agree (sym (==_sound medium)) on_medium
            | inr other ↦
                subst (AgreeOn holds severity has_iocs) (sym (base_calm severity calm other))
                  (agree_calm severity has_iocs calm other)
          ]
        ])
