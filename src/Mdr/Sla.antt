-- ===== src/Mdr/Sla.antt =====
-- services/cobalt-mdr-ops/slas.py. An instant is its number of microseconds, and the
-- floating-point minutes of the source are kept exact, as microseconds.
pub mod Breach
pub mod Escalation
mod Tests
use cobalto.Base.{
  ℕ, ◌+◌, ◌-◌, ◌*◌, String, Bool, true, false, ◌&&◌, Option, none, some, List, [], ◌∷◌, ltb, leb,
  nat_beq, ◌==◌, DecEq, Discrete→DecEq, if◌then◌else◌,
}
use cobalto.Base.Dict.{Dict, lookup}

pub data Priority : Type 0 where
  p1 p2 p3 p4 : Priority

unfoldable pub Priority-discrete : Discrete Priority
Priority-discrete = hlevel

instance abbrev pub priority_eq : DecEq Priority
priority_eq = Discrete→DecEq Priority-discrete

pub record SlaDefinition : Type 0 where
  pub priority : Priority
  pub response_time_minutes : ℕ
  pub containment_time_minutes : ℕ
  pub resolution_time_minutes : ℕ

abbrev pub default_slas : Dict Priority SlaDefinition
default_slas =
    (
      p1,
      record {
        priority = p1;
        response_time_minutes = 15;
        containment_time_minutes = 60;
        resolution_time_minutes = 240;
      },
    )
    ∷ (
      p2,
      record {
        priority = p2;
        response_time_minutes = 60;
        containment_time_minutes = 240;
        resolution_time_minutes = 1440;
      },
    )
    ∷ (
      p3,
      record {
        priority = p3;
        response_time_minutes = 240;
        containment_time_minutes = 1440;
        resolution_time_minutes = 5760;
      },
    )
    ∷ (
      p4,
      record {
        priority = p4;
        response_time_minutes = 1440;
        containment_time_minutes = 5760;
        resolution_time_minutes = 14400;
      },
    )
    ∷ []

pub data SlaBreachType : Type 0 where
  response containment resolution : SlaBreachType

-- The remaining times are in microseconds.
pub record SlaStatus : Type 0 where
  pub alert_id : String
  pub priority : Priority
  pub response_time_remaining : ℕ
  pub containment_time_remaining : ℕ
  pub resolution_time_remaining : ℕ
  pub breached : Bool
  pub breach_type : Option SlaBreachType

-- `sla_definitions or DEFAULT_SLAS`
unfoldable pub sla_definitions_or_default :
    Option (Dict Priority SlaDefinition) → Dict Priority SlaDefinition
sla_definitions_or_default none = default_slas
sla_definitions_or_default (some []) = default_slas
sla_definitions_or_default (some (sla ∷ slas)) = sla ∷ slas

abbrev pub minute : ℕ
minute = 60000000

-- `max(0, limit - elapsed)`, where `elapsed` is negative before the creation
unfoldable pub remaining : ℕ → ℕ → ℕ → ℕ
remaining now created_at minutes = (minutes * minute + created_at) - now

-- `elapsed > limit`
unfoldable pub exceeds : ℕ → ℕ → ℕ → Bool
exceeds now created_at minutes = ltb (minutes * minute + created_at) now

-- The chain of tests on the elapsed time: `breached` and `breach_type`.
unfoldable pub breach_of : ℕ → ℕ → SlaDefinition → Bool × Option SlaBreachType
unfolding exceeds
breach_of now created_at sla =
    if exceeds now created_at sla.resolution_time_minutes
    then (true, some resolution)
    else (if exceeds now created_at sla.containment_time_minutes
        then (true, some containment)
        else (if exceeds now created_at sla.response_time_minutes
            then (true, some response)
            else (false, none)))

unfoldable pub calculate_time_remaining : ℕ → ℕ → SlaDefinition → SlaStatus
unfolding remaining breach_of
calculate_time_remaining now created_at sla =
    let (breached, breach_type) = breach_of now created_at sla in
    record {
      alert_id = "";
      priority = sla.priority;
      response_time_remaining = remaining now created_at sla.response_time_minutes;
      containment_time_remaining = remaining now created_at sla.containment_time_minutes;
      resolution_time_remaining = remaining now created_at sla.resolution_time_minutes;
      breached = breached;
      breach_type = breach_type;
    }

breach_with : ℕ → ℕ → Option SlaDefinition → Option SlaBreachType
unfolding calculate_time_remaining
breach_with now created_at none = none
breach_with now created_at (some sla) = (calculate_time_remaining now created_at sla).breach_type

unfoldable pub check_breach : Dict Priority SlaDefinition → ℕ → ℕ → Priority → Option SlaBreachType
unfolding breach_with
check_breach slas now created_at priority = breach_with now created_at (lookup priority slas)

pub record EscalationRule : Type 0 where
  pub priority : Priority
  pub escalation_delay_minutes : ℕ
  pub escalation_level : ℕ
  pub notify_roles : List String
  pub auto_page : Bool

abbrev escalation : Priority → ℕ → ℕ → List String → Bool → EscalationRule
escalation p delay level roles page = record {
  priority = p;
  escalation_delay_minutes = delay;
  escalation_level = level;
  notify_roles = roles;
  auto_page = page;
}

abbrev pub default_escalation_rules : List EscalationRule
default_escalation_rules =
    escalation p1 5 1 ("soc_team_lead" ∷ []) true
    ∷ escalation p1 15 2 ("soc_manager" ∷ "ciso" ∷ []) true
    ∷ escalation p2 30 1 ("soc_team_lead" ∷ []) false
    ∷ escalation p2 60 2 ("soc_manager" ∷ []) true
    ∷ escalation p3 120 1 ("soc_team_lead" ∷ []) false
    ∷ escalation p4 480 1 ("soc_team_lead" ∷ []) false
    ∷ []

-- `rules or DEFAULT_ESCALATION_RULES`
unfoldable pub rules_or_default : Option (List EscalationRule) → List EscalationRule
rules_or_default none = default_escalation_rules
rules_or_default (some []) = default_escalation_rules
rules_or_default (some (rule ∷ rules)) = rule ∷ rules

-- `rule.priority == priority and elapsed_minutes >= rule.escalation_delay_minutes`, where the
-- elapsed time is `now - created_at`
abbrev pub applies : Priority → ℕ → ℕ → EscalationRule → Bool
applies priority now created_at rule =
    (rule.priority == priority) && leb (rule.escalation_delay_minutes * minute + created_at) now

-- `sorted` by level: it keeps the order of equal levels.
unfoldable pub insert_rule : EscalationRule → List EscalationRule → List EscalationRule
insert_rule r [] = r ∷ []
insert_rule r (q ∷ rules) =
    let rest = insert_rule r rules in
    if leb r.escalation_level q.escalation_level then r ∷ q ∷ rules else q ∷ rest

unfoldable pub applicable_of : Priority → ℕ → ℕ → List EscalationRule → List EscalationRule
applicable_of priority now created_at [] = []
applicable_of priority now created_at (rule ∷ rules) =
    let rest = applicable_of priority now created_at rules in
    if applies priority now created_at rule then rule ∷ rest else rest

unfoldable pub sorted_rules : List EscalationRule → List EscalationRule
unfolding insert_rule
sorted_rules [] = []
sorted_rules (rule ∷ rules) = insert_rule rule (sorted_rules rules)

unfoldable pub get_applicable_rules : List EscalationRule → Priority → ℕ → ℕ → List EscalationRule
unfolding sorted_rules applicable_of
get_applicable_rules rules priority now created_at =
    sorted_rules (applicable_of priority now created_at rules)

unfoldable pub first_above : ℕ → List EscalationRule → Option EscalationRule
first_above current_level [] = none
first_above current_level (rule ∷ rules) =
    let later = first_above current_level rules in
    if ltb current_level rule.escalation_level then some rule else later

unfoldable pub should_escalate : List EscalationRule → Priority → ℕ → ℕ → ℕ → Option EscalationRule
unfolding first_above get_applicable_rules
should_escalate rules priority now created_at current_level =
    first_above current_level (get_applicable_rules rules priority now created_at)
