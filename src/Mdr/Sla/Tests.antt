-- ===== src/Mdr/Sla/Tests.antt =====
-- The theorems on service levels at concrete inputs.
use cobalto.Base.{Discrete→DecEq, ◌*◌, ◌≤◌, ◌<◌, ◌≡◌, refl, ◌↔◌, some, arith}
use cobalto.Base.Dict.{lookup}
use cobalto.Mdr.Sla.{
  Priority-discrete, p1, p2, priority_eq, SlaDefinition, default_slas, minute, check_breach,
  default_escalation_rules, should_escalate,
}
use cobalto.Mdr.Sla.Breach.{due, rank, check_breach_stages}
use cobalto.Mdr.Sla.Escalation.{IsNextRule, should_escalate-IsNextRule}

abbrev p2_sla : SlaDefinition
p2_sla = record {
  priority = p2;
  response_time_minutes = 60;
  containment_time_minutes = 240;
  resolution_time_minutes = 1440;
}

p2_found : lookup p2 default_slas ≡ some p2_sla
unfolding lookup Discrete→DecEq Priority-discrete
p2_found = refl

check_breach_stages_example :
    let breach = rank (check_breach default_slas (61 * minute) 0 p2) in
    (breach ≡ 0 ↔ 61 * minute ≤ due 0 60)
    × (breach ≡ 1 ↔ ((due 0 60 < 61 * minute) × (61 * minute ≤ due 0 240)))
    × (breach ≡ 2 ↔ ((due 0 240 < 61 * minute) × (61 * minute ≤ due 0 1440)))
    × (breach ≡ 3 ↔ due 0 1440 < 61 * minute)
check_breach_stages_example =
    check_breach_stages default_slas (61 * minute) 0 p2 p2_found (omega arith, omega arith)

should_escalate-IsNextRule_example :
    IsNextRule default_escalation_rules p1
      (20 * minute)
      0
      1
      (should_escalate default_escalation_rules p1 (20 * minute) 0 1)
should_escalate-IsNextRule_example =
    should_escalate-IsNextRule default_escalation_rules p1 (20 * minute) 0 1
