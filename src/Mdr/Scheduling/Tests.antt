-- ===== src/Mdr/Scheduling/Tests.antt =====
-- The theorems on shifts and assignments at concrete inputs.
use cobalto.Base.{◌≡◌, refl, false, none, some, [], ◌∷◌, arith, Discrete→DecEq}
use cobalto.Mdr.Scheduling.{
  Analyst, Heap, day, ShiftSchedule, new_schedule, get_current_shift, get_next_shift,
  schedule_shift, new_shift,
}
use cobalto.Mdr.Scheduling.Assignment.{
  critical, low, Severity-discrete, Alert, AssignmentRule, default_assignment_rules,
  get_rule_for_severity, assign_from_pool, give_from, candidates, score_analyst, count_common,
  technique_match, sort_scored, give_best, give,
}
use cobalto.Mdr.Scheduling.Loads.{IsWithin, assign_from_pool-IsWithin}
use cobalto.Mdr.Scheduling.Shifts.{IsNextShift, get_next_shift-IsNextShift}

-- Everyone has one of five cases.
abbrev ana : Analyst
ana = record {
  id = "ana";
  name = "Ana";
  email = "ana@example.org";
  expertise = "incident_response" ∷ [];
  max_concurrent_cases = 5;
  current_cases = 1;
}

abbrev team : Heap
team = λ r. ana

team-IsWithin : IsWithin team
team-IsWithin r = omega arith

abbrev pool : ShiftSchedule
pool = (schedule_shift 7 day 100 (record new_schedule { analysts = 7 ∷ 8 ∷ [] })).0

-- Only a ransomware alert is worth a second case: her expertise outweighs her load.
abbrev ransomware : Alert
ransomware = record {
  id = "alert-2";
  title = "ransomware";
  severity = critical;
  source = "edr";
  created_at = 90;
  mitre_techniques = [];
  assigned_to = none;
}

-- The pool gives the alert to the first analyst, who has two cases then.
given_out :
    let (heap, alert, who) = assign_from_pool default_assignment_rules pool ransomware team in
    (who ≡ some 7) × ((heap 7).current_cases ≡ 2) × ((heap 8).current_cases ≡ 1)
unfolding assign_from_pool give_from candidates score_analyst count_common technique_match
    sort_scored give_best give schedule_shift Discrete→DecEq Severity-discrete
given_out = (refl, refl, refl)

abbrev noise : Alert
noise = record {
  id = "alert-1";
  title = "noise";
  severity = low;
  source = "edr";
  created_at = 90;
  mitre_techniques = [];
  assigned_to = some "ana";
}

abbrev low_rule : AssignmentRule
low_rule = record {
  severity = low;
  required_expertise = [];
  prefer_specialist = false;
  max_queue_size = 10;
}

low_rule_found : get_rule_for_severity default_assignment_rules low ≡ some low_rule
unfolding Discrete→DecEq Severity-discrete
low_rule_found = refl

day_shift_found : get_current_shift 200 pool ≡ some (new_shift new_schedule 7 day 100)
unfolding get_current_shift schedule_shift
day_shift_found = refl

assign_from_pool-IsWithin_example :
    IsWithin (assign_from_pool default_assignment_rules pool ransomware team).0
assign_from_pool-IsWithin_example =
    assign_from_pool-IsWithin default_assignment_rules pool ransomware team team-IsWithin

nobody_on_shift : get_current_shift 200 new_schedule ≡ none
unfolding get_current_shift
nobody_on_shift = refl

get_next_shift-IsNextShift_example : IsNextShift 50 pool.shifts (get_next_shift 50 pool)
get_next_shift-IsNextShift_example = get_next_shift-IsNextShift 50 pool
