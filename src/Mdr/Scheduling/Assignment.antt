-- ===== src/Mdr/Scheduling/Assignment.antt =====
-- class AlertAssignment of services/cobalt-mdr-ops/scheduling.py, over the schedule and the heap of
-- analysts. The floating-point scores of the source are kept exact, as fractions.
use cobalto.Base.{
  ℕ, suc, ◌+◌, ◌-◌, ◌*◌, String, Bool, true, false, ◌&&◌, not, Option, none, some, List, [], ◌∷◌,
  ltb, leb, nat_eq, string_eq, ◌==◌, DecEq, Discrete→DecEq, if◌then◌else◌, contains, find,
}
use cobalto.Mdr.Scheduling.{
  Analyst, available, Ref, Heap, write, Shift, ShiftSchedule, get_current_shift,
}

-- A fraction `(plus - minus) / over`.
pub record Score : Type 0 where
  pub plus : ℕ
  pub minus : ℕ
  pub over : ℕ

pub data Severity : Type 0 where
  critical high medium low : Severity

unfoldable pub Severity-discrete : Discrete Severity
Severity-discrete = hlevel

instance abbrev pub severity_eq : DecEq Severity
severity_eq = Discrete→DecEq Severity-discrete

pub record Alert : Type 0 where
  pub id : String
  pub title : String
  pub severity : Severity
  pub source : String
  pub created_at : ℕ
  pub mitre_techniques : List String
  pub assigned_to : Option String

pub record AssignmentRule : Type 0 where
  pub severity : Severity
  pub required_expertise : List String
  pub prefer_specialist : Bool
  pub max_queue_size : ℕ

abbrev assignment : Severity → List String → Bool → ℕ → AssignmentRule
assignment s expertise specialist queue = record {
  severity = s;
  required_expertise = expertise;
  prefer_specialist = specialist;
  max_queue_size = queue;
}

abbrev pub default_assignment_rules : List AssignmentRule
default_assignment_rules =
    assignment critical ("incident_response" ∷ []) true 3
    ∷ assignment high ("threat_hunting" ∷ "incident_response" ∷ []) true 5
    ∷ assignment medium [] false 8
    ∷ assignment low [] false 10
    ∷ []

-- `rules or DEFAULT_ASSIGNMENT_RULES`
unfoldable pub rules_or_default : Option (List AssignmentRule) → List AssignmentRule
rules_or_default none = default_assignment_rules
rules_or_default (some []) = default_assignment_rules
rules_or_default (some (rule ∷ rules)) = rule ∷ rules

abbrev pub get_rule_for_severity : List AssignmentRule → Severity → Option AssignmentRule
get_rule_for_severity rules severity =
    find (λ (rule : AssignmentRule). rule.severity == severity) rules

-- `len(set(xs) & set(ys))`
unfoldable pub count_common : List String → List String → ℕ
count_common [] ys = 0
count_common (x ∷ xs) ys =
    let rest = count_common xs ys in if contains x ys && not (contains x xs) then suc rest else rest

-- `rule.prefer_specialist and alert.mitre_techniques`
unfoldable pub technique_match : AssignmentRule → List String → List String → ℕ
unfolding count_common
technique_match rule [] expertise = 0
technique_match rule (t ∷ techniques) expertise =
    if rule.prefer_specialist then count_common (t ∷ techniques) expertise else 0

-- `expertise_match * 10 + technique_match * 5 - load_percentage * 0.1`, over the capacity; an
-- available analyst has one.
unfoldable pub score_analyst : Analyst → AssignmentRule → Alert → Score
unfolding count_common technique_match
score_analyst analyst rule alert =
    if available analyst
    then record {
      plus =
          (count_common rule.required_expertise analyst.expertise * 10
            + technique_match rule alert.mitre_techniques analyst.expertise * 5)
          * analyst.max_concurrent_cases;
      minus = 10 * analyst.current_cases;
      over = analyst.max_concurrent_cases;
    }
    else record { plus = 0; minus = 1; over = 1 }

abbrev pub is_nonneg : Score → Bool
is_nonneg s = leb s.minus s.plus

abbrev pub score_ltb : Score → Score → Bool
score_ltb a b = ltb (a.plus * b.over + b.minus * a.over) (b.plus * a.over + a.minus * b.over)

abbrev pub take_case : Analyst → Analyst
take_case a = record a { current_cases = suc a.current_cases }

-- What an assignment leaves: the heap, the alert, and the analyst it returns.
abbrev pub Assigned : Type 0
Assigned = Heap × Alert × Option Ref

unfoldable pub give : Ref → Alert → Heap → Assigned
give r alert heap =
    (write r (take_case (heap r)) heap, record alert { assigned_to = some (heap r).id }, some r)

unfoldable pub give_shift : Option Shift → Option AssignmentRule → Alert → Heap → Assigned
unfolding give
give_shift none rule alert heap = (heap, alert, none)
give_shift (some shift) none alert heap = (heap, alert, none)
give_shift (some shift) (some rule) alert heap = give shift.analyst alert heap

unfoldable pub assign : List AssignmentRule → ShiftSchedule → ℕ → Alert → Heap → Assigned
unfolding give_shift get_current_shift
assign rules schedule now alert heap =
    give_shift (get_current_shift now schedule) (get_rule_for_severity rules alert.severity) alert
      heap

-- `sort` by score with `reverse=True`: it keeps the order of equal scores.
unfoldable pub insert_scored : Ref × Score → List (Ref × Score) → List (Ref × Score)
insert_scored (r, s) [] = (r, s) ∷ []
insert_scored (r, s) ((q, t) ∷ scored) =
    let rest = insert_scored (r, s) scored in
    if score_ltb s t then (q, t) ∷ rest else (r, s) ∷ (q, t) ∷ scored

unfoldable pub sort_scored : List (Ref × Score) → List (Ref × Score)
unfolding insert_scored
sort_scored [] = []
sort_scored (x ∷ scored) = insert_scored x (sort_scored scored)

-- The available analysts with their scores, those below zero left out.
unfoldable pub candidates : AssignmentRule → Alert → Heap → List Ref → List (Ref × Score)
unfolding score_analyst
candidates rule alert heap [] = []
candidates rule alert heap (r ∷ refs) =
    let rest = candidates rule alert heap refs in
    let score = score_analyst (heap r) rule alert in
    if available (heap r) && is_nonneg score then (r, score) ∷ rest else rest

unfoldable pub give_best : List (Ref × Score) → Alert → Heap → Assigned
unfolding give
give_best [] alert heap = (heap, alert, none)
give_best ((r, s) ∷ scored) alert heap = give r alert heap

unfoldable pub give_from : List Ref → Option AssignmentRule → Alert → Heap → Assigned
unfolding give_best sort_scored candidates
give_from refs none alert heap = (heap, alert, none)
give_from refs (some rule) alert heap =
    give_best (sort_scored (candidates rule alert heap refs)) alert heap

unfoldable pub assign_from_pool : List AssignmentRule → ShiftSchedule → Alert → Heap → Assigned
unfolding give_from
assign_from_pool rules schedule alert heap =
    give_from schedule.analysts (get_rule_for_severity rules alert.severity) alert heap

-- `max(0, current_cases - 1)`
abbrev pub drop_case : Analyst → Analyst
drop_case a = record a { current_cases = a.current_cases - 1 }

-- The first analyst of the pool with the id gives up a case.
unfoldable pub release : String → List Ref → Heap → Heap
release id [] heap = heap
release id (r ∷ refs) heap =
    let rest = release id refs heap in
    if (heap r).id == id then write r (drop_case (heap r)) heap else rest

-- `if alert.assigned_to`
unfoldable pub release_assigned : Option String → List Ref → Heap → Heap
unfolding release
release_assigned none refs heap = heap
release_assigned (some id) refs heap = if id == "" then heap else release id refs heap

unfoldable pub reassign : ShiftSchedule → Alert → Ref → Heap → Heap × Alert × Bool
unfolding release_assigned
reassign schedule alert target heap =
    let released = release_assigned alert.assigned_to schedule.analysts heap in
    if available (heap target)
    then (
      write target (take_case (released target)) released,
      record alert { assigned_to = some (released target).id },
      true,
    )
    else (heap, alert, false)
