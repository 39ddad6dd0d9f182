-- ===== src/Soar/Playbook.antt =====
-- The data of a playbook. Delays are in milliseconds, and instants in ticks.
use cobalto.Base.{
  ℕ, String, Bool, Option, none, some, List, [], ◌∷◌, string_eq, ◌==◌, if◌then◌else◌, find, DecEq,
  Discrete→DecEq,
}
use cobalto.Base.Json.{Fields}

pub data ActionType : Type 0 where
  block_ip isolate_host disable_user quarantine_file collect_evidence notify escalate enrich query
        wait condition custom webhook log :
      ActionType

unfoldable pub ActionType-discrete : Discrete ActionType
ActionType-discrete = hlevel

instance abbrev pub action_type_eq : DecEq ActionType
action_type_eq = Discrete→DecEq ActionType-discrete

pub record PlaybookAction : Type 0 where
  pub id : String
  pub name : String
  pub action_type : ActionType
  pub parameters : Fields
  pub timeout_seconds : ℕ
  pub retry_count : ℕ
  pub retry_delay_seconds : ℕ
  pub requires_approval : Bool
  pub approval_timeout_seconds : ℕ
  pub on_success : Option String
  pub on_failure : Option String
  pub condition : Option String
  pub metadata : Fields

pub record PlaybookStep : Type 0 where
  pub id : String
  pub name : String
  pub description : String
  pub actions : List PlaybookAction
  pub parallel : Bool
  pub condition : Option String
  pub next_step : Option String

pub data PlaybookStatus : Type 0 where
  draft active paused deprecated archived : PlaybookStatus

pub record PlaybookMetadata : Type 0 where
  pub id : String
  pub name : String
  pub description : String
  pub version : String
  pub author : String
  pub tags : List String
  pub triggers : List String
  pub enabled : Bool
  pub status : PlaybookStatus
  pub created_at : ℕ
  pub updated_at : ℕ
  pub created_by : String
  pub updated_by : String
  pub checksum : String
  pub min_cobalto_version : String
  pub references : List String

pub record Playbook : Type 0 where
  pub metadata : PlaybookMetadata
  pub steps : List PlaybookStep
  pub variables : Fields
  pub secrets : List String

unfoldable pub get_step : String → Playbook → Option PlaybookStep
get_step step_id p = find (λ (s : PlaybookStep). s.id == step_id) p.steps

-- The loop goes on after a last step with the id.
next_of : String → List PlaybookStep → Option PlaybookStep
next_of current_step_id [] = none
next_of current_step_id (s ∷ []) = none
next_of current_step_id (s ∷ t ∷ rest) =
    let later = next_of current_step_id (t ∷ rest) in
    if s.id == current_step_id then some t else later

unfoldable pub get_next_step : String → Playbook → Option PlaybookStep
unfolding next_of
get_next_step current_step_id p = next_of current_step_id p.steps
