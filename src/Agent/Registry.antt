-- ===== src/Agent/Registry.antt =====
-- class AgentRegistry of frameworks/agent-sdk/src/cobalto/agent/registry.py. An agent is what the
-- registry asks of it when it registers.
pub mod Index
pub mod Find
mod Tests
use cobalto.Base.{
  ℕ, String, Bool, true, false, Option, none, some, List, [], ◌∷◌, length, Discrete→DecEq, DecEq,
  string_eq, if◌then◌else◌, filter, ◌==◌,
}
use cobalto.Base.Dict.{Dict, lookup, insert, erase, values, has_key}
use cobalto.Base.Sets.{add, discard}

pub data AgentType : Type 0 where
  triage analysis threat_intel response threat_hunt documentation supervisor : AgentType

pub data AgentCapability : Type 0 where
  alert_parsing severity_assessment ioc_extraction ioc_enrichment : AgentCapability
  deep_analysis attack_narrative mitre_mapping risk_assessment log_correlation : AgentCapability
  opencti_query misp_correlation threat_actor_profiling cve_lookup : AgentCapability
  containment remediation notification approval_gating : AgentCapability
  hypothesis_generation search_query_building : AgentCapability
  case_creation report_generation evidence_collection : AgentCapability
  orchestration routing decision_making : AgentCapability

unfoldable pub AgentType-discrete : Discrete AgentType
AgentType-discrete = hlevel

unfoldable pub AgentCapability-discrete : Discrete AgentCapability
AgentCapability-discrete = hlevel

instance abbrev pub type_eq : DecEq AgentType
type_eq = Discrete→DecEq AgentType-discrete

instance abbrev pub capability_eq : DecEq AgentCapability
capability_eq = Discrete→DecEq AgentCapability-discrete

pub record Agent : Type 0 where
  pub agent_id : String
  pub agent_type : AgentType
  pub capabilities : List AgentCapability
  pub required_approval : List String

pub record AgentRegistration : Type 0 where
  pub agent_id : String
  pub agent_type : AgentType
  pub capabilities : List AgentCapability
  pub requires_approval : Bool

pub record Registry : Type 0 where
  pub agents : Dict String Agent
  pub registrations : Dict String AgentRegistration
  pub capability_index : Dict AgentCapability (List String)

-- `__init__`, and what `clear` leaves
abbrev pub empty : Registry
empty = record { agents = []; registrations = []; capability_index = [] }

set_or_empty : Option (List String) → List String
set_or_empty none = []
set_or_empty (some ids) = ids

-- `self._capability_index.get(cap, set())`
unfoldable pub ids_of : AgentCapability → Dict AgentCapability (List String) → List String
unfolding set_or_empty
ids_of cap index = set_or_empty (lookup cap index)

-- `for cap in capabilities: self._capability_index.setdefault(cap, set()).add(agent_id)`
unfoldable pub index_all :
    String
    → List AgentCapability
    → Dict AgentCapability (List String)
    → Dict AgentCapability (List String)
unfolding ids_of
index_all agent_id [] index = index
index_all agent_id (cap ∷ caps) index =
    index_all agent_id caps (insert cap (add agent_id (ids_of cap index)) index)

is_nonempty : List String → Bool
is_nonempty [] = false
is_nonempty (x ∷ xs) = true

unfoldable pub registration_of : Agent → AgentRegistration
unfolding is_nonempty
registration_of a = record {
  agent_id = a.agent_id;
  agent_type = a.agent_type;
  capabilities = a.capabilities;
  requires_approval = is_nonempty a.required_approval;
}

unfoldable pub register : Agent → Registry → Registry
unfolding registration_of index_all
register a r = record {
  agents = insert a.agent_id a r.agents;
  registrations = insert a.agent_id (registration_of a) r.registrations;
  capability_index = index_all a.agent_id a.capabilities r.capability_index;
}

-- `if not self._capability_index[cap]: del self._capability_index[cap]`
store_or_drop :
    AgentCapability
    → List String
    → Dict AgentCapability (List String)
    → Dict AgentCapability (List String)
store_or_drop cap [] index = erase cap index
store_or_drop cap (x ∷ xs) index = insert cap (x ∷ xs) index

unindex :
    AgentCapability
    → String
    → Option (List String)
    → Dict AgentCapability (List String)
    → Dict AgentCapability (List String)
unfolding store_or_drop
unindex cap agent_id none index = index
unindex cap agent_id (some ids) index = store_or_drop cap (discard agent_id ids) index

unfoldable pub unindex_all :
    String
    → List AgentCapability
    → Dict AgentCapability (List String)
    → Dict AgentCapability (List String)
unfolding unindex
unindex_all agent_id [] index = index
unindex_all agent_id (cap ∷ caps) index =
    unindex_all agent_id caps (unindex cap agent_id (lookup cap index) index)

-- What `unregister` returns, or the KeyError of an agent without a registration.
pub data Unregistered : Type 0 where
  removed not_found key_error : Unregistered

remove : String → Option Agent → Option AgentRegistration → Registry → Registry × Unregistered
unfolding unindex_all
remove agent_id none o r = (r, not_found)
remove agent_id (some a) none r = (r, key_error)
remove agent_id (some a) (some g) r = (
  record {
    agents = erase agent_id r.agents;
    registrations = erase agent_id r.registrations;
    capability_index = unindex_all agent_id g.capabilities r.capability_index;
  },
  removed,
)

unfoldable pub unregister : String → Registry → Registry × Unregistered
unfolding remove
unregister agent_id r =
    remove agent_id (lookup agent_id r.agents) (lookup agent_id r.registrations) r

-- `[self._agents[aid] for aid in agent_ids if aid in self._agents]`
if_present : Option Agent → List Agent → List Agent
if_present none rest = rest
if_present (some a) rest = a ∷ rest

unfoldable pub agents_of : List String → Dict String Agent → List Agent
unfolding if_present
agents_of [] agents = []
agents_of (aid ∷ aids) agents = if_present (lookup aid agents) (agents_of aids agents)

unfoldable pub find_agents : AgentCapability → Registry → List Agent
unfolding agents_of ids_of
find_agents cap r = agents_of (ids_of cap r.capability_index) r.agents

unfoldable pub find_agents_by_type : AgentType → Registry → List Agent
find_agents_by_type t r = filter (λ (a : Agent). a.agent_type == t) (values r.agents)

unfoldable pub get_agent : String → Registry → Option Agent
get_agent agent_id r = lookup agent_id r.agents

unfoldable pub get_registration : String → Registry → Option AgentRegistration
get_registration agent_id r = lookup agent_id r.registrations

unfoldable pub count : Registry → ℕ
count r = length r.agents
