-- ===== src/Agent/Registry/Tests.antt =====
-- Runs of the registry, and its theorems at concrete inputs.
use cobalto.Base.{String, ◌≡◌, refl, ◌↔◌, arith, some, none, [], ◌∷◌, In, true, contains, string_eq}
use cobalto.Base.Dict.{lookup}
use cobalto.Agent.Registry.{
  Agent, triage, alert_parsing, ioc_enrichment, empty, register, find_agents, capability_eq,
}
use cobalto.Agent.Registry.Find.{Reachable, start, registered, provides, find_agents_exact}

abbrev agent : Agent
agent = record {
  agent_id = "triage-1";
  agent_type = triage;
  capabilities = alert_parsing ∷ ioc_enrichment ∷ [];
  required_approval = [];
}

abbrev narrowed : Agent
narrowed = record agent { capabilities = alert_parsing ∷ [] }

agent_is_new : lookup "triage-1" empty.agents ≡ none
unfolding lookup
agent_is_new = refl

with_agent : Reachable (register agent empty)
with_agent = registered agent start agent_is_new

find_agents_exact_example : In agent (find_agents ioc_enrichment (register agent empty)) ↔ (
    (id : String) × (lookup id (register agent empty).agents ≡ some agent)
    × (provides (register agent empty) id ioc_enrichment ≡ true))
find_agents_exact_example = find_agents_exact ioc_enrichment agent with_agent

had_enrichment : contains ioc_enrichment agent.capabilities ≡ true
had_enrichment = ground (
  arith,
  capability_eq.same_iff ioc_enrichment alert_parsing,
  capability_eq.same_iff ioc_enrichment ioc_enrichment,
)
