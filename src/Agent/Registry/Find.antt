-- ===== src/Agent/Registry/Find.antt =====
-- What the registry finds for a capability.
use cobalto.Base.{
  String, ◌≡◌, refl, ◌∙◌, ap, sym, subst, ◌↔◌, inl, inr, Bool, true, false, Option, none, some,
  List, [], ◌∷◌, contains, In, arith, ◌==◌, string_eq, Bool-cases, ==_true, ==_sound,
}
use cobalto.Base.Dict.{Dict, lookup, insert, lookup-insert, lookup-erase, lookup-insert_self}
use cobalto.Agent.Registry.{
  AgentCapability, Agent, AgentRegistration, Registry, removed, empty, capability_eq, ids_of,
  index_all, register, registration_of, unregister, remove, agents_of, if_present, find_agents,
}
use cobalto.Agent.Registry.Index.{lists, lists-index_all, lists-unindex_all}

-- The agent is registered with the capability.
abbrev provides_in : Option AgentRegistration → AgentCapability → Bool
provides_in none c = false
provides_in (some g) c = contains c g.capabilities

abbrev pub provides : Registry → String → AgentCapability → Bool
provides r id c = provides_in (lookup id r.registrations) c

abbrev defined {ℓ} : {A : Type ℓ} → Option A → Bool
defined none = false
defined (some a) = true

-- The three dicts fit together: an agent and its registration come together, and the index lists
-- an agent under exactly the capabilities that it registered with.
pub record IsConsistent (r : Registry) : Type 0 where
  pub paired : (id : String) → defined (lookup id r.agents) ≡ defined (lookup id r.registrations)
  pub indexed :
      (id : String) (c : AgentCapability) → lists r.capability_index c id ≡ provides r id c

pub register-IsConsistent :
    (a : Agent) (r : Registry)
    → lookup a.agent_id r.agents ≡ none
    → IsConsistent r
    → IsConsistent (register a r)
unfolding register registration_of
register-IsConsistent a r fresh h = record {
  paired = λ id. ground (
    arith,
    lookup-insert a.agent_id id a r.agents,
    lookup-insert a.agent_id id (registration_of a) r.registrations,
    h.paired id,
  );
  indexed = λ id c.
      lists-index_all c a.agent_id id a.capabilities r.capability_index
      ∙ ground (
        arith,
        lookup-insert a.agent_id id (registration_of a) r.registrations,
        h.indexed id c,
        h.paired id,
        fresh,
        string_eq.same_iff a.agent_id id,
        string_eq.same_iff id a.agent_id,
      );
}

remove-IsConsistent :
    (id : String) (o : Option Agent) (g : Option AgentRegistration) (r : Registry)
    → lookup id r.agents ≡ o
    → lookup id r.registrations ≡ g
    → IsConsistent r
    → IsConsistent (remove id o g r).0
unfolding remove
remove-IsConsistent id none g r eo eg h = h
remove-IsConsistent id (some a) none r eo eg h = h
remove-IsConsistent id (some a) (some g) r eo eg h = record {
  paired = λ j.
      ground (arith, lookup-erase id j r.agents, lookup-erase id j r.registrations, h.paired j);
  indexed = λ j c.
      lists-unindex_all c id j g.capabilities r.capability_index
      ∙ ground
          (arith, lookup-erase id j r.registrations, h.indexed j c, eg, string_eq.same_iff id j);
}

pub unregister-IsConsistent :
    (id : String) (r : Registry) → IsConsistent r → IsConsistent (unregister id r).0
unfolding unregister
unregister-IsConsistent id r h =
    remove-IsConsistent id (lookup id r.agents) (lookup id r.registrations) r refl refl h

-- The operations, an agent's id being new when it registers.
pub data Reachable : Registry → Type 0 where
  start : Reachable empty
  registered :
      {r : Registry} (a : Agent)
      → Reachable r
      → lookup a.agent_id r.agents ≡ none
      → Reachable (register a r)
  unregistered : {r : Registry} (id : String) → Reachable r → Reachable (unregister id r).0

pub Reachable-IsConsistent : {r : Registry} → Reachable r → IsConsistent r
unfolding lists lookup
Reachable-IsConsistent start = record { paired = λ id. refl; indexed = λ id c. refl }
Reachable-IsConsistent (registered {r} a h fresh) =
    register-IsConsistent a r fresh (Reachable-IsConsistent h)
Reachable-IsConsistent (unregistered {r} id h) =
    unregister-IsConsistent id r (Reachable-IsConsistent h)

-- The agent is found, under this id.
abbrev Found : String → Agent → List String → Dict String Agent → Type 0
Found id a ids agents = (contains id ids ≡ true) × (lookup id agents ≡ some a)

In-if_present :
    (a : Agent) (o : Option Agent) (rest : List Agent) → In a rest → In a (if_present o rest)
unfolding if_present
In-if_present a none rest h = h
In-if_present a (some b) rest h = inr h

In-agents_of :
    (id : String) (a : Agent) (ids : List String) (agents : Dict String Agent)
    → contains id ids ≡ true
    → lookup id agents ≡ some a
    → In a (agents_of ids agents)
unfolding agents_of
In-agents_of id a [] agents h found = cc
In-agents_of id a (x ∷ ids) agents h found = elim (Bool-cases (id == x)) [
  | inl same ↦
      rw (ap (λ (y : String). lookup y agents) (sym (==_sound same)) ∙ found, if_present) (inl refl)
  | inr other ↦
      In-if_present a (lookup x agents) (agents_of ids agents)
        (In-agents_of id a ids agents (ground (arith, other, h)) found)
]

-- An agent that the registry holds under a listed id.
abbrev Held : Agent → List String → Dict String Agent → Type 0
Held a ids agents = (id : String) × (contains id ids ≡ true) × (lookup id agents ≡ some a)

Held-cons :
    {a : Agent} (x : String) (ids : List String) (agents : Dict String Agent)
    → Held a ids agents
    → Held a (x ∷ ids) agents
Held-cons x ids agents (id, listed, found) = (id, ground (arith, listed), found)

if_present-Held :
    (a : Agent) (x : String) (o : Option Agent) (ids : List String) (agents : Dict String Agent)
    → lookup x agents ≡ o
    → (In a (agents_of ids agents) → Held a ids agents)
    → In a (if_present o (agents_of ids agents))
    → Held a (x ∷ ids) agents
unfolding if_present
if_present-Held a x none ids agents e rest m = Held-cons x ids agents (rest m)
if_present-Held a x (some b) ids agents e rest (inl same) = (x, rw (==_true x), cc (e, same))
if_present-Held a x (some b) ids agents e rest (inr m) = Held-cons x ids agents (rest m)

agents_of-Held :
    (a : Agent) (ids : List String) (agents : Dict String Agent)
    → In a (agents_of ids agents)
    → Held a ids agents
unfolding agents_of
agents_of-Held a [] agents h = absurd h
agents_of-Held a (x ∷ ids) agents h =
    if_present-Held a x (lookup x agents) ids agents refl (agents_of-Held a ids agents) h

-- In a registry whose agents each registered under a new id, an agent is found for a capability if
-- and only if the registry holds it under some id that was registered with the capability.
pub find_agents_exact :
    {r : Registry} (c : AgentCapability) (a : Agent)
    → Reachable r
    → In a (find_agents c r)
      ↔ ((id : String) × (lookup id r.agents ≡ some a) × (provides r id c ≡ true))
unfolding find_agents lists
find_agents_exact {r} c a h =
    let ok = Reachable-IsConsistent h in
    (
      (λ found.
          let (id, listed, held) = agents_of-Held a (ids_of c r.capability_index) r.agents found in
          (id, held, sym (ok.indexed id c) ∙ listed)),
      λ (id, held, provided).
          In-agents_of id a (ids_of c r.capability_index) r.agents (ok.indexed id c ∙ provided)
            held,
    )

stale_listed :
    (a b : Agent) (c : AgentCapability) (r : Registry)
    → contains c a.capabilities ≡ true
    → lists (register b (register a r)).capability_index c a.agent_id ≡ true
unfolding register
stale_listed a b c r has =
    lists-index_all c b.agent_id a.agent_id b.capabilities (register a r).capability_index
    ∙ ground (
      arith,
      lists-index_all c a.agent_id a.agent_id a.capabilities r.capability_index,
      has,
      ==_true a.agent_id,
    )

-- An agent that registers again under its id is still found for every capability of the first time,
-- whatever it registers with the second time: the index keeps the old entries.
pub reregister_keeps_stale :
    (a b : Agent) (c : AgentCapability) (r : Registry)
    → contains c a.capabilities ≡ true
    → b.agent_id ≡ a.agent_id
    → In b (find_agents c (register b (register a r)))
unfolding find_agents register lists
reregister_keeps_stale a b c r has same =
    In-agents_of a.agent_id b (ids_of c (register b (register a r)).capability_index)
      (register b (register a r)).agents (stale_listed a b c r has)
      (subst (λ k. lookup k (register b (register a r)).agents ≡ some b) same
        (lookup-insert_self b.agent_id b _))

remove_registered :
    (a : Agent) (r : Registry)
    → unregister a.agent_id (register a r)
      ≡ remove a.agent_id (some a) (some (registration_of a)) (register a r)
unfolding unregister register
remove_registered a r = rw (lookup-insert_self, lookup-insert_self) refl

-- Unregistering an agent that has just registered under a new id succeeds, and leaves the agents
-- and the index as they were before, as far as lookups and the sets under each capability go.
pub unregister-register :
    (a : Agent) (r : Registry) (j : String) (c : AgentCapability)
    → IsConsistent r
    → lookup a.agent_id r.agents ≡ none
    → let (r', done) = unregister a.agent_id (register a r) in
      (done ≡ removed)
      × (lookup j r'.agents ≡ lookup j r.agents)
      × (lists r'.capability_index c j ≡ lists r.capability_index c j)
unregister-register a r j c h fresh = rw (remove_registered a r) (
    unfold remove register registration_of in
    (
      refl,
      ground (
        arith,
        lookup-erase a.agent_id j (insert a.agent_id a r.agents),
        lookup-insert a.agent_id j a r.agents,
        fresh,
        string_eq.same_iff a.agent_id j,
      ),
      lists-unindex_all c a.agent_id j a.capabilities
            (index_all a.agent_id a.capabilities r.capability_index)
          ∙ ground (
            arith,
            lists-index_all c a.agent_id j a.capabilities r.capability_index,
            h.indexed j c,
            h.paired j,
            fresh,
            string_eq.same_iff a.agent_id j,
            string_eq.same_iff j a.agent_id,
          ),
    ))
