-- ===== src/Agent/Tools.antt =====
-- UnifiedToolRegistry of frameworks/agent-sdk/src/cobalto/agent/tool_registry.py. An executor is a
-- function of its arguments and the world outside. The inference of a schema from a Python function
-- is left out.
pub mod Find
pub mod Trail
mod Tests
use cobalto.Base.{
  ℕ, ◌-◌, String, Bool, true, false, Option, none, some, List, [], ◌∷◌, ◌++◌, filter, length, leb,
  string_eq, ◌==◌, if◌then◌else◌, map, zero, suc, nat_eq,
}
use cobalto.Base.Dict.{Dict, lookup, insert, values, keys, has_key}
use cobalto.Base.Json.{Value, Fields, end, field, str, obj}
use cobalto.Base.Sets.{add}
use cobalto.Mcp.Protocol.{ToolCallResult}

pub data ToolRiskLevel : Type 0 where
  low medium high critical : ToolRiskLevel

pub record ToolDefinition : Type 0 where
  pub name : String
  pub description : String
  pub parameters : Fields
  pub risk_level : ToolRiskLevel
  pub requires_approval : Bool
  pub timeout_seconds : ℕ
  pub tags : List String
  pub metadata : Fields

unfoldable pub to_openai_schema : ToolDefinition → Fields
to_openai_schema t = field "type" (str "function") (
    field "function"
      (obj (
        field "name" (str t.name)
          (field "description" (str t.description) (field "parameters" (obj t.parameters) end))))
      end)

unfoldable pub to_mcp_schema : ToolDefinition → Fields
to_mcp_schema t =
    field "name" (str t.name)
      (field "description" (str t.description) (field "inputSchema" (obj t.parameters) end))

pub data ToolOutcome : Type 0 where
  result : Value → ToolOutcome
  -- An object of the class MCPToolCallResult.
  call_result : ToolCallResult → ToolOutcome
  error : String → ToolOutcome
  -- The executor itself raised a KeyError.
  raised_key_error : String → ToolOutcome

pub record ToolCall : Type 0 where
  pub tool_name : String
  pub arguments : Fields
  pub outcome : ToolOutcome
  pub duration_seconds : ℕ

-- What the caller of `execute` gets: the tool's result or exception, or a KeyError.
pub data ToolReply : Type 0 where
  answered : ToolOutcome → ToolReply
  key_error : ToolReply

-- `_capability_tags.get(tag, set())`
names_or_none : Option (List String) → List String
names_or_none none = []
names_or_none (some names) = names

unfoldable pub names_of : String → Dict String (List String) → List String
unfolding names_or_none
names_of tag index = names_or_none (lookup tag index)

unfoldable pub index_tag : String → String → Dict String (List String) → Dict String (List String)
unfolding names_of
index_tag name tag index = insert tag (add name (names_of tag index)) index

unfoldable pub index_tags :
    String → List String → Dict String (List String) → Dict String (List String)
unfolding index_tag
index_tags name [] index = index
index_tags name (tag ∷ tags) index = index_tags name tags (index_tag name tag index)

unfoldable pub rank : ToolRiskLevel → ℕ
rank low = 0
rank medium = 1
rank high = 2
rank critical = 3

-- `if n in self._definitions`
with_found : Option ToolDefinition → List ToolDefinition → List ToolDefinition
with_found none rest = rest
with_found (some t) rest = t ∷ rest

definitions_of : List String → Dict String ToolDefinition → List ToolDefinition
unfolding with_found
definitions_of [] definitions = []
definitions_of (name ∷ names) definitions =
    with_found (lookup name definitions) (definitions_of names definitions)

union : List String → List String → List String
union [] names = names
union (x ∷ xs) names = add x (union xs names)

-- The names under any of the tags.
matched : List String → Dict String (List String) → List String
unfolding union names_of
matched [] index = []
matched (tag ∷ tags) index = union (names_of tag index) (matched tags index)

drop : ℕ → List ToolCall → List ToolCall
drop zero calls = calls
drop (suc n) [] = []
drop (suc n) (c ∷ calls) = drop n calls

module _ (W : Type 0) where
  abbrev pub Executor : Type 0
  Executor = Fields → W → W × ToolOutcome

  pub record Registry : Type 0 where
    pub definitions : Dict String ToolDefinition
    pub executors : Dict String Executor
    pub capability_tags : Dict String (List String)
    pub call_history : List ToolCall

module _ {W : Type 0} where
  abbrev pub new_registry : Registry W
  new_registry = record {
    definitions = [];
    executors = [];
    capability_tags = [];
    call_history = [];
  }

  unfoldable pub register : ToolDefinition → Executor W → List String → Registry W → Registry W
  unfolding index_tags
  register definition executor capabilities r = record r {
    definitions = insert definition.name definition r.definitions;
    executors = insert definition.name executor r.executors;
    capability_tags =
        index_tags definition.name capabilities
          (index_tags definition.name definition.tags r.capability_tags);
  }

  unfoldable pub called :
      String → Fields → Bool → ℕ → W × ToolOutcome → Registry W → Registry W × W × ToolReply
  called name arguments audit duration (world, outcome) r =
      let call : ToolCall = record {
        tool_name = name;
        arguments = arguments;
        outcome = outcome;
        duration_seconds = duration;
      } in
      (
        record r { call_history = if audit then r.call_history ++ call ∷ [] else r.call_history },
        world,
        answered outcome,
      )

  unfoldable pub execute_with :
      Option (Executor W) → String → Fields → Bool → ℕ → W → Registry W → Registry W × W × ToolReply
  unfolding called
  execute_with none name arguments audit duration world r = (r, world, key_error)
  execute_with (some executor) name arguments audit duration world r =
      called name arguments audit duration (executor arguments world) r

  -- With the duration that the clock shows.
  unfoldable pub execute : String → Fields → Bool → ℕ → W → Registry W → Registry W × W × ToolReply
  unfolding execute_with
  execute name arguments audit duration world r =
      execute_with (lookup name r.executors) name arguments audit duration world r

  unfoldable pub find_tools_by_tag : String → Registry W → List ToolDefinition
  unfolding definitions_of names_of
  find_tools_by_tag tag r = definitions_of (names_of tag r.capability_tags) r.definitions

  unfoldable pub find_tools_by_risk : ToolRiskLevel → Registry W → List ToolDefinition
  unfolding rank
  find_tools_by_risk risk_level r =
      filter (λ (t : ToolDefinition). leb (rank risk_level) (rank t.risk_level))
        (values r.definitions)

  unfoldable pub requires_approval : String → Registry W → Bool
  requires_approval name r = elim (lookup name r.definitions) [
    | none ↦ false
    | some t ↦ t.requires_approval
  ]

  unfoldable pub get_agent_tools : String → List String → Registry W → List Fields
  unfolding definitions_of matched to_openai_schema
  get_agent_tools agent_type capability_tags r =
      map to_openai_schema
        (definitions_of (matched (agent_type ∷ capability_tags) r.capability_tags) r.definitions)

  abbrev pub clear_history : Registry W → Registry W
  clear_history r = record r { call_history = [] }

  -- `[-n:]`, which is the whole list for 0.
  unfoldable pub get_recent_calls : ℕ → Registry W → List ToolCall
  unfolding drop
  get_recent_calls n r =
      if n == 0 then r.call_history else drop (length r.call_history - n) r.call_history
