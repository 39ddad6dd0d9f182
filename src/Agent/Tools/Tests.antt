-- ===== src/Agent/Tools/Tests.antt =====
-- The tool registry at concrete inputs.
use cobalto.Base.{
  ℕ, ◌≡◌, refl, ◌↔◌, String, Bool, true, false, none, some, List, [], ◌∷◌, ◌++◌, In, string_eq,
  nat_eq,
}
use cobalto.Base.Dict.{lookup, insert}
use cobalto.Base.Json.{end}
use cobalto.Base.Sets.{add}
use cobalto.Agent.Tools.{
  ToolDefinition, high, error, answered, key_error, Executor, new_registry, register, execute,
  find_tools_by_tag, index_tags,
}
use cobalto.Agent.Tools.Find.{
  Registration, register_all, last_definition, was_tagged, find_tools_by_tag-registered,
}
use cobalto.Agent.Tools.Trail.{Request, execute_all, trail, execute_all-trail}

abbrev tool : List String → ToolDefinition
tool tags = record {
  name = "block";
  description = "";
  parameters = end;
  risk_level = high;
  requires_approval = true;
  timeout_seconds = 30;
  tags = tags;
  metadata = end;
}

-- The world counts the calls.
abbrev fails : Executor ℕ
fails arguments n = (1, error "timeout")

abbrev twice : List (Registration ℕ)
twice =
    record { definition = tool ("net" ∷ []); executor = fails; capabilities = [] }
    ∷ record { definition = tool []; executor = fails; capabilities = [] }
    ∷ []

find_tools_by_tag-registered_example :
    In (tool []) (find_tools_by_tag "net" (register_all twice new_registry)) ↔ (
      (last_definition "block" twice none ≡ some (tool []))
      × (was_tagged "net" "block" twice ≡ true))
find_tools_by_tag-registered_example = find_tools_by_tag-registered "net" (tool []) twice

-- The tool is found under the tag that its last registration dropped.
stale_tag : find_tools_by_tag "net" (register_all twice new_registry) ≡ tool [] ∷ []
unfolding find_tools_by_tag register index_tags insert lookup add
stale_tag = refl

abbrev request : String → Bool → Request
request name audit = record { name = name; arguments = end; audit = audit; duration = 2 }

abbrev requests : List Request
requests = request "block" true ∷ request "scan" true ∷ request "block" false ∷ []

execute_all-trail_example :
    let (r', world', answers) = execute_all requests 0 (register_all twice new_registry) in
    r'.call_history
    ≡ (register_all twice (new_registry {W = ℕ})).call_history ++ trail requests answers
execute_all-trail_example = execute_all-trail requests 0 (register_all twice new_registry)

replies :
    (execute_all requests 0 (register_all twice new_registry)).2
    ≡ answered (error "timeout") ∷ key_error ∷ answered (error "timeout") ∷ []
unfolding execute register lookup insert
replies = refl
