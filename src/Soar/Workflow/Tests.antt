-- ===== src/Soar/Workflow/Tests.antt =====
-- A workflow whose IF node has two outputs.
use cobalto.Base.{◌≡◌, refl, String, none, List, [], ◌∷◌, string_eq, nat_eq}
use cobalto.Base.Dict.{lookup, insert}
use cobalto.Base.Int.{pos, negsuc}
use cobalto.Base.Json.{nil}
use cobalto.Soar.Workflow.{
  WorkflowBuilder, new_builder, connect, Target, Workflow, append_at, add_connections, build,
  outputs_or_new, add_connection, pad_to, position, Built, finished, index_error, out_of_fuel,
}
use cobalto.Soar.Workflow.Nodes.{add_node, add_webhook, add_if}
use cobalto.Soar.Workflow.Wiring.{IsBuilt, build-IsBuilt}

abbrev triage : WorkflowBuilder
triage = connect "check" "close" (pos 1) (pos 0) (
    connect "check" "isolate" (pos 0) (pos 0) (
      connect "alert" "check" (pos 0) (pos 0) (
        add_if "n2" "check" nil none
          (add_webhook "n1" "alert" "a" "POST" "none" none (new_builder "triage" "")))))

build-IsBuilt_example : IsBuilt triage (build triage)
build-IsBuilt_example = build-IsBuilt triage

abbrev connections_or_none : Built Workflow → List (String × List (List Target))
connections_or_none out_of_fuel = []
connections_or_none index_error = []
connections_or_none (finished w) = w.connections

abbrev target : String → Target
target name = record { node = name; index = pos 0 }

-- The second output of the IF node was not there when it was connected.
build_test :
    connections_or_none (build triage)
    ≡ ("alert", (target "check" ∷ []) ∷ [])
      ∷ ("check", (target "isolate" ∷ []) ∷ (target "close" ∷ []) ∷ [])
      ∷ []
unfolding build add_connections add_connection pad_to position append_at outputs_or_new lookup
    insert new_builder add_webhook add_if add_node
build_test = refl

-- The output -1 is the last one, and -3 of two outputs raises an IndexError.
last_test :
    connections_or_none (build (connect "check" "log" (negsuc 0) (pos 0) triage))
    ≡ ("alert", (target "check" ∷ []) ∷ [])
      ∷ ("check", (target "isolate" ∷ []) ∷ (target "close" ∷ target "log" ∷ []) ∷ [])
      ∷ []
unfolding build add_connections add_connection pad_to position append_at outputs_or_new lookup
    insert new_builder add_webhook add_if add_node
last_test = refl

below_test : build (connect "check" "log" (negsuc 2) (pos 0) triage) ≡ index_error
unfolding build add_connections add_connection pad_to position append_at outputs_or_new lookup
    insert new_builder add_webhook add_if add_node
below_test = refl
