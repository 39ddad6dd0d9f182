-- ===== src/Soar/Workflow/Nodes.antt =====
-- The methods of WorkflowBuilder of frameworks/soar-sdk/src/cobalto/soar/workflow_builder.py that add a
-- node.
use cobalto.Base.{ℕ, String, Option, none, some, [], ◌∷◌, ◌++◌}
use cobalto.Base.Dict.{Dict}
use cobalto.Base.Json.{str, list, obj, Items, Fields, end, field}
use cobalto.Soar.Workflow.{
  NodeType, webhook, http_request, code, if_node, switch, set_node, slack, langgraph, qdrant,
  elasticsearch, NodePosition, WorkflowBuilder,
}

-- `position or NodePosition(…)`
position_or : Option NodePosition → ℕ → ℕ → NodePosition
position_or none x y = record { x = x; y = y }
position_or (some p) x y = p

unfoldable pub add_node :
    String
    → String
    → NodeType
    → NodePosition
    → Fields
    → Dict String String
    → WorkflowBuilder
    → WorkflowBuilder
add_node id name kind position parameters credentials b = record b {
  nodes =
      b.nodes
      ++ record {
        id = id;
        name = name;
        kind = kind;
        position = position;
        parameters = parameters;
        credentials = credentials;
      }
        ∷ [];
}

-- The methods that add a node, each with the node's fresh id.
unfoldable pub add_webhook :
    String
    → String
    → String
    → String
    → String
    → Option NodePosition
    → WorkflowBuilder
    → WorkflowBuilder
unfolding add_node position_or
add_webhook id name path method authentication p b =
    add_node id name webhook (position_or p 250 300)
      (field "httpMethod" (str method) (
        field "path" (str path) (
          field "authentication" (str authentication)
            (field "responseMode" (str "responseNode") end))))
      [] b

unfoldable pub add_http_request :
    String
    → String
    → String
    → String
    → Fields
    → Fields
    → Option NodePosition
    → WorkflowBuilder
    → WorkflowBuilder
unfolding add_node position_or
add_http_request id name url method headers body p b =
    add_node id name http_request (position_or p 500 300)
      (field "url" (str url) (
        field "method" (str method) (
          field "headers" (obj headers) (
            field "body" (obj body) (
              field "options"
                (obj (
                  field "response"
                    (obj (field "response" (obj (field "responseFormat" (str "json") end)) end))
                    end))
                end)))))
      [] b

unfoldable pub add_code :
    String → String → String → Option NodePosition → WorkflowBuilder → WorkflowBuilder
unfolding add_node position_or
add_code id name js_code p b =
    add_node id name code (position_or p 750 300) (field "jsCode" (str js_code) end) [] b

unfoldable pub add_if :
    String → String → Items → Option NodePosition → WorkflowBuilder → WorkflowBuilder
unfolding add_node position_or
add_if id name conditions p b =
    add_node id name if_node (position_or p 1000 300) (field "conditions" (list conditions) end) []
      b

unfoldable pub add_switch :
    String → String → Items → Option NodePosition → WorkflowBuilder → WorkflowBuilder
unfolding add_node position_or
add_switch id name rules p b =
    add_node id name switch (position_or p 1000 300) (field "rules" (list rules) end) [] b

unfoldable pub add_set :
    String → String → Fields → Option NodePosition → WorkflowBuilder → WorkflowBuilder
unfolding add_node position_or
add_set id name values p b =
    add_node id name set_node (position_or p 500 500)
      (field "values" (obj values) (field "options" (obj end) end)) [] b

unfoldable pub add_slack_notification :
    String → String → String → String → Option NodePosition → WorkflowBuilder → WorkflowBuilder
unfolding add_node position_or
add_slack_notification id name channel message p b =
    add_node id name slack (position_or p 1250 300)
      (field "channel" (str channel)
        (field "text" (str message) (field "otherOptions" (obj end) end)))
      (("slackApi", "Slack API") ∷ []) b

unfoldable pub add_langgraph_agent :
    String → String → String → String → Option NodePosition → WorkflowBuilder → WorkflowBuilder
unfolding add_node position_or
add_langgraph_agent id name url agent_type p b =
    add_node id name langgraph (position_or p 750 300)
      (field "url" (str url) (field "agentType" (str agent_type) (field "options" (obj end) end)))
      [] b

unfoldable pub add_qdrant_search :
    String
    → String
    → String
    → String
    → String
    → Option NodePosition
    → WorkflowBuilder
    → WorkflowBuilder
unfolding add_node position_or
add_qdrant_search id name url collection query p b =
    add_node id name qdrant (position_or p 750 500)
      (field "url" (str url) (
        field "collection" (str collection)
          (field "query" (str query) (field "options" (obj end) end))))
      [] b

unfoldable pub add_elasticsearch_search :
    String
    → String
    → String
    → String
    → String
    → Option NodePosition
    → WorkflowBuilder
    → WorkflowBuilder
unfolding add_node position_or
add_elasticsearch_search id name url index query p b =
    add_node id name elasticsearch (position_or p 750 700)
      (field "url" (str url)
        (field "index" (str index) (field "query" (str query) (field "options" (obj end) end))))
      [] b
