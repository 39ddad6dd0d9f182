-- ===== src/Mcp/Source.antt =====
-- What the MCP server of frameworks/mcp-bridge/src/cobalto/mcp/server.py uses of its registry of tools,
-- which is a ToolRegistry or the adapter of the agents' registry. A call takes the duration that the
-- clock shows.
use cobalto.Base.{ℕ, ◌≡◌, String, Option, List}
use cobalto.Base.Json.{Fields}
use cobalto.Mcp.Protocol.{Outcome, Tool, ToolCallResult}

pub record ToolSource (W : Type 0) : Type 1 where
  pub State : Type 0
  pub list_tools : State → Outcome (List Tool)
  pub list_tool_names : State → List String
  pub call_tool : ℕ → String → Option Fields → W → State → State × W × ToolCallResult
  -- A call leaves the tools that are listed.
  pub list_tools-call_tool :
      (t : ℕ) (name : String) (a : Option Fields) (w : W) (s : State)
      → list_tools ((call_tool t name a w s).0) ≡ list_tools s
  pub list_tool_names-call_tool :
      (t : ℕ) (name : String) (a : Option Fields) (w : W) (s : State)
      → list_tool_names ((call_tool t name a w s).0) ≡ list_tool_names s
