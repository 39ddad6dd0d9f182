-- ===== src/Mcp/Protocol.antt =====
-- frameworks/mcp-bridge/src/cobalto/mcp/protocol.py: the messages of JSON-RPC and of the Model Context
-- Protocol, and `model_dump`, which turns what a handler returns into a dict. Pydantic's reading of a
-- field, the texts of exceptions and Python's printing are parameters.
use cobalto.Base.{ℕ, ◌≡◌, String, Bool, Option, none, some, List}
use cobalto.Base.Int.{ℤ, negsuc}
use cobalto.Base.Json.{Value, num, str, obj, Fields, end, field}

-- An exception with its str(e): a json.JSONDecodeError, or any other.
pub data Exception : Type 0 where
  decode_error other_error : String → Exception

-- What a call that may raise gives: the exception, or its value.
pub data Outcome (A : Type 0) : Type 0 where
  raised : Exception → Outcome A
  returned : A → Outcome A

unfoldable pub on_returned : {A B : Type 0} → Outcome A → (A → Outcome B) → Outcome B
on_returned (raised e) f = raised e
on_returned (returned a) f = f a

unfoldable pub or_raise : {A : Type 0} → String → Option A → Outcome A
or_raise e none = raised (other_error e)
or_raise e (some a) = returned a

-- Union[str, int]
pub data RequestId : Type 0 where
  text_id : String → RequestId
  number_id : ℕ → RequestId

pub record Request : Type 0 where
  pub id : RequestId
  pub method : String
  pub params : Option Fields

pub record Notification : Type 0 where
  pub method : String
  pub params : Option Fields

pub record RpcError : Type 0 where
  pub code : ℤ
  pub message : String
  pub detail : Value

pub record Response : Type 0 where
  pub id : RequestId
  pub result : Option Value
  pub error : Option RpcError

abbrev pub protocol_version : String
protocol_version = "2024-11-05"

pub data ErrorCode : Type 0 where
  parse_error invalid_request method_not_found invalid_params internal_error : ErrorCode
  resource_not_found resource_not_modified tool_not_found invalid_tool_arguments : ErrorCode
  prompt_not_found sampling_rejected : ErrorCode

unfoldable pub code_of : ErrorCode → ℤ
code_of parse_error = negsuc 32699
code_of invalid_request = negsuc 32599
code_of method_not_found = negsuc 32600
code_of invalid_params = negsuc 32601
code_of internal_error = negsuc 32602
code_of resource_not_found = negsuc 32000
code_of resource_not_modified = negsuc 32001
code_of tool_not_found = negsuc 32002
code_of invalid_tool_arguments = negsuc 32003
code_of prompt_not_found = negsuc 32004
code_of sampling_rejected = negsuc 32005

-- Every field is Optional[Dict]; the default is the empty dict.
pub record ServerCapabilities : Type 0 where
  pub tools : Value
  pub resources : Value
  pub prompts : Value
  pub logging : Value
  pub sampling : Value
  pub roots : Value

abbrev pub default_capabilities : ServerCapabilities
default_capabilities = record {
  tools = obj end;
  resources = obj end;
  prompts = obj end;
  logging = obj end;
  sampling = obj end;
  roots = obj end;
}

unfoldable pub dump_capabilities : ServerCapabilities → Value
dump_capabilities c = obj (
    field "tools" c.tools (
      field "resources" c.resources (
        field "prompts" c.prompts
          (field "logging" c.logging (field "sampling" c.sampling (field "roots" c.roots end))))))

pub record ResourceContents : Type 0 where
  pub uri : String
  pub mime_type : Option String
  pub content : Option String
  pub blob : Option String

pub data Content : Type 0 where
  text_content : String → Content
  image_content : String → String → Content
  resource_content : ResourceContents → Content

-- The schema's `type`, `properties` and `required`.
pub record ToolInputSchema : Type 0 where
  pub kind : String
  pub properties : Fields
  pub required : List String

pub record Tool : Type 0 where
  pub name : String
  pub description : Option String
  pub input_schema : ToolInputSchema

pub record ToolCallResult : Type 0 where
  pub content : List Content
  pub is_error : Bool
  pub metadata : Option Fields

pub record Resource : Type 0 where
  pub uri : String
  pub name : String
  pub description : Option String
  pub mime_type : Option String

pub record PromptArgument : Type 0 where
  pub name : String
  pub description : Option String
  pub required : Bool

pub record Prompt : Type 0 where
  pub name : String
  pub description : Option String
  pub arguments : Option (List PromptArgument)

pub record PromptMessage : Type 0 where
  pub role : String
  pub content : Content

pub record PromptResult : Type 0 where
  pub description : Option String
  pub messages : List PromptMessage

-- What the handler of `initialize` uses of MCPInitializeParams: the dumped capabilities and the
-- client's description.
pub record InitializeParams : Type 0 where
  pub capabilities : Value
  pub client_info : Value

-- Pydantic and the standard library, in what they document.
pub record Runtime : Type 1 where
  pub as_text : Value → Option String
  pub as_id : Value → Option RequestId
  pub as_dict : Value → Option Fields
  pub as_input_schema : Fields → Option ToolInputSchema
  pub as_initialize : Fields → Option InitializeParams
  pub Sampling : Type 0
  pub as_sampling : Fields → Option Sampling
  -- the text of a ValidationError, a TypeError or an AttributeError over a value
  pub complaint : Value → String
  -- json.loads, json.dumps(_, default=str), str
  pub loads : String → Outcome Value
  pub dumps : Value → String
  pub to_text : Value → String
  pub dumps_response : Response → String
  -- `re.sub`, and `bool(re.match(…))`, or the exception `re.error`
  pub re_sub : String → String → String → String
  pub re_match : String → String → Outcome Bool
  pub as_text-str : (s : String) → as_text (str s) ≡ some s
  pub as_id-str : (s : String) → as_id (str s) ≡ some (text_id s)
  pub as_id-num : (n : ℕ) → as_id (num n) ≡ some (number_id n)
  pub as_dict-obj : (fs : Fields) → as_dict (obj fs) ≡ some fs
