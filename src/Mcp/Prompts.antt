-- ===== src/Mcp/Prompts.antt =====
-- PromptRegistry of frameworks/mcp-bridge/src/cobalto/mcp/registry/prompts.py. The class defines
-- `get_prompt` twice; the second definition, which renders the prompt, is the one that Python keeps.
use Prim.Native.String.{◌++◌}
use cobalto.Base.{
  String, Bool, true, false, Option, none, some, List, [], ◌∷◌, map, filter, contains, string_eq,
  if◌then◌else◌,
}
use cobalto.Base.Dict.{Dict, lookup, insert, erase, keys, values, has_key}
use cobalto.Base.Json.{Value, str, Fields, get_field_or}
use cobalto.Mcp.Protocol.{
  decode_error, other_error, Outcome, raised, returned, on_returned, or_raise, text_content,
  PromptArgument, Prompt, PromptMessage, PromptResult, Runtime,
}
use cobalto.Mcp.Tools.{text_or}

-- An element of the list that a prompt's function gives.
pub data PromptPart : Type 0 where
  message_part : PromptMessage → PromptPart
  dict_part : Fields → PromptPart
  text_part : String → PromptPart
  other_part : PromptPart

-- What a prompt's function gives.
pub data PromptAnswer : Type 0 where
  finished : PromptResult → PromptAnswer
  one_text : String → PromptAnswer
  parts : List PromptPart → PromptAnswer
  other : Value → PromptAnswer
  failed : String → PromptAnswer

unfoldable pub user_message : String → PromptMessage
user_message s = record { role = "user"; content = text_content s }

unfoldable pub user_result : String → String → PromptResult
unfolding user_message
user_result description s = record {
  description = some description;
  messages = user_message s ∷ [];
}

module _ (W : Type 0) where
  pub record PromptFunction : Type 0 where
    pub func_name : String
    pub doc : Option String
    pub call : Fields → W → W × PromptAnswer

  pub record PromptDefinition : Type 0 where
    pub name : String
    pub description : String
    pub func : PromptFunction
    pub arguments : List PromptArgument
    pub tags : List String

  -- The arguments of the decorator `register`, those of the prompt as MCPPromptArgument.
  pub record PromptRegistration : Type 0 where
    pub name : Option String
    pub description : Option String
    pub arguments : List PromptArgument
    pub tags : List String

  abbrev pub PromptRegistry : Type 0
  PromptRegistry = Dict String PromptDefinition

arguments_or_none : List PromptArgument → Option (List PromptArgument)
arguments_or_none [] = none
arguments_or_none (a ∷ l) = some (a ∷ l)

module _ {W : Type 0} where
  prompt_of : PromptRegistration W → PromptFunction W → PromptDefinition W
  unfolding text_or
  prompt_of a f = record {
    name = text_or a.name f.func_name;
    description = text_or a.description (text_or f.doc ("Prompt: " ++ text_or a.name f.func_name));
    func = f;
    arguments = a.arguments;
    tags = a.tags;
  }

  unfoldable pub register_prompt :
      PromptRegistration W → PromptFunction W → PromptRegistry W → PromptRegistry W
  unfolding prompt_of
  register_prompt a f r = insert (prompt_of a f).name (prompt_of a f) r

  unfoldable pub unregister_prompt : String → PromptRegistry W → PromptRegistry W × Bool
  unregister_prompt name r = if has_key name r then (erase name r, true) else (r, false)

  abbrev pub list_prompt_names : PromptRegistry W → List String
  list_prompt_names r = keys r

  to_prompt : PromptDefinition W → Prompt
  unfolding arguments_or_none
  to_prompt d = record {
    name = d.name;
    description = some d.description;
    arguments = arguments_or_none d.arguments;
  }

  unfoldable pub list_prompts : PromptRegistry W → List Prompt
  unfolding to_prompt
  list_prompts r = map to_prompt (values r)

  unfoldable pub get_prompts_by_tag : String → PromptRegistry W → List Prompt
  unfolding to_prompt
  get_prompts_by_tag tag r =
      map to_prompt (filter (λ (d : PromptDefinition W). contains tag d.tags) (values r))

-- `except Exception`
prompt_error : String → PromptResult
unfolding user_result
prompt_error e = user_result ("Error in prompt: " ++ e) ("Error: " ++ e)

with_messages : String → Outcome (List PromptMessage) → PromptResult
unfolding prompt_error
with_messages description (raised (decode_error e)) = prompt_error e
with_messages description (raised (other_error e)) = prompt_error e
with_messages description (returned l) = record { description = some description; messages = l }

module _ (R : Runtime) where
  -- `msg.get("role", "user")` and `msg.get("content", "")`, which must be texts
  dict_message : Fields → Outcome PromptMessage
  unfolding on_returned or_raise
  dict_message fs =
      let role = get_field_or "role" (str "user") fs in
      let content = get_field_or "content" (str "") fs in
      on_returned (or_raise (R.complaint content) (R.as_text content)) λ (s : String).
        on_returned (or_raise (R.complaint role) (R.as_text role))
          λ (r : String). returned (record { role = r; content = text_content s })

  -- An element of another type is left out.
  messages_of : List PromptPart → Outcome (List PromptMessage)
  unfolding on_returned dict_message user_message
  messages_of [] = returned []
  messages_of (message_part m ∷ l) =
      on_returned (messages_of l) λ (rest : List PromptMessage). returned (m ∷ rest)
  messages_of (dict_part fs ∷ l) = on_returned (dict_message fs) λ (m : PromptMessage).
      on_returned (messages_of l) λ (rest : List PromptMessage). returned (m ∷ rest)
  messages_of (text_part s ∷ l) =
      on_returned (messages_of l) λ (rest : List PromptMessage). returned (user_message s ∷ rest)
  messages_of (other_part ∷ l) = messages_of l

  unfoldable pub prompt_result : String → PromptAnswer → PromptResult
  unfolding prompt_error with_messages messages_of user_result
  prompt_result description (finished r) = r
  prompt_result description (one_text s) = user_result description s
  prompt_result description (parts l) = with_messages description (messages_of l)
  prompt_result description (other v) = user_result description (R.to_text v)
  prompt_result description (failed e) = prompt_error e

module _ (R : Runtime) {W : Type 0} where
  -- The arguments are none where they are no mapping, and the call raises a TypeError.
  call_prompt : PromptDefinition W → Value → Option Fields → W → W × PromptResult
  unfolding prompt_result prompt_error
  call_prompt d v none w = (w, prompt_error (R.complaint v))
  call_prompt d v (some arguments) w =
      let (w', a) = d.func.call arguments w in (w', prompt_result R d.description a)

  render_found : Option (PromptDefinition W) → String → Value → Option Fields → W → W × PromptResult
  unfolding call_prompt user_result
  render_found none name v arguments w =
      (w, user_result ("Prompt not found: " ++ name) ("Prompt not found: " ++ name))
  render_found (some d) name v arguments w = call_prompt d v arguments w

  unfoldable pub get_prompt :
      String → Value → Option Fields → W → PromptRegistry W → W × PromptResult
  unfolding render_found
  get_prompt name v arguments w r = render_found (lookup name r) name v arguments w
