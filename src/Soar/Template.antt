-- ===== src/Soar/Template.antt =====
-- TemplateEngine: `{{name}}` and `{{a.b}}` in the texts of a playbook. The pattern is
-- {{(\w+(?:\.\w+)*)}}. Python's \w, str, hasattr with getattr and str.split are parameters.
pub mod Render
pub mod Substitute
mod Tests
use Prim.Native.Char.{Char, code}
use Prim.Native.String.{◌++◌, count}
use cobalto.Base.{
  ℕ, zero, suc, ◌+◌, ◌≡◌, ◌≢◌, String, Bool, true, false, ◌&&◌, Option, none, some, List, [], ◌∷◌,
  string_eq, nat_beq, if◌then◌else◌, contains, filter, not,
}
use cobalto.Base.Json.{
  Value, null, bool, num, str, decimal, list, obj, Items, cons, nil, Fields, end, field, get_field,
}
use cobalto.Base.Sets.{add}

pub record Python : Type 0 where
  -- \w, which the marks of a template are not
  pub is_word : Char → Bool
  pub marks_no_words :
      (c : Char) → is_word c ≡ true → (code c ≢ b'.') × (code c ≢ b'{') × (code c ≢ b'}')
  -- str(value)
  pub text_of : Value → String
  -- getattr(value, name) for a value that is no dict; `none` if hasattr is false
  pub attribute : String → Value → Option Value
  -- text.split(".")
  pub split_dots : String → List String

abbrev pub is_char : ℕ → Char → Bool
is_char n c = nat_beq (code c) n

-- A template as the matches of the pattern and the characters between them.
pub data Segment : Type 0 where
  plain : Char → Segment
  var : String → Segment

longer : Char → Option String → Option String
longer c none = none
longer c (some s) = some (String.◌∷◌ c s)

-- The second closing brace.
close : String → Option String
close String.[] = none
close (String.◌∷◌ c s) = if is_char b'}' c then some String.[] else none

-- The resolved value; a key that is missing is None.
or_null : Option Value → Value
or_null none = null
or_null (some v) = v

is_missing : Option Value → Bool
is_missing none = true
is_missing (some v) = false

is_empty : List String → Bool
is_empty [] = true
is_empty (x ∷ xs) = false

module _ (python : Python) where
  open python use {is_word, text_of, attribute, split_dots}

  -- The path from here on, after a character of a word or not, up to the closing braces.
  path_of : Bool → String → Option String
  unfolding longer close
  path_of started String.[] = none
  path_of started (String.◌∷◌ c s) =
      let rest = path_of (is_word c) s in
      if is_word c
      then longer c rest
      else if started
      then (if is_char b'.' c then longer c rest else if is_char b'}' c then close s else none)
      else none

  -- A match of the pattern at the start of a text.
  match_path : String → Option String
  unfolding path_of
  match_path (String.◌∷◌ c (String.◌∷◌ d s)) =
      if is_char b'{' c && is_char b'{' d then path_of false s else none
  match_path (String.◌∷◌ c String.[]) = none
  match_path String.[] = none

  segment_of : Char → Option String → Segment
  segment_of c none = plain c
  segment_of c (some path) = var path

  -- How many characters after the first a match takes.
  width_of : Option String → ℕ
  width_of none = 0
  width_of (some path) = count path + 3

  -- The first characters to be passed over belong to a match.
  segments_after : ℕ → String → List Segment
  unfolding match_path segment_of width_of
  segments_after n String.[] = []
  segments_after (suc n) (String.◌∷◌ c s) = segments_after n s
  segments_after zero (String.◌∷◌ c s) =
      let found = match_path (String.◌∷◌ c s) in
      segment_of c found ∷ segments_after (width_of found) s

  unfoldable pub segments : String → List Segment
  unfolding segments_after
  segments template = segments_after 0 template

  resolve_parts : List String → Value → Value
  unfolding or_null
  resolve_parts [] v = v
  resolve_parts (part ∷ parts) (obj fields) = resolve_parts parts (or_null (get_field part fields))
  resolve_parts (part ∷ parts) v = elim (attribute part v) [
    | none ↦ null
    | some w ↦ resolve_parts parts w
  ]

  -- None is `null`.
  unfoldable pub resolve_variable : String → Fields → Value
  unfolding resolve_parts
  resolve_variable var_path context = resolve_parts (split_dots var_path) (obj context)

  -- match.group(0)
  abbrev pub mark_of : String → String
  mark_of path = "{{" ++ (path ++ "}}")

  replaced : Value → String → String
  replaced null path = mark_of path
  replaced v path = text_of v

  unfoldable pub replace_var : Fields → String → String
  unfolding replaced resolve_variable
  replace_var context path = replaced (resolve_variable path context) path

  render_segments : Fields → List Segment → String
  unfolding replace_var
  render_segments context [] = ""
  render_segments context (plain c ∷ rest) = String.◌∷◌ c (render_segments context rest)
  render_segments context (var path ∷ rest) =
      replace_var context path ++ render_segments context rest

  unfoldable pub render : String → Fields → String
  unfolding render_segments segments
  render template context = render_segments context (segments template)

  mutual
    unfolding render

    -- `value if not str`: the dicts of a list stay as they are.
    render_items : Fields → Items → Items
    render_items context nil = nil
    render_items context (cons (str s) vs) = cons (str (render s context)) (render_items context vs)
    render_items context (cons v vs) = cons v (render_items context vs)

    render_value : Fields → Value → Value
    render_value context null = null
    render_value context (bool b) = bool b
    render_value context (num n) = num n
    render_value context (str s) = str (render s context)
    render_value context (decimal m k) = decimal m k
    render_value context (list vs) = list (render_items context vs)
    render_value context (obj fs) = obj (render_fields context fs)

    render_fields : Fields → Fields → Fields
    render_fields context end = end
    render_fields context (field key v fs) =
        field key (render_value context v) (render_fields context fs)

  unfoldable pub render_dict : Fields → Fields → Fields
  unfolding render_fields
  render_dict fields context = render_fields context fields

  -- list(set(findall)), in an order that is not the source's
  variables_of : List Segment → List String
  variables_of [] = []
  variables_of (plain c ∷ rest) = variables_of rest
  variables_of (var path ∷ rest) = add path (variables_of rest)

  unfoldable pub extract_variables : String → List String
  unfolding variables_of segments
  extract_variables template = variables_of (segments template)

  unfoldable pub validate_template : String → Fields → Bool × List String
  unfolding extract_variables is_missing is_empty
  validate_template template available =
      let missing =
        filter (λ (v : String). is_missing (get_field v available)) (extract_variables template) in
      (is_empty missing, missing)
