-- ===== src/Mcp/Resources.antt =====
-- ResourceRegistry of frameworks/mcp-bridge/src/cobalto/mcp/registry/resources.py. A resource's function
-- takes the URI and acts on the world outside; regular expressions are a parameter.
use Prim.Native.String.{◌++◌}
use cobalto.Base.{
  String, Bool, true, false, Option, none, some, List, [], ◌∷◌, map, string_eq, if◌then◌else◌,
}
use cobalto.Base.Dict.{Dict, lookup, insert, erase, keys, values, has_key}
use cobalto.Base.Json.{Value}
use cobalto.Mcp.Protocol.{
  Outcome, raised, returned, on_returned, ResourceContents, Resource, Runtime,
}
use cobalto.Mcp.Tools.{text_of, text_or}

-- What a resource's function gives.
pub data ResourceAnswer : Type 0 where
  one_content : ResourceContents → ResourceAnswer
  contents : List ResourceContents → ResourceAnswer
  answer : Value → ResourceAnswer
  failed : String → ResourceAnswer

unfoldable pub plain_contents : String → String → ResourceContents
plain_contents uri s = record { uri = uri; mime_type = none; content = some s; blob = none }

module _ (W : Type 0) where
  pub record ResourceFunction : Type 0 where
    pub func_name : String
    pub doc : Option String
    pub call : String → W → W × ResourceAnswer

  pub record ResourceDefinition : Type 0 where
    pub uri : String
    pub name : String
    pub description : String
    pub func : ResourceFunction
    pub mime_type : String
    pub is_template : Bool
    pub uri_template : String
    pub tags : List String

  -- The arguments of the decorator `register`.
  pub record ResourceRegistration : Type 0 where
    pub uri : String
    pub name : Option String
    pub description : Option String
    pub mime_type : String
    pub is_template : Bool
    pub uri_template : Option String
    pub tags : List String

  pub record ResourceRegistry : Type 0 where
    pub resources : Dict String ResourceDefinition
    pub templates : Dict String ResourceDefinition

module _ {W : Type 0} where
  abbrev pub empty_resources : ResourceRegistry W
  empty_resources = record { resources = []; templates = [] }

  resource_of : ResourceRegistration W → ResourceFunction W → ResourceDefinition W
  unfolding text_or
  resource_of a f = record {
    uri = a.uri;
    name = text_or a.name f.func_name;
    description =
        text_or a.description (text_or f.doc ("Resource: " ++ text_or a.name f.func_name));
    func = f;
    mime_type = a.mime_type;
    is_template = a.is_template;
    uri_template = text_or a.uri_template a.uri;
    tags = a.tags;
  }

  unfoldable pub register_resource :
      ResourceRegistration W → ResourceFunction W → ResourceRegistry W → ResourceRegistry W
  unfolding resource_of
  register_resource a f r =
      if a.is_template
      then record r { templates = insert a.uri (resource_of a f) r.templates }
      else record r { resources = insert a.uri (resource_of a f) r.resources }

  -- Only the resources with a fixed URI: a template stays.
  unfoldable pub unregister_resource : String → ResourceRegistry W → ResourceRegistry W × Bool
  unregister_resource uri r =
      if has_key uri r.resources
      then (record r { resources = erase uri r.resources }, true)
      else (r, false)

  abbrev pub clear_resources : ResourceRegistry W → ResourceRegistry W
  clear_resources r = record { resources = []; templates = [] }

  abbrev pub list_uris : ResourceRegistry W → List String
  list_uris r = keys r.resources

  abbrev to_resource : ResourceDefinition W → Resource
  to_resource d = record {
    uri = d.uri;
    name = d.name;
    description = some d.description;
    mime_type = some d.mime_type;
  }

  unfoldable pub list_resources : ResourceRegistry W → List Resource
  list_resources r = map to_resource (values r.resources)

  abbrev to_template : ResourceDefinition W → Resource
  to_template d = record (to_resource d) { uri = text_or (some d.uri_template) d.uri }

  unfoldable pub list_templates : ResourceRegistry W → List Resource
  list_templates r = map to_template (values r.templates)

module _ (R : Runtime) where
  uri_matches_template : String → String → Outcome Bool
  uri_matches_template uri template =
      R.re_match ("^" ++ R.re_sub "\\{[^}]+\\}" "[^/]+" template ++ "$") uri

  unfoldable pub contents_of : String → String → ResourceAnswer → List ResourceContents
  unfolding plain_contents
  contents_of uri mime_type (one_content c) = c ∷ []
  contents_of uri mime_type (contents l) = l
  contents_of uri mime_type (answer v) =
      record (plain_contents uri (text_of R v)) { mime_type = some mime_type } ∷ []
  contents_of uri mime_type (failed e) = plain_contents uri ("Error reading resource: " ++ e) ∷ []

module _ (R : Runtime) {W : Type 0} where
  first_match :
      String → Dict String (ResourceDefinition W) → Outcome (Option (ResourceDefinition W))
  unfolding on_returned uri_matches_template
  first_match uri [] = returned none
  first_match uri ((template, d) ∷ templates) =
      let rest = first_match uri templates in
      on_returned (uri_matches_template R uri template)
        λ (b : Bool). if b then returned (some d) else rest

  unfoldable pub match_template :
      String → ResourceRegistry W → Outcome (Option (ResourceDefinition W))
  unfolding first_match
  match_template uri r = first_match uri r.templates

  -- The exact match first.
  definition_for :
      Option (ResourceDefinition W)
      → Outcome (Option (ResourceDefinition W))
      → Outcome (Option (ResourceDefinition W))
  definition_for none matched = matched
  definition_for (some d) matched = returned (some d)

  read_from :
      Outcome (Option (ResourceDefinition W)) → String → W → W × Outcome (List ResourceContents)
  unfolding plain_contents contents_of
  read_from (raised e) uri w = (w, raised e)
  read_from (returned none) uri w =
      (w, returned (plain_contents uri ("Resource not found: " ++ uri) ∷ []))
  read_from (returned (some d)) uri w =
      let (w', a) = d.func.call uri w in (w', returned (contents_of R uri d.mime_type a))

  unfoldable pub read_resource :
      String → W → ResourceRegistry W → W × Outcome (List ResourceContents)
  unfolding definition_for read_from match_template
  read_resource uri w r =
      read_from (definition_for (lookup uri r.resources) (match_template uri r)) uri w
