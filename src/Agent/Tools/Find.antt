-- ===== src/Agent/Tools/Find.antt =====
-- Which tools a tag finds.
use cobalto.Base.{
  ◌≡◌, refl, sym, subst, ◌∙◌, ap, ◌↔◌, ◌⊎◌, inl, inr, String, Bool, true, false, ◌&&◌, ◌||◌, Option,
  none, some, List, [], ◌∷◌, In, contains, string_eq, ◌==◌, if◌then◌else◌, arith, ==_true, ==_sound,
}
use cobalto.Base.Dict.{Dict, lookup, lookup-insert}
use cobalto.Base.Sets.{add, contains-add}
use cobalto.Agent.Tools.{
  ToolDefinition, names_or_none, names_of, index_tag, index_tags, definitions_of, with_found,
  Executor, Registry, new_registry, register, find_tools_by_tag,
}

some_tool : {t u : ToolDefinition} → some t ≡ some u → t ≡ u
some_tool h = cc

names_of-index_tag :
    (name tag t n : String) (index : Dict String (List String))
    → contains n (names_of t (index_tag name tag index))
      ≡ ((tag == t && n == name) || contains n (names_of t index))
unfolding names_of index_tag names_or_none
names_of-index_tag name tag t n index = ground (
  arith,
  string_eq.same_iff tag t,
  string_eq.same_iff n name,
  string_eq.same_iff name n,
  lookup-insert tag t (add name (names_or_none (lookup tag index))) index,
  contains-add name n (names_or_none (lookup tag index)),
)

names_of-index_tags :
    (name t n : String) (tags : List String) (index : Dict String (List String))
    → contains n (names_of t (index_tags name tags index))
      ≡ ((n == name && contains t tags) || contains n (names_of t index))
unfolding index_tags
names_of-index_tags name t n [] index = ground arith
names_of-index_tags name t n (tag ∷ tags) index = ground (
  arith,
  string_eq.same_iff tag t,
  string_eq.same_iff t tag,
  names_of-index_tags name t n tags (index_tag name tag index),
  names_of-index_tag name tag t n index,
)

either_named :
    (b : Bool) (d : ToolDefinition) (o : Option ToolDefinition) (n : String) (u : ToolDefinition)
    → (b ≡ true → d.name ≡ n)
    → ((v : ToolDefinition) → o ≡ some v → v.name ≡ n)
    → (if b then some d else o) ≡ some u
    → u.name ≡ n
either_named true d o n u same h e =
    subst (λ (v : ToolDefinition). v.name ≡ n) (some_tool e) (same refl)
either_named false d o n u same h e = h u e

-- A call of `register`.
pub record Registration (W : Type 0) : Type 0 where
  pub definition : ToolDefinition
  pub executor : Executor W
  pub capabilities : List String

found_at :
    (t : ToolDefinition) (o : Option ToolDefinition) (rest : List ToolDefinition)
    → In t (with_found o rest)
    → (o ≡ some t) ⊎ In t rest
unfolding with_found
found_at t none rest h = inr h
found_at t (some u) rest (inl same) = inl (ap some (sym same))
found_at t (some u) rest (inr h) = inr h

found-In :
    (t : ToolDefinition) (names : List String) (d : Dict String ToolDefinition)
    → In t (definitions_of names d)
    → (n : String) × (contains n names ≡ true) × (lookup n d ≡ some t)
unfolding definitions_of
found-In t [] d h = absurd h
found-In t (m ∷ names) d h = elim (found_at t (lookup m d) (definitions_of names d) h) [
  | inl e ↦ (m, ground (arith, ==_true m), e)
  | inr k ↦ let (n, listed, e) = found-In t names d k in (n, ground (arith, listed), e)
]

kept_by :
    (t : ToolDefinition) (o : Option ToolDefinition) (rest : List ToolDefinition)
    → In t rest
    → In t (with_found o rest)
unfolding with_found
kept_by t none rest h = h
kept_by t (some u) rest h = inr h

there :
    (t : ToolDefinition) (o : Option ToolDefinition) (rest : List ToolDefinition)
    → o ≡ some t
    → In t (with_found o rest)
unfolding with_found
there t none rest h = cc
there t (some u) rest h = inl (sym (some_tool h))

or_nothing : (b : Bool) → (b || false) ≡ b
or_nothing true = refl
or_nothing false = refl

either_true : (a b : Bool) → (a || b) ≡ true → (a ≡ true) ⊎ (b ≡ true)
either_true true b h = inl refl
either_true false b h = inr h

found_by_name :
    (n : String) (t : ToolDefinition) (names : List String) (d : Dict String ToolDefinition)
    → contains n names ≡ true
    → lookup n d ≡ some t
    → In t (definitions_of names d)
unfolding definitions_of
found_by_name n t [] d h k = cc
found_by_name n t (m ∷ names) d h k = elim (either_true (n == m) (contains n names) h) [
  | inl same ↦
      there t (lookup m d) (definitions_of names d)
        (ap (λ (x : String). lookup x d) (sym (==_sound same)) ∙ k)
  | inr later ↦ kept_by t (lookup m d) (definitions_of names d) (found_by_name n t names d later k)
]

module _ {W : Type 0} where
  abbrev pub register_all : List (Registration W) → Registry W → Registry W
  register_all [] r = r
  register_all (c ∷ cs) r = register_all cs (register c.definition c.executor c.capabilities r)

  -- The name was registered with the tag at any time.
  abbrev pub was_tagged : String → String → List (Registration W) → Bool
  was_tagged tag n [] = false
  was_tagged tag n (c ∷ cs) =
      (n == c.definition.name && (contains tag c.definition.tags || contains tag c.capabilities))
      || was_tagged tag n cs

  -- The last definition that was registered under a name.
  abbrev pub last_definition :
      String → List (Registration W) → Option ToolDefinition → Option ToolDefinition
  last_definition n [] t = t
  last_definition n (c ∷ cs) t =
      last_definition n cs (if c.definition.name == n then some c.definition else t)

  names_of-register_all :
      (tag n : String) (cs : List (Registration W)) (r : Registry W)
      → contains n (names_of tag (register_all cs r).capability_tags)
        ≡ (was_tagged tag n cs || contains n (names_of tag r.capability_tags))
  unfolding register
  names_of-register_all tag n [] r = refl
  names_of-register_all tag n (c ∷ cs) r = ground (
    arith,
    names_of-register_all tag n cs (register c.definition c.executor c.capabilities r),
    names_of-index_tags c.definition.name tag n c.capabilities
        (index_tags c.definition.name c.definition.tags r.capability_tags),
    names_of-index_tags c.definition.name tag n c.definition.tags r.capability_tags,
  )

  definitions-register_all :
      (n : String) (cs : List (Registration W)) (r : Registry W)
      → lookup n (register_all cs r).definitions ≡ last_definition n cs (lookup n r.definitions)
  unfolding register
  definitions-register_all n [] r = refl
  definitions-register_all n (c ∷ cs) r =
      definitions-register_all n cs (register c.definition c.executor c.capabilities r)
      ∙ ap (last_definition n cs) (lookup-insert c.definition.name n c.definition r.definitions)

  tagged_only :
      (tag n : String) (cs : List (Registration W))
      → contains n (names_of tag (register_all cs new_registry).capability_tags)
        ≡ was_tagged tag n cs
  unfolding names_of names_or_none lookup
  tagged_only tag n cs =
      names_of-register_all tag n cs new_registry ∙ or_nothing (was_tagged tag n cs)

  named :
      (n : String) (cs : List (Registration W)) (o : Option ToolDefinition) (t : ToolDefinition)
      → ((u : ToolDefinition) → o ≡ some u → u.name ≡ n)
      → last_definition n cs o ≡ some t
      → t.name ≡ n
  named n [] o t h e = h t e
  named n (c ∷ cs) o t h e =
      named n cs (if c.definition.name == n then some c.definition else o) t
        (λ u k. either_named (c.definition.name == n) c.definition o n u ==_sound h k) e

  -- After any registrations, a tag finds exactly the tools that are the last of their name and whose
  -- name was registered with the tag at any time.
  pub find_tools_by_tag-registered :
      (tag : String) (t : ToolDefinition) (cs : List (Registration W))
      → In t (find_tools_by_tag tag (register_all cs new_registry))
        ↔ ((last_definition t.name cs none ≡ some t) × (was_tagged tag t.name cs ≡ true))
  unfolding find_tools_by_tag lookup
  find_tools_by_tag-registered tag t cs =
      let r = register_all cs (new_registry {W = W}) in
      let names = names_of tag r.capability_tags in
      let stored = definitions-register_all t.name cs (new_registry {W = W}) in
      (
        (λ h.
            let (n, listed, found) = found-In t names r.definitions h in
            let last : last_definition n cs none ≡ some t =
              sym (definitions-register_all n cs new_registry) ∙ found in
            let same : t.name ≡ n = named n cs none t (λ u e. cc) last in
            subst
              (λ (m : String). (last_definition m cs none ≡ some t) × (was_tagged tag m cs ≡ true))
              (sym same) (last, sym (tagged_only tag n cs) ∙ listed)),
        (λ h.
            let (last, tagged) = h in
            found_by_name t.name t names r.definitions (tagged_only tag t.name cs ∙ tagged)
              (stored ∙ last)),
      )
