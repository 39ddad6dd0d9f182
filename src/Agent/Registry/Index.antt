-- ===== src/Agent/Registry/Index.antt =====
-- Which agents the capability index lists, after each operation.
use mathlib.Core.Bool.{◌&&◌, ◌||◌, not}
use cobalto.Base.{
  String, ◌≡◌, refl, ◌∙◌, Bool, none, some, List, [], ◌∷◌, contains, arith, ◌==◌, string_eq,
  if◌then◌else◌, Option-cases, inl, inr,
}
use cobalto.Base.Dict.{Dict, lookup, insert, lookup-insert, lookup-erase}
use cobalto.Base.Sets.{add, discard, contains-add, contains-discard}
use cobalto.Agent.Registry.{
  AgentCapability, capability_eq, ids_of, index_all, unindex, unindex_all, store_or_drop,
}

abbrev pub Index : Type 0
Index = Dict AgentCapability (List String)

-- The index lists the agent under the capability.
unfoldable pub lists : Index → AgentCapability → String → Bool
unfolding ids_of
lists index cap id = contains id (ids_of cap index)

module _ (cap c : AgentCapability) (id j : String) (index : Index) where
  lists-add :
      lists (insert cap (add id (ids_of cap index)) index) c j
      ≡ ((cap == c && j == id) || lists index c j)
  unfolding lists
  lists-add = ground (
    arith,
    lookup-insert cap c (add id (ids_of cap index)) index,
    contains-add id j (ids_of cap index),
    capability_eq.same_iff cap c,
  )

  ids_of-store :
      (s : List String)
      → ids_of c (store_or_drop cap s index) ≡ (if cap == c then s else ids_of c index)
  unfolding ids_of store_or_drop
  ids_of-store [] = ground (arith, lookup-erase cap c index)
  ids_of-store (x ∷ xs) = ground (arith, lookup-insert cap c (x ∷ xs) index)

  drop-some :
      (ids : List String)
      → lookup cap index ≡ some ids
      → contains j (ids_of c (store_or_drop cap (discard id ids) index))
        ≡ (not (cap == c && id == j) && contains j (ids_of c index))
  drop-some ids found = rw (ids_of-store (discard id ids)) (
      unfold ids_of in
      ground (arith, found, contains-discard id j ids, capability_eq.same_iff cap c))

  drop-none :
      lookup cap index ≡ none
      → contains j (ids_of c index) ≡ (not (cap == c && id == j) && contains j (ids_of c index))
  unfolding ids_of
  drop-none missing = ground (arith, missing, capability_eq.same_iff cap c)

  lists-unindex :
      lists (unindex cap id (lookup cap index) index) c j
      ≡ (not (cap == c && id == j) && lists index c j)
  unfolding lists unindex
  lists-unindex = elim (Option-cases (lookup cap index)) [
    | inl missing ↦ rw (missing, unindex) (drop-none missing)
    | inr (ids, found) ↦ rw (found, unindex) (drop-some ids found)
  ]

-- After indexing an agent under its capabilities, those list it too.
pub lists-index_all :
    (c : AgentCapability) (id j : String) (caps : List AgentCapability) (index : Index)
    → lists (index_all id caps index) c j ≡ ((contains c caps && j == id) || lists index c j)
unfolding index_all
lists-index_all c id j [] index = refl
lists-index_all c id j (cap ∷ caps) index =
    lists-index_all c id j caps (insert cap (add id (ids_of cap index)) index)
    ∙ rw (lists-add cap c id j index)
        (ground (arith, capability_eq.same_iff cap c, capability_eq.same_iff c cap))

-- After taking an agent out of the index, the capabilities that were walked do not list it.
pub lists-unindex_all :
    (c : AgentCapability) (id j : String) (caps : List AgentCapability) (index : Index)
    → lists (unindex_all id caps index) c j ≡ (not (contains c caps && id == j) && lists index c j)
unfolding unindex_all
lists-unindex_all c id j [] index = refl
lists-unindex_all c id j (cap ∷ caps) index =
    lists-unindex_all c id j caps (unindex cap id (lookup cap index) index)
    ∙ rw (lists-unindex cap c id j index)
        (ground (arith, capability_eq.same_iff cap c, capability_eq.same_iff c cap))
