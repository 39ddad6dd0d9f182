-- ===== src/Console/Auth/Users.antt =====
-- load_users of services/console-auth/main.py: the users of the configuration text. The methods
-- strip and split of the texts are parameters.
use cobalto.Base.{
  String, List, [], ◌∷◌, string_eq, ◌==◌, if◌then◌else◌, arith, Bool-cases, inl, inr,
}
use cobalto.Base.Dict.{Dict, lookup, insert, lookup-insert}
use cobalto.Console.Auth.{UserEntry, IsKeyed}

abbrev entry_of : String → String → String → String → UserEntry
entry_of username password_hash role display_name = record {
  username = username;
  password_hash = password_hash;
  role = role;
  display_name = display_name;
}

-- The parts of an entry, at most four.
unfoldable pub add_user : List String → Dict String UserEntry → Dict String UserEntry
add_user [] users = users
add_user (username ∷ []) users = users
add_user (username ∷ hash ∷ []) users =
    insert username (entry_of username hash "analyst" username) users
add_user (username ∷ hash ∷ role ∷ []) users =
    insert username (entry_of username hash role username) users
add_user (username ∷ hash ∷ role ∷ name ∷ rest) users =
    insert username (entry_of username hash role name) users

insert-IsKeyed :
    (username hash role name : String) (users : Dict String UserEntry)
    → IsKeyed users
    → IsKeyed (insert username (entry_of username hash role name) users)
insert-IsKeyed username hash role name users h k u found = ground (
  arith,
  string_eq.same_iff username k,
  found,
  h k u,
  lookup-insert username k (entry_of username hash role name) users,
)

add_user-IsKeyed :
    (parts : List String) (users : Dict String UserEntry)
    → IsKeyed users
    → IsKeyed (add_user parts users)
unfolding add_user
add_user-IsKeyed [] users h = h
add_user-IsKeyed (username ∷ []) users h = h
add_user-IsKeyed (username ∷ hash ∷ []) users h =
    insert-IsKeyed username hash "analyst" username users h
add_user-IsKeyed (username ∷ hash ∷ role ∷ []) users h =
    insert-IsKeyed username hash role username users h
add_user-IsKeyed (username ∷ hash ∷ role ∷ name ∷ rest) users h =
    insert-IsKeyed username hash role name users h

module _ (strip : String → String) (split_comma split_colon : String → List String) where
  unfoldable pub add_users : List String → Dict String UserEntry → Dict String UserEntry
  unfolding add_user
  add_users [] users = users
  add_users (text ∷ rest) users =
      let entry = strip text in
      add_users rest (if entry == "" then users else add_user (split_colon entry) users)

  unfoldable pub load_users : String → Dict String UserEntry
  unfolding add_users
  load_users users_str = if users_str == "" then [] else add_users (split_comma users_str) []

  add_users-IsKeyed :
      (entries : List String) (users : Dict String UserEntry)
      → IsKeyed users
      → IsKeyed (add_users entries users)
  unfolding add_users
  add_users-IsKeyed [] users h = h
  add_users-IsKeyed (text ∷ rest) users h = elim (Bool-cases (strip text == "")) [
    | inl empty ↦ rw empty (add_users-IsKeyed rest users h)
    | inr entry ↦ rw entry (
        add_users-IsKeyed rest (add_user (split_colon (strip text)) users)
          (add_user-IsKeyed (split_colon (strip text)) users h))
  ]

  empty-IsKeyed : IsKeyed []
  unfolding lookup
  empty-IsKeyed name u h = cc

  -- The users of the configuration are keyed by their names.
  pub load_users-IsKeyed : (users_str : String) → IsKeyed (load_users users_str)
  unfolding load_users
  load_users-IsKeyed users_str = elim (Bool-cases (users_str == "")) [
    | inl empty ↦ rw empty empty-IsKeyed
    | inr full ↦ rw full (add_users-IsKeyed (split_comma users_str) [] empty-IsKeyed)
  ]
