-- ===== src/Agent/Redis/Cells.antt =====
-- A Redis of lists: keys with the instant from which they are gone, and lists.
use cobalto.Base.{
  ℕ, ◌+◌, ◌<◌, ◌≡◌, refl, ◌∙◌, String, Option, none, some, List, [], ◌∷◌, arith, ltb, string_eq,
  ◌==◌, if◌then◌else◌, ==_true, ==_false,
}
use cobalto.Agent.Redis.{Redis, remove_all}

module _ (V : Type 0) where
  -- A value and, if it has one, the instant from which it is gone.
  pub record Kept : Type 0 where
    pub value : V
    pub until : Option ℕ

  pub record Cells : Type 0 where
    pub keys : List (String × Kept)
    pub lists : List (String × List String)

unfoldable pub get_list : String → List (String × List String) → List String
get_list l [] = []
get_list l ((m, xs) ∷ rest) = let later = get_list l rest in if m == l then xs else later

module _ {V : Type 0} where
  unfoldable pub alive : ℕ → V → Option ℕ → Option V
  alive t v none = some v
  alive t v (some e) = if ltb t e then some v else none

  unfoldable pub get_key : ℕ → String → List (String × Kept V) → Option V
  unfolding alive
  get_key t k [] = none
  get_key t k ((j, v) ∷ rest) =
      let later = get_key t k rest in if j == k then alive t v.value v.until else later

  abbrev pub set_key : String → V → Option ℕ → Cells V → Cells V
  set_key k v e s = record s { keys = (k, record { value = v; until = e }) ∷ s.keys }

  pub get_key-set_key :
      (t : ℕ) (k j : String) (v : V) (e : Option ℕ) (s : Cells V)
      → get_key t j (set_key k v e s).keys ≡ (if k == j then alive t v e else get_key t j s.keys)
  unfolding get_key
  get_key-set_key t k j v e s = refl

  abbrev pub set_list : String → List String → Cells V → Cells V
  set_list l xs s = record s { lists = (l, xs) ∷ s.lists }

  pub get_list-set_list :
      (l m : String) (xs : List String) (s : Cells V)
      → get_list m (set_list l xs s).lists ≡ (if l == m then xs else get_list m s.lists)
  unfolding get_list
  get_list-set_list l m xs s = refl

  pub alive_before : (t e : ℕ) (v : V) → t < e → alive t v (some e) ≡ some v
  unfolding alive
  alive_before t e v h = ground arith

  pub alive_after : (t e : ℕ) (v : V) → e < t → alive t v (some e) ≡ none
  unfolding alive
  alive_after t e v h = ground arith

  pub get_key-set_key_self :
      (t : ℕ) (k : String) (v : V) (e : Option ℕ) (s : Cells V)
      → get_key t k (set_key k v e s).keys ≡ alive t v e
  get_key-set_key_self t k v e s = get_key-set_key t k k v e s ∙ rw (==_true k)

  pub get_key-set_key_other :
      (t : ℕ) (k j : String) (v : V) (e : Option ℕ) (s : Cells V)
      → (k ≡ j → ⊥)
      → get_key t j (set_key k v e s).keys ≡ get_key t j s.keys
  get_key-set_key_other t k j v e s h = get_key-set_key t k j v e s ∙ rw (==_false h)

  pub get_key-set_key_kept :
      (t : ℕ) (k j : String) (v : V) (s : Cells V)
      → get_key t j (set_key k v none s).keys ≡ (if k == j then some v else get_key t j s.keys)
  unfolding get_key alive
  get_key-set_key_kept t k j v s = refl

  abbrev pub cells : Redis V
  cells = record {
    Store = Cells V;
    get = λ t k s. get_key t k s.keys;
    setex = λ now k ttl v s. set_key k v (some (now + ttl)) s;
    set = λ k v s. set_key k v none s;
    lpush = λ l x s. set_list l (x ∷ get_list l s.lists) s;
    lrem = λ l x s. set_list l (remove_all x (get_list l s.lists)) s;
    lrange = λ l s. get_list l s.lists;
    get-setex_before = λ t now k ttl v s h.
        get_key-set_key_self t k v (some (now + ttl)) s ∙ alive_before t (now + ttl) v h;
    get-setex_after = λ t now k ttl v s h.
        get_key-set_key_self t k v (some (now + ttl)) s ∙ alive_after t (now + ttl) v h;
    get-setex_other = λ t now k j ttl v s h. get_key-set_key_other t k j v (some (now + ttl)) s h;
    get-set = λ t k j v s. get_key-set_key_kept t k j v s;
    get-lpush = λ t j l x s. refl;
    get-lrem = λ t j l x s. refl;
    lrange-setex = λ l k now ttl v s. refl;
    lrange-set = λ l k v s. refl;
    lrange-lpush = λ l m x s. get_list-set_list l m (x ∷ get_list l s.lists) s;
    lrange-lrem = λ l m x s. get_list-set_list l m (remove_all x (get_list l s.lists)) s;
  }

  abbrev pub no_cells : Cells V
  no_cells = record { keys = []; lists = [] }
