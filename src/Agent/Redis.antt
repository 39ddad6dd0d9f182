-- ===== src/Agent/Redis.antt =====
-- What the services use of Redis, which is not part of the repository: a parameter with the laws
-- that its commands document. A key `approval:<id>` is written as the id, and the names of the
-- lists are apart from the keys. Times are in one unit, here and in the clients.
pub mod Cells
use cobalto.Base.{
  ℕ, ◌+◌, ◌<◌, ◌≡◌, String, Option, none, some, List, [], ◌∷◌, ◌==◌, string_eq, if◌then◌else◌,
}

-- LREM with count 0
unfoldable pub remove_all : String → List String → List String
remove_all x [] = []
remove_all x (y ∷ ys) = let rest = remove_all x ys in if x == y then rest else y ∷ rest

pub record Redis (V : Type 0) : Type 1 where
  pub Store : Type 0
  -- GET at a time
  pub get : ℕ → String → Store → Option V
  -- SETEX at a time, with a time to live
  pub setex : ℕ → String → ℕ → V → Store → Store
  pub set : String → V → Store → Store
  pub lpush : String → String → Store → Store
  pub lrem : String → String → Store → Store
  -- LRANGE 0 -1
  pub lrange : String → Store → List String
  pub get-setex_before :
      (t now : ℕ) (k : String) (ttl : ℕ) (v : V) (s : Store)
      → t < now + ttl
      → get t k (setex now k ttl v s) ≡ some v
  pub get-setex_after :
      (t now : ℕ) (k : String) (ttl : ℕ) (v : V) (s : Store)
      → now + ttl < t
      → get t k (setex now k ttl v s) ≡ none
  pub get-setex_other :
      (t now : ℕ) (k j : String) (ttl : ℕ) (v : V) (s : Store)
      → (k ≡ j → ⊥)
      → get t j (setex now k ttl v s) ≡ get t j s
  -- SET discards the time to live.
  pub get-set :
      (t : ℕ) (k j : String) (v : V) (s : Store)
      → get t j (set k v s) ≡ (if k == j then some v else get t j s)
  pub get-lpush : (t : ℕ) (j l x : String) (s : Store) → get t j (lpush l x s) ≡ get t j s
  pub get-lrem : (t : ℕ) (j l x : String) (s : Store) → get t j (lrem l x s) ≡ get t j s
  pub lrange-setex :
      (l k : String) (now ttl : ℕ) (v : V) (s : Store) → lrange l (setex now k ttl v s) ≡ lrange l s
  pub lrange-set : (l k : String) (v : V) (s : Store) → lrange l (set k v s) ≡ lrange l s
  pub lrange-lpush :
      (l m x : String) (s : Store)
      → lrange m (lpush l x s) ≡ (if l == m then x ∷ lrange l s else lrange m s)
  pub lrange-lrem :
      (l m x : String) (s : Store)
      → lrange m (lrem l x s) ≡ (if l == m then remove_all x (lrange l s) else lrange m s)
