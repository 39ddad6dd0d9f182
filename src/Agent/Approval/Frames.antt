-- ===== src/Agent/Approval/Frames.antt =====
-- What the sweep does to one id leaves the others as they were.

use cobalto.Base.{
  ℕ, ◌≡◌, refl, ◌≢◌, ◌∙◌, String, Bool, Option, none, some, List, [], ◌∷◌, arith, contains, ltb,
  string_eq, inl, inr, ==_false, Bool-cases,
}
use cobalto.Agent.Redis.{Redis, remove_all}
use cobalto.Agent.Approval.{timeout, RequestData, complete, fromisoformat}
use cobalto.Agent.Approval.Sweep.{check_data, expire}
use cobalto.Agent.Approval.Decisions.{get-complete, pending-complete}

pub contains-remove_all_ne :
    (x y : String) (ys : List String) → x ≢ y → contains y (remove_all x ys) ≡ contains y ys
unfolding remove_all
contains-remove_all_ne x y [] h = refl
contains-remove_all_ne x y (z ∷ ys) h =
    ground (arith, contains-remove_all_ne x y ys h, string_eq.same_iff x z, string_eq.same_iff y z)

module _ (redis : Redis RequestData) (sign : RequestData → String) where
  open redis use {Store, get, lrange, get-lpush, get-setex_after, lrange-lpush, lrange-setex}

  -- What the others see of one id: whether it is queued.
  abbrev pub queued : String → Store → Bool
  queued id s = contains id (lrange "pending" s)

  module _ (x id : String) (other : x ≢ id) where
    pub get-complete_ne :
        (t : ℕ) (d : RequestData) (s : Store) → get t id (complete redis sign x d s) ≡ get t id s
    get-complete_ne t d s = get-complete redis sign t x id d s ∙ rw (==_false other)

    pub queued-complete_ne :
        (d : RequestData) (s : Store) → queued id (complete redis sign x d s) ≡ queued id s
    queued-complete_ne d s =
        rw (pending-complete redis sign x d s)
          (contains-remove_all_ne x id (lrange "pending" s) other)

    pub get-expire_ne :
        (t now : ℕ) (e : Option ℕ) (d : RequestData) (s : Store)
        → get t id (expire redis sign e now x d s).0 ≡ get t id s
    unfolding expire
    get-expire_ne t now none d s = refl
    get-expire_ne t now (some e) d s = elim (Bool-cases (ltb e now)) [
      | inl late ↦ rw (late, expire) (get-complete_ne t (record d { status = timeout }) s)
      | inr early ↦ rw (early, expire) refl
    ]

    pub queued-expire_ne :
        (now : ℕ) (e : Option ℕ) (d : RequestData) (s : Store)
        → queued id (expire redis sign e now x d s).0 ≡ queued id s
    unfolding expire
    queued-expire_ne now none d s = refl
    queued-expire_ne now (some e) d s = elim (Bool-cases (ltb e now)) [
      | inl late ↦ rw (late, expire) (queued-complete_ne (record d { status = timeout }) s)
      | inr early ↦ rw (early, expire) refl
    ]

    pub get-check_data_ne :
        (t now : ℕ) (o : Option RequestData) (s : Store)
        → get t id (check_data redis sign o now x s).0 ≡ get t id s
    unfolding check_data
    get-check_data_ne t now none s = refl
    get-check_data_ne t now (some d) s = get-expire_ne t now (fromisoformat d.expires_at) d s

    pub queued-check_data_ne :
        (now : ℕ) (o : Option RequestData) (s : Store)
        → queued id (check_data redis sign o now x s).0 ≡ queued id s
    unfolding check_data
    queued-check_data_ne now none s = refl
    queued-check_data_ne now (some d) s = queued-expire_ne now (fromisoformat d.expires_at) d s
