-- ===== src/Agent/Approval/Decisions.antt =====
-- What approving, rejecting and reading a request do.
use cobalto.Base.{
  ℕ, suc, ◌*◌, ◌≡◌, ◌⊎◌, inl, inr, refl, String, false, Option, none, some, List, [], ◌∷◌, arith,
  contains, string_eq, ◌==◌, if◌then◌else◌,
}
use cobalto.Agent.Redis.{Redis, remove_all}
use cobalto.Agent.Approval.{
  ApprovalRequest, rejected, RequestData, NewRequest, not_found, type_error, Result, ok, raised,
  to_dict, from_dict, minute, new_request, create_approval_request, approve_request, reject_request,
  complete, approve_data, reject_data,
}

-- The list without the text.
pub contains-remove_all : (x : String) (ys : List String) → contains x (remove_all x ys) ≡ false
unfolding remove_all
contains-remove_all x [] = refl
contains-remove_all x (y ∷ ys) = ground (arith, contains-remove_all x ys)

-- What an approval can end in: the TypeError of a stored request, or that there is none.
abbrev pub outcome_of : Option RequestData → Result ApprovalRequest
outcome_of none = raised not_found
outcome_of (some d) = raised type_error

module _ (redis : Redis RequestData) (sign : RequestData → String) where
  open redis use {
    Store, get, lrange, get-set, get-lpush, get-lrem, get-setex_before, lrange-set, lrange-setex,
    lrange-lpush, lrange-lrem,
  }

  approve_data-eq :
      (o : Option RequestData) (checked now : ℕ) (id approver : String) (signature : Option String)
      (s : Store)
      → approve_data redis sign o checked now id approver signature s ≡ (s, outcome_of o)
  unfolding approve_data
  approve_data-eq none checked now id approver signature s = refl
  approve_data-eq (some d) checked now id approver signature s = ground arith

  -- No approval is ever granted: approving raises a TypeError if the request is stored and "not
  -- found" otherwise, whatever the signature, and writes nothing.
  pub approve_request-never_grants :
      (read checked now : ℕ) (id approver : String) (signature : Option String) (s : Store)
      → approve_request redis sign read checked now id approver signature s
        ≡ (s, outcome_of (get read id s))
  unfolding approve_request
  approve_request-never_grants read checked now id approver signature s =
      approve_data-eq (get read id s) checked now id approver signature s

  pub get-complete :
      (t : ℕ) (id j : String) (d : RequestData) (s : Store)
      → get t j (complete redis sign id d s) ≡ (if id == j then some d else get t j s)
  unfolding complete
  get-complete t id j d s = rw (get-lpush, get-lrem, get-set)

  pub pending-complete :
      (id : String) (d : RequestData) (s : Store)
      → lrange "pending" (complete redis sign id d s) ≡ remove_all id (lrange "pending" s)
  unfolding complete
  pending-complete id d s = rw (lrange-lpush, lrange-lrem, lrange-set) refl

  completed-complete :
      (id : String) (d : RequestData) (s : Store)
      → lrange "completed" (complete redis sign id d s) ≡ id ∷ lrange "completed" s
  unfolding complete
  completed-complete id d s = rw (lrange-lpush, lrange-lrem, lrange-set) refl

  reject-eq :
      (read : ℕ) (id approver reason : String) (s : Store) {d : RequestData}
      → get read id s ≡ some d
      → let q : ApprovalRequest = record (from_dict d) {
        status = rejected;
        approver = some approver;
        rejection_reason = some reason;
      } in
        reject_request redis sign read id approver reason s
        ≡ (complete redis sign id (to_dict q) s, ok q)
  unfolding reject_request reject_data
  reject-eq read id approver reason s found = rw found refl

  -- Rejecting a stored request, whatever its status and however long it has expired, stores it as
  -- rejected for good, takes its id off the pending queue, puts it on the completed queue once more,
  -- and leaves every other request as it was.
  pub reject_request-rejects :
      (read t : ℕ) (id j approver reason : String) (s : Store) {d : RequestData}
      → get read id s ≡ some d
      → let q : ApprovalRequest = record (from_dict d) {
        status = rejected;
        approver = some approver;
        rejection_reason = some reason;
      } in
        let (s', r) = reject_request redis sign read id approver reason s in
        (r ≡ ok q)
        × (get t j s' ≡ (if id == j then some (to_dict q) else get t j s))
        × (contains id (lrange "pending" s') ≡ false)
        × (lrange "completed" s' ≡ id ∷ lrange "completed" s)
  reject_request-rejects read t id j approver reason s {d} found =
      rw (reject-eq read id approver reason s found) (
        refl,
        get-complete t id j _ s,
        rw (pending-complete id _ s) (contains-remove_all id (lrange "pending" s)),
        completed-complete id _ s,
      )

  -- The timeout is the one that is asked for, or the default where none or zero is.
  abbrev pub IsTimeout : ℕ → ℕ → Option ℕ → Type 0
  IsTimeout minutes default_timeout asked =
      (asked ≡ some minutes) ⊎ (((asked ≡ none) ⊎ (asked ≡ some 0)) × (default_timeout ≡ minutes))

  pub create-eq :
      (default_timeout now stored_at m : ℕ) (asked : Option ℕ) (n : NewRequest) (s : Store)
      → IsTimeout (suc m) default_timeout asked
      → create_approval_request redis sign default_timeout now stored_at asked n s ≡ (
        redis.lpush "pending" n.request_id (
            redis.setex stored_at n.request_id
              (suc m * minute)
              (to_dict (new_request redis sign now (suc m) n))
              s),
        ok (record (new_request redis sign now (suc m) n) {
          hmac_signature = some (sign (to_dict (new_request redis sign now (suc m) n)));
        }),
      )
  unfolding create_approval_request new_request
  create-eq default_timeout now stored_at m asked n s (inl e) = rw e refl
  create-eq default_timeout now stored_at m asked n s (inr (inl e, d)) = rw (e, d) refl
  create-eq default_timeout now stored_at m asked n s (inr (inr e, d)) = rw (e, d) refl
