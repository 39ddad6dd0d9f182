-- ===== src/Agent/Approval/Sweep.antt =====
-- What ApprovalService does with the pending queue: check_timeouts and get_pending_requests.
use cobalto.Base.{
  ℕ, ◌+◌, String, Bool, true, false, Option, none, some, List, [], ◌∷◌, ltb, string_eq,
  if◌then◌else◌,
}
use cobalto.Agent.Redis.{Redis}
use cobalto.Agent.Approval.{
  ApprovalRequest, ApprovalStatus, pending, approved, rejected, timeout, cancelled, RequestData,
  fromisoformat, get_request, complete,
}

module _ (redis : Redis RequestData) (sign : RequestData → String) where
  open redis use {Store, get, lrange}

  -- The body of the loop once the expiry is parsed; a stored expiry is always a text.
  unfoldable pub expire : Option ℕ → ℕ → String → RequestData → Store → Store × Bool
  unfolding complete
  expire none now request_id d s = (s, false)
  expire (some expires_at) now request_id d s =
      if ltb expires_at now
      then (complete redis sign request_id (record d { status = timeout }) s, true)
      else (s, false)

  unfoldable pub check_data : Option RequestData → ℕ → String → Store → Store × Bool
  unfolding expire fromisoformat
  check_data none now request_id s = (s, false)
  check_data (some d) now request_id s = expire (fromisoformat d.expires_at) now request_id d s

  unfoldable pub add_if : Bool → String → List String → List String
  add_if true x xs = x ∷ xs
  add_if false x xs = xs

  -- `clock` gives the readings in turn, two for each id from the `i`th on.
  unfoldable pub check_ids : (ℕ → ℕ) → ℕ → List String → Store → Store × List String
  unfolding check_data add_if
  check_ids clock i [] s = (s, [])
  check_ids clock i (request_id ∷ ids) s =
      let (s', timed_out) = check_data (get (clock i) request_id s) (clock (i + 1)) request_id s in
      let (s'', rest) = check_ids clock (i + 2) ids s' in (s'', add_if timed_out request_id rest)

  unfoldable pub check_timeouts : (ℕ → ℕ) → Store → Store × List String
  unfolding check_ids
  check_timeouts clock s = check_ids clock 0 (lrange "pending" s) s

  is_pending : ApprovalStatus → Bool
  is_pending pending = true
  is_pending approved = false
  is_pending rejected = false
  is_pending timeout = false
  is_pending cancelled = false

  add_pending : Option ApprovalRequest → List ApprovalRequest → List ApprovalRequest
  unfolding is_pending
  add_pending none rest = rest
  add_pending (some q) rest = if is_pending q.status then q ∷ rest else rest

  unfoldable pub pending_of : (ℕ → ℕ) → ℕ → List String → Store → List ApprovalRequest
  unfolding add_pending get_request
  pending_of clock i [] s = []
  pending_of clock i (request_id ∷ ids) s =
      add_pending (get_request redis sign (clock i) request_id s) (pending_of clock (i + 1) ids s)

  unfoldable pub get_pending_requests : (ℕ → ℕ) → Store → List ApprovalRequest
  unfolding pending_of
  get_pending_requests clock s = pending_of clock 0 (lrange "pending" s) s
