-- ===== src/Agent/Approval.antt =====
-- class ApprovalService of frameworks/agent-sdk/src/cobalto/agent/approval.py, but for the
-- notifications. Redis, the HMAC and the clock are parameters; times are in microseconds.
pub mod Sweep
pub mod Decisions
mod Frames
pub mod Timeouts
pub mod Reports
mod Tests
use cobalto.Base.{
  ℕ, zero, suc, ◌+◌, ◌*◌, String, Bool, true, false, ◌&&◌, Option, none, some, List, [], ◌∷◌, ◌++◌,
  ltb, ◌==◌, string_eq, if◌then◌else◌,
}
use cobalto.Base.Json.{Fields}
use cobalto.Agent.Redis.{Redis}

pub data ApprovalStatus : Type 0 where
  pending approved rejected timeout cancelled : ApprovalStatus

pub data ApprovalChannel : Type 0 where
  slack teams webhook : ApprovalChannel

pub record ApprovalRequest : Type 0 where
  pub request_id : String
  pub incident_id : String
  pub alert_id : String
  pub actions : List Fields
  pub requested_by : String
  pub created_at : ℕ
  pub expires_at : ℕ
  pub status : ApprovalStatus
  pub channel : ApprovalChannel
  pub approver : Option String
  pub approved_at : Option ℕ
  pub rejection_reason : Option String
  pub hmac_signature : Option String

-- What `datetime.fromisoformat` may be handed: the text of an instant, or the instant itself.
pub data TimeArg : Type 0 where
  iso_text datetime : ℕ → TimeArg

-- The dict of `to_dict`, which is what Redis stores: the signature is not in it.
pub record RequestData : Type 0 where
  pub request_id : String
  pub incident_id : String
  pub alert_id : String
  pub actions : List Fields
  pub requested_by : String
  pub created_at : TimeArg
  pub expires_at : TimeArg
  pub status : ApprovalStatus
  pub channel : ApprovalChannel
  pub approver : Option String
  pub approved_at : Option TimeArg
  pub rejection_reason : Option String

-- `t.isoformat() if t else None`
iso_or_none : Option ℕ → Option TimeArg
iso_or_none none = none
iso_or_none (some t) = some (iso_text t)

unfoldable pub to_dict : ApprovalRequest → RequestData
unfolding iso_or_none
to_dict q = record {
  request_id = q.request_id;
  incident_id = q.incident_id;
  alert_id = q.alert_id;
  actions = q.actions;
  requested_by = q.requested_by;
  created_at = iso_text q.created_at;
  expires_at = iso_text q.expires_at;
  status = q.status;
  channel = q.channel;
  approver = q.approver;
  approved_at = iso_or_none q.approved_at;
  rejection_reason = q.rejection_reason;
}

-- pydantic makes the field a `datetime`.
as_datetime : TimeArg → ℕ
as_datetime (iso_text t) = t
as_datetime (datetime t) = t

datetime_or_none : Option TimeArg → Option ℕ
unfolding as_datetime
datetime_or_none none = none
datetime_or_none (some t) = some (as_datetime t)

-- `ApprovalRequest(**request_data)`
unfoldable pub from_dict : RequestData → ApprovalRequest
unfolding as_datetime datetime_or_none
from_dict d = record {
  request_id = d.request_id;
  incident_id = d.incident_id;
  alert_id = d.alert_id;
  actions = d.actions;
  requested_by = d.requested_by;
  created_at = as_datetime d.created_at;
  expires_at = as_datetime d.expires_at;
  status = d.status;
  channel = d.channel;
  approver = d.approver;
  approved_at = datetime_or_none d.approved_at;
  rejection_reason = d.rejection_reason;
  hmac_signature = none;
}

-- `datetime.fromisoformat`; `none` is the TypeError of an argument that is no text.
unfoldable pub fromisoformat : TimeArg → Option ℕ
fromisoformat (iso_text t) = some t
fromisoformat (datetime t) = none

pub data ApprovalError : Type 0 where
  not_found invalid_signature expired type_error redis_error : ApprovalError

pub data Result (A : Type 0) : Type 0 where
  ok : A → Result A
  raised : ApprovalError → Result A

-- `timeout_minutes or self.default_timeout_minutes`
minutes_or : Option ℕ → ℕ → ℕ
minutes_or none d = d
minutes_or (some zero) d = d
minutes_or (some (suc n)) d = suc n

abbrev pub minute : ℕ
minute = 60000000

-- `if s`, of an optional text
truthy_text : Option String → Bool
truthy_text none = false
truthy_text (some s) = if s == "" then false else true

text_or_empty : Option String → String
text_or_empty none = ""
text_or_empty (some s) = s

-- The arguments of `create_approval_request` but for the timeout, and the id that uuid4 draws.
pub record NewRequest : Type 0 where
  pub request_id : String
  pub incident_id : String
  pub alert_id : String
  pub actions : List Fields
  pub channel : ApprovalChannel

module _ (redis : Redis RequestData) (sign : RequestData → String) where
  open redis use {Store, get, setex, set, lpush, lrem, lrange}

  unfoldable pub new_request : ℕ → ℕ → NewRequest → ApprovalRequest
  new_request now timeout_minutes n = record {
    request_id = n.request_id;
    incident_id = n.incident_id;
    alert_id = n.alert_id;
    actions = n.actions;
    requested_by = "magenta-supervisor";
    created_at = now;
    expires_at = now + timeout_minutes * minute;
    status = pending;
    channel = n.channel;
    approver = none;
    approved_at = none;
    rejection_reason = none;
    hmac_signature = none;
  }

  store_new : ℕ → ℕ → ApprovalRequest → Store → Store × Result ApprovalRequest
  unfolding to_dict
  store_new stored_at zero q s = (s, raised redis_error)
  store_new stored_at (suc m) q s = (
    lpush "pending" q.request_id (setex stored_at q.request_id (suc m * minute) (to_dict q) s),
    ok (record q { hmac_signature = some (sign (to_dict q)) }),
  )

  -- `now` is the clock when the request is built, `stored_at` when Redis stores it. SETEX refuses a
  -- time to live of zero.
  unfoldable pub create_approval_request :
      ℕ → ℕ → ℕ → Option ℕ → NewRequest → Store → Store × Result ApprovalRequest
  unfolding minutes_or new_request store_new
  create_approval_request default_timeout now stored_at timeout_minutes n s =
      let minutes = minutes_or timeout_minutes default_timeout in
      store_new stored_at minutes (new_request now minutes n) s

  -- SET of the new status, and the move from one queue to the other.
  pub complete : String → RequestData → Store → Store
  complete request_id d s =
      lpush "completed" request_id (lrem "pending" request_id (set request_id d s))

  approve_valid : ℕ → String → String → ApprovalRequest → Store → Store × Result ApprovalRequest
  unfolding complete to_dict
  approve_valid now request_id approver q s =
      let q' : ApprovalRequest = record q {
        status = approved;
        approver = some approver;
        approved_at = some now;
      } in
      (complete request_id (to_dict q') s, ok q')

  -- The test of the expiry, on what `fromisoformat` returns.
  approve_until :
      Option ℕ → ℕ → ℕ → String → String → ApprovalRequest → Store → Store × Result ApprovalRequest
  unfolding approve_valid to_dict
  approve_until none checked now request_id approver q s = (s, raised type_error)
  approve_until (some expires_at) checked now request_id approver q s =
      if ltb expires_at checked
      then (set request_id (to_dict (record q { status = timeout })) s, raised expired)
      else approve_valid now request_id approver q s

  -- `if signature and request.hmac_signature: if not self._verify_signature(…)`
  signature_fails : Option String → ApprovalRequest → Bool
  unfolding truthy_text text_or_empty to_dict
  signature_fails signature q =
      truthy_text signature
      && (truthy_text q.hmac_signature
          && (if sign (to_dict q) == text_or_empty signature then false else true))

  approve_found :
      ℕ
      → ℕ
      → String
      → String
      → Option String
      → ApprovalRequest
      → Store
      → Store × Result ApprovalRequest
  unfolding signature_fails approve_until fromisoformat
  approve_found checked now request_id approver signature q s =
      if signature_fails signature q
      then (s, raised invalid_signature)
      else approve_until (fromisoformat (datetime q.expires_at)) checked now request_id approver q s

  approve_data :
      Option RequestData
      → ℕ
      → ℕ
      → String
      → String
      → Option String
      → Store
      → Store × Result ApprovalRequest
  unfolding approve_found from_dict
  approve_data none checked now request_id approver signature s = (s, raised not_found)
  approve_data (some d) checked now request_id approver signature s =
      approve_found checked now request_id approver signature (from_dict d) s

  -- `read`, `checked` and `now` are the clock at the GET, at the test of the expiry and at the
  -- approval.
  unfoldable pub approve_request :
      ℕ → ℕ → ℕ → String → String → Option String → Store → Store × Result ApprovalRequest
  unfolding approve_data
  approve_request read checked now request_id approver signature s =
      approve_data (get read request_id s) checked now request_id approver signature s

  reject_data :
      Option RequestData → String → String → String → Store → Store × Result ApprovalRequest
  unfolding from_dict to_dict complete
  reject_data none request_id approver reason s = (s, raised not_found)
  reject_data (some d) request_id approver reason s =
      let q : ApprovalRequest = record (from_dict d) {
        status = rejected;
        approver = some approver;
        rejection_reason = some reason;
      } in
      (complete request_id (to_dict q) s, ok q)

  unfoldable pub reject_request :
      ℕ → String → String → String → Store → Store × Result ApprovalRequest
  unfolding reject_data
  reject_request read request_id approver reason s =
      reject_data (get read request_id s) request_id approver reason s

  request_of : Option RequestData → Option ApprovalRequest
  unfolding from_dict
  request_of none = none
  request_of (some d) = some (from_dict d)

  unfoldable pub get_request : ℕ → String → Store → Option ApprovalRequest
  unfolding request_of
  get_request read request_id s = request_of (get read request_id s)
