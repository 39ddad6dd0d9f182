-- ===== src/Agent/Audit.antt =====
-- frameworks/agent-sdk/src/cobalto/agent/audit.py: the audit trail. Redis, the HMAC, JSON and
-- pydantic's reading of a stored event are parameters. The archive in S3 reads nothing back and
-- swallows its errors, so it is left out.
pub mod Chain
pub mod Reports
mod Tests
pub mod Trail
pub mod Verify
use Prim.Native.String.{◌++◌}
use text.Mathlib.Text.{starts_with}
use cobalto.Base.{
  ℕ, zero, suc, ◌+◌, ◌*◌, ◌≡◌, ◌≢◌, String, Bool, true, false, ◌&&◌, Option, none, some, List, [],
  ◌∷◌, take, filter, length, leb, not, string_eq, ◌==◌, if◌then◌else◌, map,
}
use cobalto.Base.Json.{Value, null, str, obj, Fields, end, field, get_field_or}
use cobalto.Agent.Redis.{Redis}

pub data EventType : Type 0 where
  agent_run_started agent_run_completed agent_run_failed : EventType
  approval_requested approval_granted approval_rejected : EventType
  action_executed action_failed context_built alert_ingested : EventType

unfoldable pub type_value : EventType → String
type_value agent_run_started = "agent_run_started"
type_value agent_run_completed = "agent_run_completed"
type_value agent_run_failed = "agent_run_failed"
type_value approval_requested = "approval_requested"
type_value approval_granted = "approval_granted"
type_value approval_rejected = "approval_rejected"
type_value action_executed = "action_executed"
type_value action_failed = "action_failed"
type_value context_built = "context_built"
type_value alert_ingested = "alert_ingested"

pub record AuditEvent : Type 0 where
  pub event_id : String
  pub event_type : EventType
  pub timestamp : ℕ
  pub incident_id : String
  pub alert_id : Option String
  pub agent_type : Option String
  pub agent_id : Option String
  pub tenant_id : Option String
  pub action : Option String
  pub target : Option String
  pub status : String
  pub details : Fields
  pub previous_hash : Option String
  pub hmac_signature : Option String

-- JSON, HMAC-SHA256, datetimes and the bytes that Redis keeps. `load` is
-- `AuditEvent(**json.loads(data))`, none where it raises.
pub record Codec : Type 1 where
  pub Bytes : Type 0
  pub isoformat : ℕ → String
  pub dumps : Fields → Bytes
  pub dumps_sorted : Fields → String
  pub hexdigest : String → String → String
  pub load : Bytes → Option AuditEvent
  pub is_empty : Bytes → Bool
  pub encode : String → Bytes
  -- pydantic takes bytes for a text.
  pub decode : Bytes → String

optional : Option String → Value
optional none = null
optional (some s) = str s

module _ (C : Codec) where
  unfoldable pub to_dict : AuditEvent → Fields
  unfolding type_value optional
  to_dict e = field "event_id" (str e.event_id) (
      field "event_type" (str (type_value e.event_type)) (
        field "timestamp" (str (C.isoformat e.timestamp)) (
          field "incident_id" (str e.incident_id) (
            field "alert_id" (optional e.alert_id) (
              field "agent_type" (optional e.agent_type) (
                field "agent_id" (optional e.agent_id) (
                  field "tenant_id" (optional e.tenant_id) (
                    field "action" (optional e.action) (
                      field "target" (optional e.target) (
                        field "status" (str e.status) (
                          field "details" (obj e.details) (
                            field "previous_hash" (optional e.previous_hash)
                              (field "hmac_signature" (optional e.hmac_signature) end)))))))))))))

  -- A stored event is read back as it was and is not empty, and a stored text is read back.
  pub record Faithful : Type 0 where
    pub load-dumps : (e : AuditEvent) → C.load (C.dumps (to_dict e)) ≡ some e
    pub dumps_nonempty : (fs : Fields) → C.is_empty (C.dumps fs) ≡ false
    pub decode-encode : (a : String) → C.decode (C.encode a) ≡ a

abbrev pub event_key : String → String → String
event_key incident_id event_id = "audit:" ++ incident_id ++ ":" ++ event_id

abbrev pub index_key : String → String
index_key incident_id = "audit:index:" ++ incident_id

abbrev pub hash_key : String → String
hash_key incident_id = "audit:last_hash:" ++ incident_id

-- 90 days, in seconds
abbrev pub ttl : ℕ
ttl = 90 * 24 * 3600

-- The arguments of `log_event`, the drawn id and the instants of the event and of the write.
pub record Entry : Type 0 where
  pub event_id : String
  pub event_type : EventType
  pub timestamp : ℕ
  pub now : ℕ
  pub alert_id : Option String
  pub agent_type : Option String
  pub agent_id : Option String
  pub tenant_id : Option String
  pub action : Option String
  pub target : Option String
  pub status : String
  pub details : Fields

unfoldable pub event_of : String → Option String → Entry → AuditEvent
event_of incident_id previous_hash n = record {
  event_id = n.event_id;
  event_type = n.event_type;
  timestamp = n.timestamp;
  incident_id = incident_id;
  alert_id = n.alert_id;
  agent_type = n.agent_type;
  agent_id = n.agent_id;
  tenant_id = n.tenant_id;
  action = n.action;
  target = n.target;
  status = n.status;
  details = n.details;
  previous_hash = previous_hash;
  hmac_signature = none;
}

-- `events.sort(key=timestamp)`, which keeps the order of equal timestamps
insert_event : AuditEvent → List AuditEvent → List AuditEvent
insert_event e [] = e ∷ []
insert_event e (x ∷ l) =
    let rest = insert_event e l in if leb e.timestamp x.timestamp then e ∷ x ∷ l else x ∷ rest

unfoldable pub sort_events : List AuditEvent → List AuditEvent
unfolding insert_event
sort_events [] = []
sort_events (e ∷ l) = insert_event e (sort_events l)

unfoldable pub same_text : Option String → Option String → Bool
same_text none none = true
same_text (some a) (some b) = a == b
same_text none (some b) = false
same_text (some a) none = false

-- Whether the event continues the one before it, if there is one.
unfoldable pub linked : Option AuditEvent → AuditEvent → Bool
unfolding same_text
linked none e = true
linked (some p) e = same_text e.previous_hash p.hmac_signature

-- LRANGE 0 (limit - 1), which is the whole list for 0
unfoldable pub lrange_to : ℕ → List String → List String
lrange_to zero l = l
lrange_to (suc n) l = take (suc n) l

module _ (C : Codec) (secret : String) where
  unfoldable pub sign_event : AuditEvent → String
  sign_event e = C.hexdigest secret (C.dumps_sorted (to_dict C e))

  -- The signature over the event without its signature.
  unfoldable pub sealed : AuditEvent → Bool
  unfolding same_text sign_event
  sealed e = same_text e.hmac_signature (some (sign_event (record e { hmac_signature = none })))

  -- The loop of `verify_chain`.
  unfoldable pub verify_from : Option AuditEvent → List AuditEvent → Bool
  unfolding sealed linked
  verify_from p [] = true
  verify_from p (e ∷ l) =
      let rest = verify_from (some e) l in
      if sealed e then (if linked p e then rest else false) else false

module _ (C : Codec) (secret : String) (D : Redis C.Bytes) where
  unfoldable pub hash_in : Option C.Bytes → Option String
  hash_in none = none
  hash_in (some b) = some (C.decode b)

  unfoldable pub log_event : String → Entry → D.Store → D.Store × AuditEvent
  unfolding event_of sign_event hash_in
  log_event incident_id n s =
      let e = event_of incident_id (hash_in (D.get n.now (hash_key incident_id) s)) n in
      let signature = sign_event C secret e in
      let signed = record e { hmac_signature = some signature } in
      let stored =
        D.setex n.now (event_key incident_id n.event_id) ttl (C.dumps (to_dict C signed)) s in
      let indexed = D.lpush (index_key incident_id) n.event_id stored in
      (D.set (hash_key incident_id) (C.encode signature) indexed, signed)

  -- `if data:`
  loaded : Option C.Bytes → Option (Option AuditEvent)
  loaded none = some none
  loaded (some t) =
      if C.is_empty t then some none else elim (C.load t) [ none ↦ none | some e ↦ some (some e) ]

  -- none is an exception, some none the answer None.
  unfoldable pub get_event : ℕ → String → String → D.Store → Option (Option AuditEvent)
  unfolding loaded
  get_event t incident_id event_id s = loaded (D.get t (event_key incident_id event_id) s)

  gathered : Option (Option AuditEvent) → Option (List AuditEvent) → Option (List AuditEvent)
  gathered none rest = none
  gathered (some none) rest = rest
  gathered (some (some e)) none = none
  gathered (some (some e)) (some l) = some (e ∷ l)

  get_events : ℕ → String → List String → D.Store → Option (List AuditEvent)
  unfolding gathered
  get_events t incident_id [] s = some []
  get_events t incident_id (x ∷ ids) s =
      gathered (get_event t incident_id x s) (get_events t incident_id ids s)

  optional_sort : Option (List AuditEvent) → Option (List AuditEvent)
  optional_sort none = none
  optional_sort (some l) = some (sort_events l)

  unfoldable pub get_incident_events : ℕ → String → ℕ → D.Store → Option (List AuditEvent)
  unfolding get_events optional_sort
  get_incident_events t incident_id limit s =
      optional_sort
        (get_events t incident_id (lrange_to limit (D.lrange (index_key incident_id) s)) s)

  verdict : Option (List AuditEvent) → Option Bool
  verdict none = none
  verdict (some l) = some (verify_from C secret none l)

  unfoldable pub verify_chain : ℕ → String → D.Store → Option Bool
  unfolding verdict
  verify_chain t incident_id s = verdict (get_incident_events t incident_id 100 s)
