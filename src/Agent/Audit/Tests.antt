-- ===== src/Agent/Audit/Tests.antt =====
-- The audit trail at concrete inputs, with a codec that keeps dicts as they are.
use Prim.Native.String.{count}
use text.Mathlib.TextLemmas.{length-cons}
use cobalto.Base.{
  ℕ, zero, suc, ◌≡◌, ◌≢◌, refl, ap, ◌∙◌, ◌↔◌, String, Bool, true, false, Option, none, some, [],
  ◌∷◌, inl, string_eq, ◌==◌, if◌then◌else◌, arith,
}
use cobalto.Base.Json.{Value, str, obj, Fields, end, field}
use cobalto.Agent.Redis.{Redis, remove_all}
use cobalto.Agent.Redis.Cells.{Cells, cells, no_cells, get_list, get_key}
use cobalto.Agent.Audit.{
  EventType, agent_run_started, agent_run_completed, agent_run_failed, approval_requested,
  approval_granted, approval_rejected, action_executed, action_failed, context_built,
  alert_ingested, type_value, optional, AuditEvent, Codec, Faithful, to_dict, Entry, log_event,
  get_incident_events, verify_chain, hash_key, event_key, sealed, lrange_to, get_event, sort_events,
  index_key, verify_from,
}
use cobalto.Agent.Audit.Reports.{count_event, no_metrics, get_metrics}
use cobalto.Agent.Audit.Trail.{log_all}
use cobalto.Agent.Audit.Chain.{IsChain}
use cobalto.Agent.Audit.Verify.{
  verify_chain-log_all, verify_chain-IsChain, tampering_found, removal_missed,
  equal_timestamps_break,
}

data Bytes : Type 0 where
  dict : Fields → Bytes
  plain : String → Bytes

-- An instant as that many letters
tally : ℕ → String
tally zero = ""
tally (suc n) = String.◌∷◌ "t" (tally n)

count-tally : (n : ℕ) → count (tally n) ≡ n
unfolding tally
count-tally zero = refl
count-tally (suc n) = length-cons "t" (tally n) ∙ ap suc (count-tally n)

optional_in : Value → Option String
optional_in (str s) = some s
optional_in v = none

type_in : String → EventType
type_in s =
    if s == "agent_run_started"
    then agent_run_started
    else if s == "agent_run_completed"
    then agent_run_completed
    else if s == "agent_run_failed"
    then agent_run_failed
    else if s == "approval_requested"
    then approval_requested
    else if s == "approval_granted"
    then approval_granted
    else if s == "approval_rejected"
    then approval_rejected
    else if s == "action_executed"
    then action_executed
    else if s == "action_failed"
    then action_failed
    else if s == "context_built"
    then context_built
    else alert_ingested

type_in-type_value : (t : EventType) → type_in (type_value t) ≡ t
unfolding type_in type_value
type_in-type_value agent_run_started = refl
type_in-type_value agent_run_completed = refl
type_in-type_value agent_run_failed = refl
type_in-type_value approval_requested = refl
type_in-type_value approval_granted = refl
type_in-type_value approval_rejected = refl
type_in-type_value action_executed = refl
type_in-type_value action_failed = refl
type_in-type_value context_built = refl
type_in-type_value alert_ingested = refl

optional_in-optional : (o : Option String) → optional_in (optional o) ≡ o
unfolding optional_in optional
optional_in-optional none = refl
optional_in-optional (some s) = refl

read_dict : Fields → Option AuditEvent
read_dict
      (field _ (str id) (
        field _ (str ty) (
          field _ (str ts) (
            field _ (str inc) (
              field _ al (
                field _ at (
                  field _ ai (
                    field _ te (
                      field _ ac (
                        field _ ta (
                          field _
                            (str st)
                            (field _ (obj de) (field _ ph (field _ sg end)))))))))))))) =
    some (record {
      event_id = id;
      event_type = type_in ty;
      timestamp = count ts;
      incident_id = inc;
      alert_id = optional_in al;
      agent_type = optional_in at;
      agent_id = optional_in ai;
      tenant_id = optional_in te;
      action = optional_in ac;
      target = optional_in ta;
      status = st;
      details = de;
      previous_hash = optional_in ph;
      hmac_signature = optional_in sg;
    })
read_dict fs = none

load_bytes : Bytes → Option AuditEvent
load_bytes (dict fs) = read_dict fs
load_bytes (plain s) = none

abbrev is_empty_bytes : Bytes → Bool
is_empty_bytes (dict fs) = false
is_empty_bytes (plain s) = s == ""

abbrev plain_text : Bytes → String
plain_text (dict fs) = ""
plain_text (plain s) = s

-- A digest that is the same for all contents will do here.
abbrev codec : Codec
codec = record {
  Bytes = Bytes;
  isoformat = tally;
  dumps = dict;
  dumps_sorted = λ fs. "digest";
  hexdigest = λ k s. s;
  load = load_bytes;
  is_empty = is_empty_bytes;
  encode = plain;
  decode = plain_text;
}

load_dict : (e : AuditEvent) → load_bytes (dict (to_dict codec e)) ≡ some e
unfolding load_bytes read_dict to_dict
load_dict e =
    rw
      (
        type_in-type_value e.event_type,
        count-tally e.timestamp,
        optional_in-optional e.alert_id,
        optional_in-optional e.agent_type,
        optional_in-optional e.agent_id,
        optional_in-optional e.tenant_id,
        optional_in-optional e.action,
        optional_in-optional e.target,
        optional_in-optional e.previous_hash,
        optional_in-optional e.hmac_signature,
      )
      refl

codec-Faithful : Faithful codec
codec-Faithful = record {
  load-dumps = load_dict;
  dumps_nonempty = λ fs. refl;
  decode-encode = λ s. refl;
}

abbrev entry : String → ℕ → Entry
entry id n = record {
  event_id = id;
  event_type = action_executed;
  timestamp = n;
  now = n;
  alert_id = none;
  agent_type = none;
  agent_id = none;
  tenant_id = none;
  action = some "isolate";
  target = some "host-1";
  status = "success";
  details = end;
}

abbrev redis : Redis Bytes
redis = cells {V = Bytes}

abbrev inc : String
inc = "inc-7"

abbrev empty : Cells Bytes
empty = no_cells

abbrev after_one : Cells Bytes
after_one = (log_event codec "key" redis inc (entry "a" 1) empty).0

abbrev first_event : AuditEvent
first_event = (log_event codec "key" redis inc (entry "a" 1) empty).1

abbrev second_event : AuditEvent
second_event = (log_event codec "key" redis inc (entry "b" 2) after_one).1

abbrev after_two : Cells Bytes
after_two = (log_event codec "key" redis inc (entry "b" 2) after_one).0

clash : {x : Bool} → x ≡ true → x ≡ false → ⊥
clash h k = cc

differ : {a b : String} → ◌==◌ {A = String} a b ≡ false → a ≢ b
differ {a} {b} h e = absurd (clash ((string_eq.same_iff a b).1 e) h)

-- The keys of the events and of the last hash differ.
keys_apart :
    (hash_key inc ≢ event_key inc "a")
    × (hash_key inc ≢ event_key inc "b")
    × (event_key inc "b" ≢ event_key inc "a")
keys_apart = (differ refl, differ refl, differ refl)

verify_chain-log_all_example :
    verify_chain codec "key" redis 20 inc
      (log_all codec "key" redis 20 inc (entry "a" 1 ∷ entry "b" 2 ∷ []) empty []).0
    ≡ some true
unfolding get_list get_key
verify_chain-log_all_example =
    verify_chain-log_all codec "key" redis 20 inc (entry "a" 1 ∷ entry "b" 2 ∷ []) empty
      codec-Faithful refl (λ u. refl)
      (
        omega arith,
        keys_apart.0,
        ((keys_apart.2, omega arith), tt),
        (omega arith, keys_apart.1, tt, tt),
      )

equal_timestamps_break_example :
    verify_chain codec "key" redis 20 inc
      (log_all codec "key" redis 20 inc (entry "a" 1 ∷ entry "b" 1 ∷ []) empty []).0
    ≡ some false
unfolding get_list get_key
equal_timestamps_break_example =
    equal_timestamps_break codec "key" redis 20 inc (entry "a" 1) (entry "b" 1) empty codec-Faithful
      refl (λ u. refl) (omega arith) (omega arith) keys_apart.0 keys_apart.1 keys_apart.2 refl

read_two :
    get_incident_events codec "key" redis 20 inc 100 after_two
    ≡ some (first_event ∷ second_event ∷ [])
unfolding get_incident_events log_event get_list get_key lrange_to get_event load_bytes read_dict
    to_dict sort_events tally type_in optional_in
read_two = refl

two_verify : verify_chain codec "key" redis 20 inc after_two ≡ some true
unfolding get_incident_events log_event get_list get_key lrange_to get_event load_bytes read_dict
    to_dict sort_events tally type_in optional_in verify_chain verify_from
two_verify = refl

verify_chain-IsChain_example :
    (verify_chain codec "key" redis 20 inc after_two ≡ some true)
    ↔ IsChain codec "key" (first_event ∷ second_event ∷ [])
verify_chain-IsChain_example =
    verify_chain-IsChain codec "key" redis 20 inc after_two (first_event ∷ second_event ∷ [])
      read_two

-- The target of the first event is written over.
abbrev forged_event : AuditEvent
forged_event = record first_event { target = some "host-2"; hmac_signature = some "forged" }

abbrev forged : Cells Bytes
forged = redis.setex 12 (event_key inc "a") 1000 (dict (to_dict codec forged_event)) after_one

read_forged : get_incident_events codec "key" redis 20 inc 100 forged ≡ some (forged_event ∷ [])
unfolding get_incident_events log_event get_list get_key lrange_to get_event load_bytes read_dict
    to_dict sort_events tally type_in optional_in
read_forged = refl

forged_unsealed : sealed codec "key" forged_event ≡ false
unfolding sealed log_event
forged_unsealed = refl

tampering_found_example : verify_chain codec "key" redis 20 inc forged ≡ some false
tampering_found_example =
    tampering_found codec "key" redis 20 inc forged (forged_event ∷ []) forged_event read_forged
      (inl refl) forged_unsealed

-- The first event is taken from the index.
abbrev removed : Cells Bytes
removed = redis.lrem (index_key inc) "a" after_two

read_removed : get_incident_events codec "key" redis 20 inc 100 removed ≡ some (second_event ∷ [])
unfolding get_incident_events log_event get_list get_key lrange_to get_event load_bytes read_dict
    to_dict sort_events tally type_in optional_in remove_all
read_removed = refl

removal_missed_example : verify_chain codec "key" redis 20 inc removed ≡ some true
removal_missed_example =
    removal_missed codec "key" redis 20 inc after_two removed (first_event ∷ []) (second_event ∷ [])
      [] read_two two_verify read_removed

-- Of three events one is a run and one an approval.
abbrev three : Cells Bytes
three =
    (log_event codec "key" redis inc (record (entry "d" 4) { event_type = agent_run_failed })
      (log_event codec "key" redis inc (record (entry "c" 3) { event_type = approval_granted })
        after_one).0).0

metrics_test :
    get_metrics codec "key" redis 20 (inc ∷ []) three (some no_metrics)
    ≡ some (record { total_incidents = 1; total_events = 3; agent_runs = 1; approvals = 1 })
unfolding get_metrics count_event log_event get_list get_key get_event load_bytes read_dict to_dict
    tally type_in optional_in type_value
metrics_test = refl
