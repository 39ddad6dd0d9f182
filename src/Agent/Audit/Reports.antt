-- ===== src/Agent/Audit/Reports.antt =====
-- The reports over the audit trail of frameworks/agent-sdk/src/cobalto/agent/audit.py.
use text.Mathlib.Text.{starts_with}
use cobalto.Base.{
  ℕ, ◌+◌, String, Bool, true, false, not, ◌&&◌, Option, none, some, List, [], ◌∷◌, map, filter,
  length, string_eq, ◌==◌, if◌then◌else◌,
}
use cobalto.Base.Json.{null, str, Fields, end, field, get_field_or}
use cobalto.Agent.Redis.{Redis}
use cobalto.Agent.Audit.{
  EventType, agent_run_started, agent_run_completed, agent_run_failed, type_value, AuditEvent,
  Codec, optional, same_text, index_key, get_event, get_incident_events,
}

is_run : EventType → Bool
is_run agent_run_started = true
is_run agent_run_completed = true
is_run agent_run_failed = true
is_run t = false

-- `agent_type and event.agent_type != agent_type`
other_type : Option String → Option String → Bool
unfolding same_text
other_type none own = false
other_type (some a) own = if a == "" then false else not (same_text own (some a))

-- What `get_agent_runs` gives of an event.
unfoldable pub run_of : (ℕ → String) → AuditEvent → Fields
unfolding optional
run_of isoformat e = field "run_id" (str e.event_id) (
    field "incident_id" (str e.incident_id) (
      field "agent_type" (optional e.agent_type) (
        field "started_at" (str (isoformat e.timestamp)) (
          field "completed_at" (get_field_or "completed_at" null e.details) (
            field "status" (str e.status) (
              field "input_payload" (get_field_or "input" null e.details) (
                field "output_payload" (get_field_or "output" null e.details) (
                  field "token_usage" (get_field_or "token_usage" null e.details) (
                    field "duration_seconds" (get_field_or "duration_seconds" null e.details)
                      end)))))))))

-- The counts of `get_metrics`.
pub record Metrics : Type 0 where
  pub total_incidents : ℕ
  pub total_events : ℕ
  pub agent_runs : ℕ
  pub approvals : ℕ

abbrev pub no_metrics : Metrics
no_metrics = record { total_incidents = 0; total_events = 0; agent_runs = 0; approvals = 0 }

-- One event that was found.
unfoldable pub count_event : EventType → Metrics → Metrics
unfolding type_value
count_event t m =
    if starts_with (type_value t) "agent_run"
    then record m { agent_runs = m.agent_runs + 1 }
    else if starts_with (type_value t) "approval"
    then record m { approvals = m.approvals + 1 }
    else m

module _ (C : Codec) (secret : String) (D : Redis C.Bytes) where
  runs_in : Option String → Option (List AuditEvent) → Option (List Fields)
  unfolding is_run other_type run_of
  runs_in agent_type none = none
  runs_in agent_type (some l) = some (
      map (run_of C.isoformat) (
        filter (λ (e : AuditEvent). is_run e.event_type && not (other_type agent_type e.agent_type))
          l))

  unfoldable pub get_agent_runs : ℕ → String → Option String → D.Store → Option (List Fields)
  unfolding runs_in
  get_agent_runs t incident_id agent_type s =
      runs_in agent_type (get_incident_events C secret D t incident_id 100 s)

  count_found : Option (Option AuditEvent) → Option Metrics → Option Metrics
  unfolding count_event
  count_found none m = none
  count_found (some o) none = none
  count_found (some none) (some m) = some m
  count_found (some (some e)) (some m) = some (count_event e.event_type m)

  count_events : ℕ → String → List String → D.Store → Option Metrics → Option Metrics
  unfolding count_found
  count_events t incident_id [] s m = m
  count_events t incident_id (x ∷ ids) s m =
      count_events t incident_id ids s (count_found (get_event C secret D t incident_id x s) m)

  with_events : ℕ → Option Metrics → Option Metrics
  with_events n none = none
  with_events n (some m) =
      some (record m { total_incidents = m.total_incidents + 1; total_events = m.total_events + n })

  -- Over the incidents that KEYS finds.
  unfoldable pub get_metrics : ℕ → List String → D.Store → Option Metrics → Option Metrics
  unfolding count_events with_events
  get_metrics t [] s m = m
  get_metrics t (i ∷ incident_ids) s m =
      let ids = D.lrange (index_key i) s in
      get_metrics t incident_ids s (count_events t i ids s (with_events (length ids) m))
