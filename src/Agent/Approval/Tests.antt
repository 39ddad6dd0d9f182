-- ===== src/Agent/Approval/Tests.antt =====
-- The theorems on approvals at concrete inputs.
use mathlib.Core.Option
use cobalto.Base.{
  ℕ, ◌≡◌, refl, String, true, false, some, [], contains, ltb, string_eq, if◌then◌else◌,
}
use cobalto.Agent.Redis.Cells.{Cells, get_key, get_list, cells, no_cells}
use cobalto.Agent.Approval.{
  timeout, slack, RequestData, NewRequest, raised, type_error, to_dict, new_request,
  create_approval_request, approve_request,
}
use cobalto.Agent.Approval.Sweep.{check_timeouts}
use cobalto.Agent.Approval.Decisions.{outcome_of, approve_request-never_grants}
use cobalto.Agent.Approval.Reports.{check_timeouts_sound}

-- Stands in for the HMAC.
abbrev sign : RequestData → String
sign d = d.request_id

abbrev no_requests : Cells RequestData
no_requests = no_cells

abbrev isolate : NewRequest
isolate = record {
  request_id = "r1";
  incident_id = "inc-7";
  alert_id = "alert-9";
  actions = [];
  channel = slack;
}

-- Stored at 10, for a minute.
abbrev stored : Cells RequestData
stored = (create_approval_request cells sign 30 5 10 (some 1) isolate no_requests).0

abbrev isolate_data : RequestData
isolate_data = to_dict (new_request cells sign 5 1 isolate)

found_early : get_key 20 "r1" stored.keys ≡ some isolate_data
unfolding create_approval_request new_request to_dict get_key
found_early = refl

approve_request-never_grants_example :
    approve_request cells sign 20 21 22 "r1" "ana" (some "forged") stored
    ≡ (stored, outcome_of (get_key 20 "r1" stored.keys))
approve_request-never_grants_example =
    approve_request-never_grants cells sign 20 21 22 "r1" "ana" (some "forged") stored

-- and that outcome is the TypeError.
outcome_early : outcome_of (get_key 20 "r1" stored.keys) ≡ raised type_error
outcome_early = rw found_early refl

-- The sweep that reads the request before Redis drops it, and the clock after its expiry.
abbrev late_clock : ℕ → ℕ
late_clock i = if ltb 0 i then 60000006 else 60000005

reported_late : contains "r1" (check_timeouts cells sign late_clock stored).1 ≡ true
unfolding check_timeouts create_approval_request new_request to_dict get_key get_list
reported_late = refl

check_timeouts_sound_example :
    let (s', timed_out) = check_timeouts cells sign late_clock stored in
    (contains "r1" (get_list "pending" s'.lists) ≡ false)
    × ((t : ℕ) → Option.map (λ (d : RequestData). d.status) (get_key t "r1" s'.keys) ≡ some timeout)
check_timeouts_sound_example = check_timeouts_sound cells sign late_clock "r1" stored reported_late
