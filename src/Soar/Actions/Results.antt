-- ===== src/Soar/Actions/Results.antt =====
-- The results that the actions of an execution leave in it.
use cobalto.Base.{◌≡◌, refl, ◌⊎◌, String, true, false, Option, none, some, List, [], ◌∷◌, string_eq}
use cobalto.Base.Dict.{Dict, lookup, lookup-insert_self}
use cobalto.Base.Json.{Fields}
use cobalto.Soar.Playbook.{ActionType, action_type_eq, PlaybookAction}
use cobalto.Soar.Condition.{Texts, Verdict, holds, raises, Evaluator, condition_met}
use cobalto.Soar.Actions.{
  Outcome, result, failure, skipped, running, completed, failed, Execution, Handler, State, Begun,
  stopped, passed_over, ready, set_result, begin_gated, begin_found, begin_action, completed_by,
  complete_action, carry_on, execute_action, run_actions,
}
use cobalto.Soar.Actions.Records.{
  Closed, AllRecorded, Recorded, Recorded-Closed, Pending, settled-Pending, running-Pending,
  kept-Pending, Ends, and_then-Ends, Ends-implies, Always, and_then-Always, Ends-Always, Starts,
}

module _ {W : Type 0} (texts : Texts) (handlers : Dict ActionType (Handler W))
    (evaluators : Dict String Evaluator) where
  module _ (Q : Execution → Type 0) (closed : Closed Q) where
    begin_gated-keeps :
        (a : PlaybookAction) (handler : Handler W) (v : Verdict) (s : State W)
        → Q s.execution
        → Q (begin_gated texts handlers evaluators a handler v s).0.execution
    unfolding begin_gated set_result
    begin_gated-keeps a handler (raises e) s h = h
    begin_gated-keeps a handler (holds false) s h = closed s.execution a.id skipped h
    begin_gated-keeps a handler (holds true) s h = closed s.execution a.id running h

    begin_found-keeps :
        (a : PlaybookAction) (found : Option (Handler W)) (s : State W)
        → Q s.execution
        → Q (begin_found texts handlers evaluators a found s).0.execution
    unfolding begin_found
    begin_found-keeps a none s h = h
    begin_found-keeps a (some handler) s h =
        begin_gated-keeps a handler (condition_met texts evaluators a.condition s.context) s h

    pub begin_action-keeps :
        (a : PlaybookAction) (s : State W)
        → Q s.execution
        → Q (begin_action texts handlers evaluators a s).0.execution
    unfolding begin_action
    begin_action-keeps a s h = begin_found-keeps a (lookup a.action_type handlers) s h

    completed_by-keeps :
        (id : String) (o : Outcome) (s : State W)
        → Q s.execution
        → Always Q (completed_by texts handlers evaluators id o s)
    unfolding completed_by set_result
    completed_by-keeps id (result v) s h = closed s.execution id (completed v) h
    completed_by-keeps id (failure e) s h = closed s.execution id (failed e) h

    pub complete_action-keeps :
        (id : String) (handler : Handler W) (params : Fields) (s : State W)
        → Q s.execution
        → Always Q (complete_action texts handlers evaluators id handler params s)
    unfolding complete_action
    complete_action-keeps id handler params s h =
        let (world, context, outcome) = handler params s.context s.world in
        completed_by-keeps id outcome (record s { world = world; context = context }) h

    carry_on-keeps :
        (id : String) (b : State W × Begun W)
        → Q b.0.execution
        → Always Q (carry_on texts handlers evaluators id b)
    unfolding carry_on
    carry_on-keeps id (s, stopped e) h = h
    carry_on-keeps id (s, passed_over) h = h
    carry_on-keeps id (s, ready handler params) h = complete_action-keeps id handler params s h

    pub execute_action-keeps :
        (a : PlaybookAction) (s : State W)
        → Q s.execution
        → Always Q (execute_action texts handlers evaluators a s)
    unfolding execute_action
    execute_action-keeps a s h =
        carry_on-keeps a.id (begin_action texts handlers evaluators a s) (begin_action-keeps a s h)

    pub run_actions-keeps :
        (actions : List PlaybookAction) (s : State W)
        → Q s.execution
        → Always Q (run_actions texts handlers evaluators actions s)
    unfolding run_actions
    run_actions-keeps [] s h = h
    run_actions-keeps (a ∷ actions) s h =
        and_then-Always Q (execute_action texts handlers evaluators a s)
          (run_actions texts handlers evaluators actions) (execute_action-keeps a s h)
          (run_actions-keeps actions)

  module _ (P : String → Type 0) where
    begin_gated-Starts :
        (a : PlaybookAction) (handler : Handler W) (v : Verdict) (s : State W)
        → Pending P s.execution
        → Starts P a.id (begin_gated texts handlers evaluators a handler v s)
    unfolding begin_gated set_result
    begin_gated-Starts a handler (raises e) s h = tt
    begin_gated-Starts a handler (holds false) s h = (
      kept-Pending P a.id skipped s.execution refl h,
      (skipped, lookup-insert_self a.id skipped s.execution.action_results),
    )
    begin_gated-Starts a handler (holds true) s h = (
      running-Pending P a.id running s.execution h,
      (running, lookup-insert_self a.id running s.execution.action_results),
    )

    begin_found-Starts :
        (a : PlaybookAction) (found : Option (Handler W)) (s : State W)
        → Pending P s.execution
        → Starts P a.id (begin_found texts handlers evaluators a found s)
    unfolding begin_found
    begin_found-Starts a none s h = tt
    begin_found-Starts a (some handler) s h =
        begin_gated-Starts a handler (condition_met texts evaluators a.condition s.context) s h

    pub begin_action-Starts :
        (a : PlaybookAction) (s : State W)
        → Pending P s.execution
        → Starts P a.id (begin_action texts handlers evaluators a s)
    unfolding begin_action
    begin_action-Starts a s h = begin_found-Starts a (lookup a.action_type handlers) s h

    completed_by-Pending :
        (id : String) (o : Outcome) (s : State W)
        → Pending (λ j. (id ≡ j) ⊎ P j) s.execution
        → Ends (Pending P) (completed_by texts handlers evaluators id o s)
    unfolding completed_by set_result
    completed_by-Pending id (result v) s h = settled-Pending P id (completed v) s.execution refl h
    completed_by-Pending id (failure e) s h = tt

    pub complete_action-Pending :
        (id : String) (handler : Handler W) (params : Fields) (s : State W)
        → Pending (λ j. (id ≡ j) ⊎ P j) s.execution
        → Ends (Pending P) (complete_action texts handlers evaluators id handler params s)
    unfolding complete_action
    complete_action-Pending id handler params s h =
        let (world, context, outcome) = handler params s.context s.world in
        completed_by-Pending id outcome (record s { world = world; context = context }) h

    carry_on-Pending :
        (id : String) (b : State W × Begun W)
        → Starts P id b
        → Ends (λ x. Pending P x × Recorded id x) (carry_on texts handlers evaluators id b)
    unfolding carry_on
    carry_on-Pending id (s, stopped e) h = tt
    carry_on-Pending id (s, passed_over) h = h
    carry_on-Pending id (s, ready handler params) (h, k) =
        Ends-Always (Pending P) (Recorded id)
          (complete_action texts handlers evaluators id handler params s)
          (complete_action-Pending id handler params s h)
          (complete_action-keeps (Recorded id) (Recorded-Closed id) id handler params s k)

    pub execute_action-Pending :
        (a : PlaybookAction) (s : State W)
        → Pending P s.execution
        → Ends (λ x. Pending P x × Recorded a.id x) (execute_action texts handlers evaluators a s)
    unfolding execute_action
    execute_action-Pending a s h =
        carry_on-Pending a.id (begin_action texts handlers evaluators a s)
          (begin_action-Starts a s h)

    pub run_actions-AllRecorded :
        (actions : List PlaybookAction) (s : State W)
        → Pending P s.execution
        → Ends
            (λ x. Pending P x × AllRecorded actions x)
            (run_actions texts handlers evaluators actions s)
    unfolding run_actions
    run_actions-AllRecorded [] s h = (h, tt)
    run_actions-AllRecorded (a ∷ actions) s h =
        and_then-Ends (λ x. Pending P x × Recorded a.id x)
          (λ x. Pending P x × AllRecorded (a ∷ actions) x)
          (execute_action texts handlers evaluators a s)
          (run_actions texts handlers evaluators actions) (execute_action-Pending a s h)
          (λ s' (pending, recorded).
            Ends-implies (λ x. (Pending P x × AllRecorded actions x) × Recorded a.id x)
              (λ x. Pending P x × AllRecorded (a ∷ actions) x)
              (run_actions texts handlers evaluators actions s') (λ x k. (k.0.0, (k.1, k.0.1)))
              (Ends-Always (λ x. Pending P x × AllRecorded actions x) (Recorded a.id)
                (run_actions texts handlers evaluators actions s')
                (run_actions-AllRecorded actions s' pending)
                (run_actions-keeps (Recorded a.id) (Recorded-Closed a.id) actions s' recorded)))
