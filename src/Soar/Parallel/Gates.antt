-- ===== src/Soar/Parallel/Gates.antt =====
-- The tasks of a parallel step, with and without the gates of their actions.
use mathlib.Core.Path.{fun_ext}
use cobalto.Base.{
  ℕ, zero, suc, ◌≡◌, refl, sym, ◌∙◌, ap, String, Option, none, some, List, [], ◌∷◌, map,
}
use cobalto.Base.Dict.{Dict}
use cobalto.Soar.Playbook.{ActionType, PlaybookAction}
use cobalto.Soar.Condition.{Texts, Evaluator}
use cobalto.Soar.Actions.{
  Handler, State, StepError, Begun, stopped, passed_over, ready, begin_action,
}
use cobalto.Soar.Actions.Gates.{ungated, begin_action-ungated}
use cobalto.Soar.Parallel.{
  Task, fresh, awaiting, done, next_turn, begun_task, advance, advance_at, settle, gather,
}

module _ {W : Type 0} (texts : Texts) (handlers : Dict ActionType (Handler W))
    (evaluators : Dict String Evaluator) where
  abbrev ungated_task : Task W → Task W
  ungated_task (fresh a) = fresh (ungated a)
  ungated_task (awaiting id handler params) = awaiting id handler params
  ungated_task done = done

  abbrev Turned : Type 0
  Turned = Task W × State W × Option StepError

  advance-ungated :
      (t : Task W) (s : State W)
      → advance texts handlers evaluators (ungated_task t) s ≡ advance texts handlers evaluators t s
  unfolding advance
  advance-ungated (fresh a) s =
      ap (begun_task texts handlers evaluators a.id)
        (begin_action-ungated texts handlers evaluators a s)
  advance-ungated (awaiting id handler params) s = refl
  advance-ungated done s = refl

  begun_ungated :
      (id : String) (b : State W × Begun W)
      → ungated_task (begun_task texts handlers evaluators id b).0
        ≡ (begun_task texts handlers evaluators id b).0
  unfolding begun_task
  begun_ungated id (s, stopped e) = refl
  begun_ungated id (s, passed_over) = refl
  begun_ungated id (s, ready handler params) = refl

  -- A task that has had a turn has no gates left.
  turned_ungated :
      (t : Task W) (s : State W)
      → ungated_task (advance texts handlers evaluators t s).0
        ≡ (advance texts handlers evaluators t s).0
  unfolding advance
  turned_ungated (fresh a) s = begun_ungated a.id (begin_action texts handlers evaluators a s)
  turned_ungated (awaiting id handler params) s = refl
  turned_ungated done s = refl

  abbrev ungated_tasks :
      List (Task W) × State W × Option StepError → List (Task W) × State W × Option StepError
  ungated_tasks (ts, s, e) = (map ungated_task ts, s, e)

  advance_at-ungated :
      (n : ℕ) (ts : List (Task W)) (s : State W)
      → advance_at texts handlers evaluators n (map ungated_task ts) s
        ≡ ungated_tasks (advance_at texts handlers evaluators n ts s)
  unfolding advance_at
  advance_at-ungated n [] s = refl
  advance_at-ungated zero (t ∷ ts) s =
      ap (λ (r : Turned). (r.0 ∷ map ungated_task ts, r.1, r.2)) (advance-ungated t s)
      ∙ ap
          (λ (x : Task W). (
            x ∷ map ungated_task ts,
            (advance texts handlers evaluators t s).1,
            (advance texts handlers evaluators t s).2,
          ))
          (sym (turned_ungated t s))
  advance_at-ungated (suc n) (t ∷ ts) s =
      ap (λ (r : List (Task W) × State W × Option StepError). (ungated_task t ∷ r.0, r.1, r.2))
        (advance_at-ungated n ts s)

  settle-ungated :
      (ts : List (Task W)) (s : State W)
      → settle texts handlers evaluators (map ungated_task ts) s
        ≡ settle texts handlers evaluators ts s
  unfolding settle
  settle-ungated [] s = refl
  settle-ungated (t ∷ ts) s =
      ap
        (λ (r : Turned). next_turn r λ t' s'.
          next_turn (advance texts handlers evaluators t' s')
            λ t'' s''. settle texts handlers evaluators (map ungated_task ts) s'')
        (advance-ungated t s)
      ∙ ap
          (λ (f : State W → State W × Option StepError).
            next_turn (advance texts handlers evaluators t s)
              λ t' s'. next_turn (advance texts handlers evaluators t' s') λ t'' s''. f s'')
          (fun_ext (settle-ungated ts))

  next_turn-ungated :
      (f : List (Task W) → State W → State W × Option StepError)
      → ((ts : List (Task W)) (s : State W) → f (map ungated_task ts) s ≡ f ts s)
      → (r : List (Task W) × State W × Option StepError)
      → next_turn (ungated_tasks r) f ≡ next_turn r f
  next_turn-ungated f h (ts, s, none) = h ts s
  next_turn-ungated f h (ts, s, some e) = refl

  gather_tasks-ungated :
      (turns : List ℕ) (ts : List (Task W)) (s : State W)
      → gather texts handlers evaluators turns (map ungated_task ts) s
        ≡ gather texts handlers evaluators turns ts s
  unfolding gather
  gather_tasks-ungated [] ts s = settle-ungated ts s
  gather_tasks-ungated (n ∷ turns) ts s =
      ap
        (λ (r : List (Task W) × State W × Option StepError).
          next_turn r λ ts' s'. gather texts handlers evaluators turns ts' s')
        (advance_at-ungated n ts s)
      ∙ next_turn-ungated (λ ts' s'. gather texts handlers evaluators turns ts' s')
          (gather_tasks-ungated turns) (advance_at texts handlers evaluators n ts s)

  map_fresh-ungated :
      (actions : List PlaybookAction)
      → map fresh (map ungated actions) ≡ map ungated_task (map fresh actions)
  map_fresh-ungated [] = refl
  map_fresh-ungated (a ∷ actions) = ap (◌∷◌ (fresh (ungated a))) (map_fresh-ungated actions)

  pub gather-ungated :
      (turns : List ℕ) (actions : List PlaybookAction) (s : State W)
      → gather texts handlers evaluators turns (map fresh (map ungated actions)) s
        ≡ gather texts handlers evaluators turns (map fresh actions) s
  gather-ungated turns actions s =
      ap (λ (ts : List (Task W)). gather texts handlers evaluators turns ts s)
        (map_fresh-ungated actions)
      ∙ gather_tasks-ungated turns (map fresh actions) s
