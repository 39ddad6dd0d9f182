-- ===== src/Soar/Parallel/Results.antt =====
-- The results that the tasks of a parallel step leave, whatever their turns.
use cobalto.Base.{ℕ, zero, suc, refl, ◌⊎◌, inr, String, List, [], ◌∷◌, map}
use cobalto.Base.Dict.{Dict}
use cobalto.Soar.Playbook.{ActionType, PlaybookAction}
use cobalto.Soar.Condition.{Texts, Evaluator}
use cobalto.Soar.Actions.{Execution, Handler, State}
use cobalto.Soar.Actions.Records.{
  Closed, Recorded, Recorded-Closed, AllRecorded, Pending, Ends, Ends-implies, Ends-Always, Always,
}
use cobalto.Soar.Parallel.{Task, fresh, awaiting, done, advance, advance_at, settle, gather}
use cobalto.Soar.Parallel.Turns.{
  Pending-implies, nothing_waits, Waits, PendingIn, Account, Accounts, Account-Closed,
  Accounts-Closed, Turns, next_turn-Ends, next_turn-Always, IsTurned, IsDone, Holds, Balance,
  move_in, move_out, IsTurned-Turns, advance-Turns, advance-keeps, with_kept, placed,
}

module _ {W : Type 0} (texts : Texts) (handlers : Dict ActionType (Handler W))
    (evaluators : Dict String Evaluator) where
  advance_at-keeps :
      (Q : Execution → Type 0) (closed : Closed Q) (n : ℕ) (ts : List (Task W)) (s : State W)
      → Q s.execution
      → Q (advance_at texts handlers evaluators n ts s).1.execution
  unfolding advance_at
  advance_at-keeps Q closed n [] s h = h
  advance_at-keeps Q closed zero (t ∷ ts) s h =
      advance-keeps texts handlers evaluators Q closed t s h
  advance_at-keeps Q closed (suc n) (t ∷ ts) s h = advance_at-keeps Q closed n ts s h

  advance_at-Balance :
      (P : String → Type 0) (n : ℕ) (actions : List PlaybookAction) (ts : List (Task W))
      (s : State W)
      → Balance P actions ts s.execution
      → Turns (λ us x. Balance P actions us x) (advance_at texts handlers evaluators n ts s)
  unfolding advance_at
  advance_at-Balance P n actions [] s h = h
  advance_at-Balance P n [] (t ∷ ts) s (h, k) = absurd k
  advance_at-Balance P zero (a ∷ actions) (t ∷ ts) s (h, (k, l)) =
      placed texts handlers evaluators
        (λ u x. (Holds (PendingIn ts P) a u x × IsTurned u) × Accounts actions ts x)
        (λ us x. Balance P (a ∷ actions) us x) (λ u. u ∷ ts) (advance texts handlers evaluators t s)
        (λ u x m. (m.0.0.0, (m.0.0.1, m.1)))
        (with_kept texts handlers evaluators (λ u x. Holds (PendingIn ts P) a u x × IsTurned u)
          (Accounts actions ts) (advance texts handlers evaluators t s)
          (advance-keeps texts handlers evaluators (Accounts actions ts)
            (Accounts-Closed actions ts) t s l)
          (advance-Turns texts handlers evaluators (PendingIn ts P) a t s (h, k)))
  advance_at-Balance P (suc n) (a ∷ actions) (t ∷ ts) s (h, (k, l)) =
      placed texts handlers evaluators
        (λ us x. Balance (λ j. Waits t j ⊎ P j) actions us x × Account a t x)
        (λ us x. Balance P (a ∷ actions) us x) (λ us. t ∷ us)
        (advance_at texts handlers evaluators n ts s)
        (λ us x m. (
          Pending-implies (PendingIn us (λ j. Waits t j ⊎ P j)) (PendingIn (t ∷ us) P) x
              (move_out P t us) m.0.0,
          (m.1, m.0.1),
        ))
        (with_kept texts handlers evaluators (λ us x. Balance (λ j. Waits t j ⊎ P j) actions us x)
          (Account a t) (advance_at texts handlers evaluators n ts s)
          (advance_at-keeps (Account a t) (Account-Closed a t) n ts s k)
          (advance_at-Balance (λ j. Waits t j ⊎ P j) n actions ts s
            (
              Pending-implies (PendingIn (t ∷ ts) P) (PendingIn ts (λ j. Waits t j ⊎ P j))
                  s.execution (move_in P t ts) h,
              l,
            )))

  settle-keeps :
      (Q : Execution → Type 0) (closed : Closed Q) (ts : List (Task W)) (s : State W)
      → Q s.execution
      → Always Q (settle texts handlers evaluators ts s)
  unfolding settle
  settle-keeps Q closed [] s h = h
  settle-keeps Q closed (t ∷ ts) s h =
      next_turn-Always Q (advance texts handlers evaluators t s) _
        (advance-keeps texts handlers evaluators Q closed t s h)
        λ t' s' h'.
          next_turn-Always Q (advance texts handlers evaluators t' s') _
            (advance-keeps texts handlers evaluators Q closed t' s' h')
            λ t'' s'' h''. settle-keeps Q closed ts s'' h''

  pub gather-keeps :
      (Q : Execution → Type 0) (closed : Closed Q) (turns : List ℕ) (ts : List (Task W))
      (s : State W)
      → Q s.execution
      → Always Q (gather texts handlers evaluators turns ts s)
  unfolding gather
  gather-keeps Q closed [] ts s h = settle-keeps Q closed ts s h
  gather-keeps Q closed (n ∷ turns) ts s h =
      next_turn-Always Q (advance_at texts handlers evaluators n ts s) _
        (advance_at-keeps Q closed n ts s h) λ ts' s' h'. gather-keeps Q closed turns ts' s' h'

  -- What the tasks leave in the end.
  abbrev Left : (String → Type 0) → List PlaybookAction → Execution → Type 0
  Left P actions x = Pending P x × AllRecorded actions x

  over_task :
      (P : String → Type 0) (a : PlaybookAction) (t : Task W) (x : Execution)
      → IsDone t
      → Holds P a t x
      → Pending P x × Recorded a.id x
  over_task P a (fresh b) x over h = absurd over
  over_task P a (awaiting id handler params) x over h = absurd over
  over_task P a done x over (h, k) = (Pending-implies (λ j. ⊥ ⊎ P j) P x (nothing_waits P) h, k)

  settle-Left :
      (P : String → Type 0) (actions : List PlaybookAction) (ts : List (Task W)) (s : State W)
      → Balance P actions ts s.execution
      → Ends (Left P actions) (settle texts handlers evaluators ts s)
  unfolding settle
  settle-Left P [] [] s (h, k) = (h, tt)
  settle-Left P [] (t ∷ ts) s (h, k) = absurd k
  settle-Left P (a ∷ actions) [] s (h, k) = absurd k
  settle-Left P (a ∷ actions) (t ∷ ts) s (h, (k, l)) =
      let Turned = λ (u : Task W) (x : Execution).
        (Holds (PendingIn ts P) a u x × IsTurned u) × Accounts actions ts x in
      let Over = λ (u : Task W) (x : Execution).
        (Holds (PendingIn ts P) a u x × IsTurned u × IsDone u) × Accounts actions ts x in
      next_turn-Ends Turned (Left P (a ∷ actions)) (advance texts handlers evaluators t s) _
        (with_kept texts handlers evaluators (λ u x. Holds (PendingIn ts P) a u x × IsTurned u)
          (Accounts actions ts) (advance texts handlers evaluators t s)
          (advance-keeps texts handlers evaluators (Accounts actions ts)
            (Accounts-Closed actions ts) t s l)
          (advance-Turns texts handlers evaluators (PendingIn ts P) a t s (h, k)))
        λ t' s' m.
          next_turn-Ends Over (Left P (a ∷ actions)) (advance texts handlers evaluators t' s') _
            (with_kept texts handlers evaluators
              (λ u x. Holds (PendingIn ts P) a u x × IsTurned u × IsDone u) (Accounts actions ts)
              (advance texts handlers evaluators t' s')
              (advance-keeps texts handlers evaluators (Accounts actions ts)
                (Accounts-Closed actions ts) t' s' m.1)
              (IsTurned-Turns texts handlers evaluators (PendingIn ts P) a t' s' m.0.1 m.0.0))
            λ t'' s'' n.
              let (pending, recorded) =
                over_task (PendingIn ts P) a t'' s''.execution n.0.2 n.0.0 in
              let r = settle texts handlers evaluators ts s'' in
              Ends-implies (λ x. Left P actions x × Recorded a.id x) (Left P (a ∷ actions)) r
                (λ x q. (q.0.0, (q.1, q.0.1)))
                (Ends-Always (Left P actions) (Recorded a.id) r
                  (settle-Left P actions ts s'' (pending, n.1))
                  (settle-keeps (Recorded a.id) (Recorded-Closed a.id) ts s'' recorded))

  gather_tasks-Left :
      (P : String → Type 0) (actions : List PlaybookAction) (turns : List ℕ) (ts : List (Task W))
      (s : State W)
      → Balance P actions ts s.execution
      → Ends (Left P actions) (gather texts handlers evaluators turns ts s)
  unfolding gather
  gather_tasks-Left P actions [] ts s h = settle-Left P actions ts s h
  gather_tasks-Left P actions (n ∷ turns) ts s h =
      next_turn-Ends (λ us x. Balance P actions us x) (Left P actions)
        (advance_at texts handlers evaluators n ts s) _ (advance_at-Balance P n actions ts s h)
        λ ts' s' h'. gather_tasks-Left P actions turns ts' s' h'

  fresh-Balance :
      (P : String → Type 0) (actions : List PlaybookAction) (x : Execution)
      → Pending P x
      → Balance {W = W} P actions (map fresh actions) x
  fresh-Balance P [] x h = (h, tt)
  fresh-Balance P (a ∷ actions) x h =
      let (pending, accounts) = fresh-Balance P actions x h in
      (
        Pending-implies (PendingIn {W = W} (map fresh actions) P)
            (PendingIn {W = W} (map fresh (a ∷ actions)) P) x (λ j p. inr p) pending,
        (refl, accounts),
      )

  -- Each action of a parallel step that raises no exception has a result, and none is left pending.
  pub gather-AllRecorded :
      (P : String → Type 0) (turns : List ℕ) (actions : List PlaybookAction) (s : State W)
      → Pending P s.execution
      → Ends
          (λ x. Pending P x × AllRecorded actions x)
          (gather texts handlers evaluators turns (map fresh actions) s)
  gather-AllRecorded P turns actions s h =
      gather_tasks-Left P actions turns (map fresh actions) s
        (fresh-Balance P actions s.execution h)
