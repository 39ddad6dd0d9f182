-- ===== src/Soar/Parallel/Turns.antt =====
-- What one turn of a task does to the results.
use cobalto.Base.{◌≡◌, sym, subst, ◌⊎◌, inl, inr, String, Option, none, some, List, [], ◌∷◌}
use cobalto.Base.Dict.{Dict}
use cobalto.Base.Json.{Fields}
use cobalto.Soar.Playbook.{ActionType, PlaybookAction}
use cobalto.Soar.Condition.{Texts, Evaluator}
use cobalto.Soar.Actions.{
  StepError, Execution, Handler, State, Begun, stopped, passed_over, ready, begin_action,
  complete_action,
}
use cobalto.Soar.Actions.Records.{
  Closed, Recorded, Recorded-Closed, Pending, Ends, Ends-Always, Always, Starts,
}
use cobalto.Soar.Actions.Results.{
  begin_action-keeps, complete_action-keeps, begin_action-Starts, complete_action-Pending,
}
use cobalto.Soar.Parallel.{Task, fresh, awaiting, done, next_turn, begun_task, advance}

pub Pending-implies :
    (P Q : String → Type 0) (x : Execution) → ((j : String) → P j → Q j) → Pending P x → Pending Q x
Pending-implies P Q x f h j r found unsettled = f j (h j r found unsettled)

pub nothing_waits : (P : String → Type 0) (j : String) → ⊥ ⊎ P j → P j
nothing_waits P j (inl e) = absurd e
nothing_waits P j (inr p) = p

module _ {W : Type 0} where
  -- The id that a task waits for.
  abbrev pub Waits : Task W → String → Type 0
  Waits (fresh a) j = ⊥
  Waits (awaiting id handler params) j = id ≡ j
  Waits done j = ⊥

  abbrev pub PendingIn : List (Task W) → (String → Type 0) → String → Type 0
  PendingIn [] P j = P j
  PendingIn (t ∷ ts) P j = Waits t j ⊎ PendingIn ts P j

  -- An action whose task has started has a result.
  abbrev pub Account : PlaybookAction → Task W → Execution → Type 0
  Account a (fresh b) x = a ≡ b
  Account a (awaiting id handler params) x = Recorded a.id x
  Account a done x = Recorded a.id x

  abbrev pub Accounts : List PlaybookAction → List (Task W) → Execution → Type 0
  Accounts [] [] x = Unit
  Accounts [] (t ∷ ts) x = ⊥
  Accounts (a ∷ actions) [] x = ⊥
  Accounts (a ∷ actions) (t ∷ ts) x = Account a t x × Accounts actions ts x

  pub Account-Closed : (a : PlaybookAction) (t : Task W) → Closed (Account a t)
  Account-Closed a (fresh b) x id r h = h
  Account-Closed a (awaiting j handler params) x id r h = Recorded-Closed a.id x id r h
  Account-Closed a done x id r h = Recorded-Closed a.id x id r h

  pub Accounts-Closed :
      (actions : List PlaybookAction) (ts : List (Task W)) → Closed (Accounts actions ts)
  Accounts-Closed [] [] x id r h = h
  Accounts-Closed [] (t ∷ ts) x id r h = h
  Accounts-Closed (a ∷ actions) [] x id r h = h
  Accounts-Closed (a ∷ actions) (t ∷ ts) x id r (h, k) =
      (Account-Closed a t x id r h, Accounts-Closed actions ts x id r k)

  -- What holds after a turn that raised no exception.
  abbrev pub Turns :
      {T : Type 0} → (T → Execution → Type 0) → T × State W × Option StepError → Type 0
  Turns P (t, s, none) = P t s.execution
  Turns P (t, s, some e) = Unit

  pub next_turn-Ends :
      {T : Type 0} (P : T → Execution → Type 0) (Q : Execution → Type 0)
      (r : T × State W × Option StepError) (f : T → State W → State W × Option StepError)
      → Turns P r
      → ((t : T) (s : State W) → P t s.execution → Ends Q (f t s))
      → Ends Q (next_turn r f)
  next_turn-Ends P Q (t, s, none) f h k = k t s h
  next_turn-Ends P Q (t, s, some e) f h k = tt

  pub next_turn-Always :
      {T : Type 0} (Q : Execution → Type 0) (r : T × State W × Option StepError)
      (f : T → State W → State W × Option StepError)
      → Q r.1.execution
      → ((t : T) (s : State W) → Q s.execution → Always Q (f t s))
      → Always Q (next_turn r f)
  next_turn-Always Q (t, s, none) f h k = k t s h
  next_turn-Always Q (t, s, some e) f h k = h

  abbrev pub IsTurned : Task W → Type 0
  IsTurned (fresh a) = ⊥
  IsTurned (awaiting id handler params) = Unit
  IsTurned done = Unit

  abbrev pub IsDone : Task W → Type 0
  IsDone (fresh a) = ⊥
  IsDone (awaiting id handler params) = ⊥
  IsDone done = Unit

  -- All tasks: what is pending waits in one of them, and the actions are accounted for.
  abbrev pub Balance : (String → Type 0) → List PlaybookAction → List (Task W) → Execution → Type 0
  Balance P actions ts x = Pending (PendingIn ts P) x × Accounts actions ts x

  -- The state of one task, beside the ids that others wait for.
  abbrev pub Holds : (String → Type 0) → PlaybookAction → Task W → Execution → Type 0
  Holds P a t x = Pending (λ j. Waits t j ⊎ P j) x × Account a t x

  pub move_in :
      (P : String → Type 0) (t : Task W) (ts : List (Task W)) (j : String)
      → Waits t j ⊎ PendingIn ts P j
      → PendingIn ts (λ i. Waits t i ⊎ P i) j
  move_in P t [] j h = h
  move_in P t (u ∷ ts) j (inl w) = inr (move_in P t ts j (inl w))
  move_in P t (u ∷ ts) j (inr (inl w)) = inl w
  move_in P t (u ∷ ts) j (inr (inr p)) = inr (move_in P t ts j (inr p))

  pub move_out :
      (P : String → Type 0) (t : Task W) (ts : List (Task W)) (j : String)
      → PendingIn ts (λ i. Waits t i ⊎ P i) j
      → Waits t j ⊎ PendingIn ts P j
  move_out P t [] j h = h
  move_out P t (u ∷ ts) j (inl w) = inr (inl w)
  move_out P t (u ∷ ts) j (inr p) = elim (move_out P t ts j p) [
    | inl w ↦ inl w
    | inr q ↦ inr (inr q)
  ]

module _ {W : Type 0} (texts : Texts) (handlers : Dict ActionType (Handler W))
    (evaluators : Dict String Evaluator) where
  begun_task-Turns :
      (P : String → Type 0) (a : PlaybookAction) (b : State W × Begun W)
      → Starts P a.id b
      → Turns (λ t x. Holds P a t x × IsTurned t) (begun_task texts handlers evaluators a.id b)
  unfolding begun_task
  begun_task-Turns P a (s, stopped e) h = tt
  begun_task-Turns P a (s, passed_over) (h, k) =
      ((Pending-implies P (λ j. ⊥ ⊎ P j) s.execution (λ j p. inr p) h, k), tt)
  begun_task-Turns P a (s, ready handler params) h = (h, tt)

  finished :
      (P : String → Type 0) (a : PlaybookAction) (t : Task W) (r : State W × Option StepError)
      → IsDone t
      → Ends (λ x. Pending P x × Recorded a.id x) r
      → Turns (λ u x. Holds P a u x × IsTurned u × IsDone u) (t, r.0, r.1)
  finished P a (fresh b) r over h = absurd over
  finished P a (awaiting id handler params) r over h = absurd over
  finished P a done (s, none) over (h, k) =
      ((Pending-implies P (λ j. ⊥ ⊎ P j) s.execution (λ j p. inr p) h, k), tt, tt)
  finished P a done (s, some e) over h = tt

  awaited-Turns :
      (P : String → Type 0) (a : PlaybookAction) (id : String) (handler : Handler W)
      (params : Fields) (s : State W)
      → Holds P a (awaiting id handler params) s.execution
      → Turns
          (λ t x. Holds P a t x × IsTurned t × IsDone t)
          (advance texts handlers evaluators (awaiting id handler params) s)
  unfolding advance
  awaited-Turns P a id handler params s (h, k) =
      let r = complete_action texts handlers evaluators id handler params s in
      finished P a done r tt (
        Ends-Always (Pending P) (Recorded a.id) r
          (complete_action-Pending texts handlers evaluators P id handler params s h)
          (complete_action-keeps texts handlers evaluators (Recorded a.id) (Recorded-Closed a.id) id
            handler params s k))

  -- Of a task that has had a turn, one more turn makes an end.
  pub IsTurned-Turns :
      (P : String → Type 0) (a : PlaybookAction) (t : Task W) (s : State W)
      → IsTurned t
      → Holds P a t s.execution
      → Turns (λ u x. Holds P a u x × IsTurned u × IsDone u) (advance texts handlers evaluators t s)
  unfolding advance
  IsTurned-Turns P a (fresh b) s turned h = absurd turned
  IsTurned-Turns P a (awaiting id handler params) s turned h =
      awaited-Turns P a id handler params s h
  IsTurned-Turns P a done s turned h = (h, tt, tt)

  pub Turns-implies :
      {T : Type 0} (P Q : T → Execution → Type 0) (r : T × State W × Option StepError)
      → ((t : T) (x : Execution) → P t x → Q t x)
      → Turns P r
      → Turns Q r
  Turns-implies P Q (t, s, none) f h = f t s.execution h
  Turns-implies P Q (t, s, some e) f h = tt

  pub advance-Turns :
      (P : String → Type 0) (a : PlaybookAction) (t : Task W) (s : State W)
      → Holds P a t s.execution
      → Turns (λ u x. Holds P a u x × IsTurned u) (advance texts handlers evaluators t s)
  unfolding advance
  advance-Turns P a (fresh b) s (h, same) =
      subst
        (λ (c : PlaybookAction).
          Turns (λ u x. Holds P c u x × IsTurned u) (advance texts handlers evaluators (fresh b) s))
        (sym same)
        (begun_task-Turns P b (begin_action texts handlers evaluators b s) (
          begin_action-Starts texts handlers evaluators P b s
            (Pending-implies (λ j. ⊥ ⊎ P j) P s.execution (nothing_waits P) h)))
  advance-Turns P a (awaiting id handler params) s h =
      Turns-implies (λ u x. Holds P a u x × IsTurned u × IsDone u)
        (λ u x. Holds P a u x × IsTurned u)
        (advance texts handlers evaluators (awaiting id handler params) s) (λ u x k. (k.0, k.1))
        (awaited-Turns P a id handler params s h)
  advance-Turns P a done s h = (h, tt)

  begun_task-keeps :
      (Q : Execution → Type 0) (id : String) (b : State W × Begun W)
      → Q b.0.execution
      → Q (begun_task texts handlers evaluators id b).1.execution
  unfolding begun_task
  begun_task-keeps Q id (s, stopped e) h = h
  begun_task-keeps Q id (s, passed_over) h = h
  begun_task-keeps Q id (s, ready handler params) h = h

  pub advance-keeps :
      (Q : Execution → Type 0) (closed : Closed Q) (t : Task W) (s : State W)
      → Q s.execution
      → Q (advance texts handlers evaluators t s).1.execution
  unfolding advance
  advance-keeps Q closed (fresh a) s h =
      begun_task-keeps Q a.id (begin_action texts handlers evaluators a s)
        (begin_action-keeps texts handlers evaluators Q closed a s h)
  advance-keeps Q closed (awaiting id handler params) s h =
      complete_action-keeps texts handlers evaluators Q closed id handler params s h
  advance-keeps Q closed done s h = h

  pub with_kept :
      {T : Type 0} (P : T → Execution → Type 0) (Q : Execution → Type 0)
      (r : T × State W × Option StepError)
      → Q r.1.execution
      → Turns P r
      → Turns (λ t x. P t x × Q x) r
  with_kept P Q (t, s, none) q h = (h, q)
  with_kept P Q (t, s, some e) q h = tt

  pub placed :
      {T U : Type 0} (P : T → Execution → Type 0) (Q : U → Execution → Type 0) (f : T → U)
      (r : T × State W × Option StepError)
      → ((t : T) (x : Execution) → P t x → Q (f t) x)
      → Turns P r
      → Turns Q (f r.0, r.1, r.2)
  placed P Q f (t, s, none) k h = k t s.execution h
  placed P Q f (t, s, some e) k h = tt
