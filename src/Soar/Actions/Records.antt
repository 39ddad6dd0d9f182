-- ===== src/Soar/Actions/Records.antt =====
-- Predicates on the results of an execution, and what a new result does to them.
use cobalto.Base.{
  ◌≡◌, ◌≢◌, refl, sym, ◌∙◌, ap, ◌⊎◌, inl, inr, String, Bool, true, false, Option, none, some, List,
  string_eq, ◌==◌, if◌then◌else◌, Bool-cases, ==_sound, All, arith,
}
use cobalto.Base.Dict.{lookup, insert, lookup-insert}
use cobalto.Soar.Playbook.{action_type_eq, PlaybookAction}
use cobalto.Soar.Actions.{
  ActionResult, skipped, running, completed, failed, StepError, Execution, State, Begun, stopped,
  passed_over, ready, and_then,
}

abbrev pub with_result : String → ActionResult → Execution → Execution
with_result id r x = record x { action_results = insert id r x.action_results }

-- A property of executions that a new result does not end.
abbrev pub Closed : (Execution → Type 0) → Type 0
Closed Q = (x : Execution) (id : String) (r : ActionResult) → Q x → Q (with_result id r x)

abbrev pub Recorded : String → Execution → Type 0
Recorded id x = (r : ActionResult) × (lookup id x.action_results ≡ some r)

pub Recorded-Closed : (id : String) → Closed (Recorded id)
Recorded-Closed id x j r (q, h) = elim (Bool-cases (j == id)) [
  | inl same ↦ (r, lookup-insert j id r x.action_results ∙ rw same refl)
  | inr other ↦ (q, lookup-insert j id r x.action_results ∙ rw other h)
]

-- Each of the actions has a result.
abbrev pub AllRecorded : List PlaybookAction → Execution → Type 0
AllRecorded actions x = All (λ (a : PlaybookAction). Recorded a.id x) actions

abbrev pub is_settled : ActionResult → Bool
is_settled skipped = true
is_settled running = false
is_settled (completed v) = true
is_settled (failed e) = false

-- Where a result is not settled, the id is pending.
abbrev pub Pending : (String → Type 0) → Execution → Type 0
Pending P x =
    (id : String) (r : ActionResult)
    → lookup id x.action_results ≡ some r
    → is_settled r ≡ false
    → P id

some_result : {r q : ActionResult} → some r ≡ some q → r ≡ q
some_result h = cc

-- A result is looked up: the new one, or an older one of another id.
either_result :
    (b : Bool) (r q : ActionResult) (o : Option ActionResult)
    → (if b then some r else o) ≡ some q
    → ((b ≡ true) × (r ≡ q)) ⊎ ((b ≡ false) × (o ≡ some q))
either_result true r q o h = inl (refl, some_result h)
either_result false r q o h = inr (refl, h)

found-with_result :
    (id j : String) (r q : ActionResult) (x : Execution)
    → lookup j (with_result id r x).action_results ≡ some q
    → ((id ≡ j) × (r ≡ q)) ⊎ ((id ≢ j) × (lookup j x.action_results ≡ some q))
found-with_result id j r q x h =
    elim (either_result (id == j) r q (lookup j x.action_results)
      (sym (lookup-insert id j r x.action_results) ∙ h)) [
        | inl (same, e) ↦ inl (==_sound same, e)
        | inr (other, e) ↦ inr ((λ k. ground (arith, string_eq.same_iff id j, k, other)), e)
      ]

pub settled-Pending :
    (P : String → Type 0) (id : String) (r : ActionResult) (x : Execution)
    → is_settled r ≡ true
    → Pending (λ j. (id ≡ j) ⊎ P j) x
    → Pending P (with_result id r x)
settled-Pending P id r x settled h j q found unsettled = elim (found-with_result id j r q x found) [
  | inl (same, e) ↦ let clash : true ≡ false = sym settled ∙ ap is_settled e ∙ unsettled in cc
  | inr (other, k) ↦ elim (h j q k unsettled) [ inl same ↦ absurd (other same) | inr p ↦ p ]
]

pub running-Pending :
    (P : String → Type 0) (id : String) (r : ActionResult) (x : Execution)
    → Pending P x
    → Pending (λ j. (id ≡ j) ⊎ P j) (with_result id r x)
running-Pending P id r x h j q found unsettled = elim (found-with_result id j r q x found) [
  | inl (same, e) ↦ inl same
  | inr (other, k) ↦ inr (h j q k unsettled)
]

pub kept-Pending :
    (P : String → Type 0) (id : String) (r : ActionResult) (x : Execution)
    → is_settled r ≡ true
    → Pending P x
    → Pending P (with_result id r x)
kept-Pending P id r x settled h j q found unsettled = elim (found-with_result id j r q x found) [
  | inl (same, e) ↦ let clash : true ≡ false = sym settled ∙ ap is_settled e ∙ unsettled in cc
  | inr (other, k) ↦ h j q k unsettled
]

module _ {W : Type 0} where
  -- What holds when no exception was raised.
  abbrev pub Ends : (Execution → Type 0) → State W × Option StepError → Type 0
  Ends P (s, none) = P s.execution
  Ends P (s, some e) = Unit

  pub and_then-Ends :
      (P Q : Execution → Type 0) (r : State W × Option StepError)
      (f : State W → State W × Option StepError)
      → Ends P r
      → ((s : State W) → P s.execution → Ends Q (f s))
      → Ends Q (and_then r f)
  and_then-Ends P Q (s, none) f h k = k s h
  and_then-Ends P Q (s, some e) f h k = tt

  pub Ends-implies :
      (P Q : Execution → Type 0) (r : State W × Option StepError)
      → ((x : Execution) → P x → Q x)
      → Ends P r
      → Ends Q r
  Ends-implies P Q (s, none) f h = f s.execution h
  Ends-implies P Q (s, some e) f h = tt

  -- A property at the end, however it came.
  abbrev pub Always : (Execution → Type 0) → State W × Option StepError → Type 0
  Always Q (s, e) = Q s.execution

  pub and_then-Always :
      (Q : Execution → Type 0) (r : State W × Option StepError)
      (f : State W → State W × Option StepError)
      → Always Q r
      → ((s : State W) → Q s.execution → Always Q (f s))
      → Always Q (and_then r f)
  and_then-Always Q (s, none) f h k = k s h
  and_then-Always Q (s, some e) f h k = h

  pub Ends-Always :
      (P Q : Execution → Type 0) (r : State W × Option StepError)
      → Ends P r
      → Always Q r
      → Ends (λ x. P x × Q x) r
  Ends-Always P Q (s, none) h k = (h, k)
  Ends-Always P Q (s, some e) h k = tt

  -- After the start of an action: nothing pending more, or the action itself.
  abbrev pub Starts : (String → Type 0) → String → State W × Begun W → Type 0
  Starts P id (s, stopped e) = Unit
  Starts P id (s, passed_over) = Pending P s.execution × Recorded id s.execution
  Starts P id (s, ready handler params) =
      Pending (λ j. (id ≡ j) ⊎ P j) s.execution × Recorded id s.execution
