-- ===== src/Agent/Tools/Trail.antt =====
-- The audit trail of the tools that were executed.
use cobalto.Base.{
  ℕ, ◌≡◌, refl, ◌∙◌, ap, String, Bool, true, false, Option, none, some, List, [], ◌∷◌, ◌++◌,
  string_eq, if◌then◌else◌,
}
use cobalto.Base.Dict.{lookup}
use cobalto.Base.Json.{Fields}
use cobalto.Agent.Tools.{
  ToolOutcome, ToolCall, ToolReply, answered, key_error, Executor, Registry, called, execute_with,
  execute,
}

-- A call of `execute`.
pub record Request : Type 0 where
  pub name : String
  pub arguments : Fields
  pub audit : Bool
  pub duration : ℕ

append_assoc : (xs ys zs : List ToolCall) → (xs ++ ys) ++ zs ≡ xs ++ (ys ++ zs)
append_assoc [] ys zs = refl
append_assoc (x ∷ xs) ys zs = ap (◌∷◌ x) (append_assoc xs ys zs)

append_nil : (xs : List ToolCall) → xs ≡ xs ++ []
append_nil [] = refl
append_nil (x ∷ xs) = ap (◌∷◌ x) (append_nil xs)

-- What a request and its reply leave in the trail.
abbrev pub trail_of : Request → ToolReply → List ToolCall
trail_of q key_error = []
trail_of q (answered outcome) =
    if q.audit
    then record {
      tool_name = q.name;
      arguments = q.arguments;
      outcome = outcome;
      duration_seconds = q.duration;
    }
      ∷ []
    else []

abbrev pub trail : List Request → List ToolReply → List ToolCall
trail [] replies = []
trail (q ∷ qs) [] = []
trail (q ∷ qs) (reply ∷ replies) = trail_of q reply ++ trail qs replies

if_appended :
    (b : Bool) (xs ys : List ToolCall) → (if b then xs ++ ys else xs) ≡ xs ++ (if b then ys else [])
if_appended true xs ys = refl
if_appended false xs ys = append_nil xs

module _ {W : Type 0} where
  abbrev pub execute_all : List Request → W → Registry W → Registry W × W × List ToolReply
  execute_all [] world r = (r, world, [])
  execute_all (q ∷ qs) world r =
      let (r₁, world₁, reply) = execute q.name q.arguments q.audit q.duration world r in
      let (r₂, world₂, replies) = execute_all qs world₁ r₁ in (r₂, world₂, reply ∷ replies)

  called-trail_of :
      (q : Request) (a : W × ToolOutcome) (r : Registry W)
      → (called q.name q.arguments q.audit q.duration a r).0.call_history
        ≡ r.call_history ++ trail_of q (called q.name q.arguments q.audit q.duration a r).2
  unfolding called
  called-trail_of q (world, outcome) r =
      let call : ToolCall = record {
        tool_name = q.name;
        arguments = q.arguments;
        outcome = outcome;
        duration_seconds = q.duration;
      } in
      if_appended q.audit r.call_history (call ∷ [])

  execute_with-trail_of :
      (q : Request) (found : Option (Executor W)) (world : W) (r : Registry W)
      → (execute_with found q.name q.arguments q.audit q.duration world r).0.call_history
        ≡ r.call_history
          ++ trail_of q (execute_with found q.name q.arguments q.audit q.duration world r).2
  unfolding execute_with
  execute_with-trail_of q none world r = append_nil r.call_history
  execute_with-trail_of q (some executor) world r = called-trail_of q (executor q.arguments world) r

  -- After any calls, the history is the one before with, in their order, the audited calls that
  -- found their tool, each with the outcome that its caller got.
  pub execute_all-trail :
      (qs : List Request) (world : W) (r : Registry W)
      → let (r', world', replies) = execute_all qs world r in
        r'.call_history ≡ r.call_history ++ trail qs replies
  unfolding execute
  execute_all-trail [] world r = append_nil r.call_history
  execute_all-trail (q ∷ qs) world r =
      let (r₁, world₁, reply) = execute q.name q.arguments q.audit q.duration world r in
      execute_all-trail qs world₁ r₁
      ∙ ap (λ (xs : List ToolCall). xs ++ trail qs (execute_all qs world₁ r₁).2)
          (execute_with-trail_of q (lookup q.name r.executors) world r)
      ∙ append_assoc r.call_history (trail_of q reply) (trail qs (execute_all qs world₁ r₁).2)
