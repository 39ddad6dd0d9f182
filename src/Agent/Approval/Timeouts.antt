-- ===== src/Agent/Approval/Timeouts.antt =====
-- The sweep for timed-out requests cannot see those that Redis has dropped.

use cobalto.Base.{
  ℕ, suc, ◌+◌, ◌*◌, ◌<◌, ◌≡◌, refl, ◌≢◌, ◌∙◌, ap, String, Bool, true, false, Option, none, some,
  List, [], ◌∷◌, arith, contains, string_eq, ◌==◌, inl, inr, ==_true, ==_sound, Bool-cases,
}
use cobalto.Agent.Redis.{Redis}
use cobalto.Agent.Approval.{RequestData, NewRequest, minute, create_approval_request}
use cobalto.Agent.Approval.Sweep.{check_data, check_ids, check_timeouts, add_if}
use cobalto.Agent.Approval.Decisions.{create-eq}
use cobalto.Agent.Approval.Frames.{get-check_data_ne, queued, queued-check_data_ne}

module _ (redis : Redis RequestData) (sign : RequestData → String) where
  open redis use {Store, get, lrange, get-lpush, get-setex_after, lrange-lpush, lrange-setex}

  -- A request that Redis has dropped: no reading of the clock finds it, and it is queued redis sign.
  abbrev IsDropped : (ℕ → ℕ) → String → Store → Type 0
  IsDropped clock id s = (i : ℕ) → get (clock i) id s ≡ none

  check_dropped :
      (now : ℕ) (id : String) (o : Option RequestData) (s : Store)
      → o ≡ none
      → check_data redis sign o now id s ≡ (s, false)
  unfolding check_data
  check_dropped now id none s h = refl
  check_dropped now id (some d) s h = cc

  contains-add_if :
      (b : Bool) (x id : String) (rest : List String)
      → x ≢ id
      → contains id (add_if redis sign b x rest) ≡ contains id rest
  unfolding add_if
  contains-add_if true x id rest h = ground (arith, string_eq.same_iff id x)
  contains-add_if false x id rest h = refl

  -- The sweep over any ids neither reports a dropped request nor takes it off the queue.
  abbrev Ignored : String → Store → Store × List String → Type 0
  Ignored id s (s', timed_out) =
      (queued redis sign id s' ≡ queued redis sign id s) × (contains id timed_out ≡ false)

  check_ids-Ignored :
      (clock : ℕ → ℕ) (i : ℕ) (ids : List String) (id : String) (s : Store)
      → IsDropped clock id s
      → Ignored id s (check_ids redis sign clock i ids s)
  unfolding check_ids
  check_ids-Ignored clock i [] id s h = (refl, refl)
  check_ids-Ignored clock i (x ∷ ids) id s h = elim (Bool-cases (x == id)) [
    | inl same ↦
        rw
          (
            check_dropped (clock (i + 1)) x (get (clock i) x s) s
                (ap (λ (y : String). get (clock i) y s) (==_sound same) ∙ h i),
            add_if,
          )
          (check_ids-Ignored clock (i + 2) ids id s h)
    | inr distinct ↦
        let other : x ≢ id = λ e. cc (distinct, ap (λ (y : String). y == id) e, ==_true id) in
        let (s', timed_out) = check_data redis sign (get (clock i) x s) (clock (i + 1)) x s in
        let (kept, unreported) = check_ids-Ignored clock (i + 2) ids id s' (λ k.
          get-check_data_ne redis sign x id other (clock k) (clock (i + 1)) (get (clock i) x s) s
          ∙ h k) in
        (
          kept ∙ queued-check_data_ne redis sign x id other (clock (i + 1)) (get (clock i) x s) s,
          contains-add_if timed_out x id _ other ∙ unreported,
        )
  ]

  created-IsDropped :
      (default_timeout now stored_at m : ℕ) (n : NewRequest) (s : Store) (clock : ℕ → ℕ)
      → ((i : ℕ) → stored_at + suc m * minute < clock i)
      → IsDropped clock n.request_id
          (create_approval_request redis sign default_timeout now stored_at (some (suc m)) n s).0
  created-IsDropped default_timeout now stored_at m n s clock late i =
      rw (create-eq redis sign default_timeout now stored_at m (some (suc m)) n s (inl refl)) (
        get-lpush (clock i) n.request_id "pending" n.request_id _
        ∙ get-setex_after (clock i) stored_at n.request_id (suc m * minute) _ s (late i))

  created_queued :
      (default_timeout now stored_at m : ℕ) (n : NewRequest) (s : Store)
      → queued redis sign n.request_id
          (create_approval_request redis sign default_timeout now stored_at (some (suc m)) n s).0
        ≡ true
  created_queued default_timeout now stored_at m n s =
      rw
        (
          create-eq redis sign default_timeout now stored_at m (some (suc m)) n s (inl refl),
          lrange-lpush,
        )
        (ground (arith, ==_true n.request_id))

  -- Redis drops a pending request when its timeout has passed since it was stored, so a sweep after
  -- that never reports it as timed out, and its id stays on the pending queue.
  pub timeouts_missed :
      (default_timeout now stored_at m : ℕ) (n : NewRequest) (s : Store) (clock : ℕ → ℕ)
      → ((i : ℕ) → stored_at + suc m * minute < clock i)
      → let (s', _) =
          create_approval_request redis sign default_timeout now stored_at (some (suc m)) n s in
        let (s'', timed_out) = check_timeouts redis sign clock s' in
        (contains n.request_id timed_out ≡ false)
        × (contains n.request_id (lrange "pending" s'') ≡ true)
  unfolding check_timeouts
  timeouts_missed default_timeout now stored_at m n s clock late =
      let (s', _) =
        create_approval_request redis sign default_timeout now stored_at (some (suc m)) n s in
      let (kept, unreported) =
        check_ids-Ignored clock 0 (lrange "pending" s') n.request_id s'
          (created-IsDropped default_timeout now stored_at m n s clock late) in
      (unreported, kept ∙ created_queued default_timeout now stored_at m n s)
