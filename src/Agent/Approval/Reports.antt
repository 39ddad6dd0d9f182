-- ===== src/Agent/Approval/Reports.antt =====
-- The sweep for timed-out requests: what it reports.
use mathlib.Core.Option
use cobalto.Base.{
  ℕ, ◌+◌, ◌≡◌, refl, ◌≢◌, ◌∙◌, ap, sym, String, Bool, true, false, Option, none, some, List, [],
  ◌∷◌, arith, contains, ltb, string_eq, ◌==◌, inl, inr, ==_true, ==_sound, Bool-cases, ◌⊎◌, subst,
}
use cobalto.Agent.Redis.{Redis}
use cobalto.Agent.Approval.{timeout, RequestData, complete, fromisoformat}
use cobalto.Agent.Approval.Sweep.{check_data, expire, check_ids, check_timeouts, add_if}
use cobalto.Agent.Approval.Decisions.{contains-remove_all, get-complete, pending-complete}
use cobalto.Agent.Approval.Frames.{get-check_data_ne, queued-check_data_ne}

module _ (redis : Redis RequestData) (sign : RequestData → String) where
  open redis use {Store, get, lrange, get-lpush, get-setex_after, lrange-lpush, lrange-setex}

  -- Off the queue, and stored as timed out at any time.
  abbrev pub IsTimedOut : String → Store → Type 0
  IsTimedOut id s =
      (contains id (lrange "pending" s) ≡ false)
      × ((t : ℕ) → Option.map (λ (d : RequestData). d.status) (get t id s) ≡ some timeout)

  complete-IsTimedOut :
      (id : String) (d : RequestData) (s : Store)
      → IsTimedOut id (complete redis sign id (record d { status = timeout }) s)
  complete-IsTimedOut id d s = (
    rw (pending-complete redis sign id (record d { status = timeout }) s)
        (contains-remove_all id (lrange "pending" s)),
    λ t. rw (get-complete redis sign t id id (record d { status = timeout }) s, ==_true id) refl,
  )

  -- A timed-out request stays so when another id is checked, and when it is checked again.
  expire-IsTimedOut :
      (now : ℕ) (e : Option ℕ) (id : String) (d : RequestData) (s : Store)
      → IsTimedOut id s
      → IsTimedOut id (expire redis sign e now id d s).0
  unfolding expire
  expire-IsTimedOut now none id d s h = h
  expire-IsTimedOut now (some e) id d s h = elim (Bool-cases (ltb e now)) [
    | inl late ↦ rw (late, expire) (complete-IsTimedOut id d s)
    | inr early ↦ rw (early, expire) h
  ]

  check_same-IsTimedOut :
      (now : ℕ) (o : Option RequestData) (id : String) (s : Store)
      → IsTimedOut id s
      → IsTimedOut id (check_data redis sign o now id s).0
  unfolding check_data
  check_same-IsTimedOut now none id s h = h
  check_same-IsTimedOut now (some d) id s h =
      expire-IsTimedOut now (fromisoformat d.expires_at) id d s h

  check_other-IsTimedOut :
      (now : ℕ) (o : Option RequestData) (x id : String) (s : Store)
      → x ≢ id
      → IsTimedOut id s
      → IsTimedOut id (check_data redis sign o now x s).0
  check_other-IsTimedOut now o x id s other (off, stored) = (
    queued-check_data_ne redis sign x id other now o s ∙ off,
    λ t.
        ap (Option.map (λ (d : RequestData). d.status))
          (get-check_data_ne redis sign x id other t now o s)
        ∙ stored t,
  )

  check_data-IsTimedOut :
      (now : ℕ) (o : Option RequestData) (x id : String) (s : Store)
      → IsTimedOut id s
      → IsTimedOut id (check_data redis sign o now x s).0
  check_data-IsTimedOut now o x id s h = elim (Bool-cases (x == id)) [
    | inl same ↦
        subst (λ (y : String). IsTimedOut id (check_data redis sign o now y s).0)
          (sym (==_sound same)) (check_same-IsTimedOut now o id s h)
    | inr distinct ↦
        check_other-IsTimedOut now o x id s
          (λ e. cc (distinct, ap (λ (y : String). y == id) e, ==_true id)) h
  ]

  expire_reports :
      (now : ℕ) (e : Option ℕ) (id : String) (d : RequestData) (s : Store)
      → (expire redis sign e now id d s).1 ≡ true
      → IsTimedOut id (expire redis sign e now id d s).0
  unfolding expire
  expire_reports now none id d s h = cc
  expire_reports now (some e) id d s h = elim (Bool-cases (ltb e now)) [
    | inl late ↦ rw (late, expire) (complete-IsTimedOut id d s)
    | inr early ↦
        let unreported : (expire redis sign (some e) now id d s).1 ≡ false =
          rw (early, expire) refl in
        cc (h, unreported)
  ]

  check_reports :
      (now : ℕ) (o : Option RequestData) (id : String) (s : Store)
      → (check_data redis sign o now id s).1 ≡ true
      → IsTimedOut id (check_data redis sign o now id s).0
  unfolding check_data
  check_reports now none id s h = cc
  check_reports now (some d) id s h = expire_reports now (fromisoformat d.expires_at) id d s h

  check_ids-IsTimedOut :
      (clock : ℕ → ℕ) (i : ℕ) (ids : List String) (id : String) (s : Store)
      → IsTimedOut id s
      → IsTimedOut id (check_ids redis sign clock i ids s).0
  unfolding check_ids
  check_ids-IsTimedOut clock i [] id s h = h
  check_ids-IsTimedOut clock i (x ∷ ids) id s h =
      check_ids-IsTimedOut clock (i + 2) ids id _
        (check_data-IsTimedOut (clock (i + 1)) (get (clock i) x s) x id s h)

  -- An id of the list is the one added, or one of the rest.
  contains-add_if_or :
      (b : Bool) (x id : String) (rest : List String)
      → contains id (add_if redis sign b x rest) ≡ true
      → ((b ≡ true) × (x ≡ id)) ⊎ (contains id rest ≡ true)
  unfolding add_if
  contains-add_if_or true x id rest h = ground (arith, string_eq.same_iff id x)
  contains-add_if_or false x id rest h = inr h

  check_ids_sound :
      (clock : ℕ → ℕ) (i : ℕ) (ids : List String) (id : String) (s : Store)
      → contains id (check_ids redis sign clock i ids s).1 ≡ true
      → IsTimedOut id (check_ids redis sign clock i ids s).0
  unfolding check_ids
  check_ids_sound clock i [] id s h = cc
  check_ids_sound clock i (x ∷ ids) id s h =
      elim (contains-add_if_or (check_data redis sign (get (clock i) x s) (clock (i + 1)) x s).1 x
        id _ h) [
          | inl (reported, same) ↦ check_ids-IsTimedOut clock (i + 2) ids id _ (
              subst
                (λ (y : String).
                  IsTimedOut y (check_data redis sign (get (clock i) x s) (clock (i + 1)) x s).0)
                same (check_reports (clock (i + 1)) (get (clock i) x s) x s reported))
          | inr later ↦ check_ids_sound clock (i + 2) ids id _ later
        ]

  -- Every id that a sweep reports is off the pending queue after it, and its request is stored as
  -- timed out, at any time.
  pub check_timeouts_sound :
      (clock : ℕ → ℕ) (id : String) (s : Store)
      → let (s', timed_out) = check_timeouts redis sign clock s in
        contains id timed_out ≡ true
        → (contains id (lrange "pending" s') ≡ false)
          × ((t : ℕ) → Option.map (λ (d : RequestData). d.status) (get t id s') ≡ some timeout)
  unfolding check_timeouts
  check_timeouts_sound clock id s h = check_ids_sound clock 0 (lrange "pending" s) id s h
