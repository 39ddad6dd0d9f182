-- ===== src/Mdr/Scheduling/Loads.antt =====
-- Who an alert is given to, and what that does to the loads.
use cobalto.Base.{
  ℕ, suc, ◌≤◌, ◌<◌, ◌≡◌, refl, ◌≢◌, ap, String, true, false, ◌&&◌, Option, none, some, List, [],
  ◌∷◌, ◌==◌, nat_eq, string_eq, Bool-cases, Option-cases, inl, inr, All, In, arith, ==_true,
  ==_false, ==_sound,
}
use cobalto.Mdr.Scheduling.{
  Analyst, available, Ref, Heap, write, Shift, ShiftSchedule, get_current_shift,
}
use cobalto.Mdr.Scheduling.Assignment.{
  Score, severity_eq, Alert, AssignmentRule, get_rule_for_severity, count_common, technique_match,
  score_analyst, is_nonneg, score_ltb, take_case, give, give_shift, assign, insert_scored,
  sort_scored, candidates, give_best, give_from, assign_from_pool, drop_case, release,
  release_assigned, reassign,
}

-- No analyst has more cases than the limit.
abbrev pub IsWithin : Heap → Type 0
IsWithin heap = (r : Ref) → (heap r).current_cases ≤ (heap r).max_concurrent_cases

write-IsWithin :
    (r : Ref) (a : Analyst) (heap : Heap)
    → IsWithin heap
    → a.current_cases ≤ a.max_concurrent_cases
    → IsWithin (write r a heap)
write-IsWithin r a heap h k q = elim (Bool-cases (r == q)) [
  | inl same ↦ rw same k
  | inr other ↦ rw other (h q)
]

give-IsWithin :
    (r : Ref) (alert : Alert) (heap : Heap)
    → IsWithin heap
    → available (heap r) ≡ true
    → IsWithin (give r alert heap).0
unfolding give
give-IsWithin r alert heap h free =
    write-IsWithin r (take_case (heap r)) heap h (ground (arith, free))

-- The candidates are analysts of the pool, free, and with the score that is not below zero.
abbrev IsCandidate : AssignmentRule → Alert → Heap → List Ref → Ref × Score → Type 0
IsCandidate rule alert heap refs (r, s) =
    In r refs
    × (available (heap r) ≡ true)
    × (s ≡ score_analyst (heap r) rule alert)
    × (is_nonneg s ≡ true)

All-weaken :
    (P Q : Ref × Score → Type 0) (xs : List (Ref × Score))
    → ((x : Ref × Score) → P x → Q x)
    → All P xs
    → All Q xs
All-weaken P Q [] f h = tt
All-weaken P Q (x ∷ xs) f (h, k) = (f x h, All-weaken P Q xs f k)

candidates-IsCandidate :
    (rule : AssignmentRule) (alert : Alert) (heap : Heap) (refs : List Ref)
    → All (IsCandidate rule alert heap refs) (candidates rule alert heap refs)
unfolding candidates
candidates-IsCandidate rule alert heap [] = tt
candidates-IsCandidate rule alert heap (r ∷ refs) =
    let later : All (IsCandidate rule alert heap (r ∷ refs)) (candidates rule alert heap refs) =
      All-weaken (IsCandidate rule alert heap refs) (IsCandidate rule alert heap (r ∷ refs)) _
        (λ (q, s) (m, k, l, n). (inr m, k, l, n)) (candidates-IsCandidate rule alert heap refs) in
    elim (Bool-cases (available (heap r) && is_nonneg (score_analyst (heap r) rule alert))) [
      | inl fits ↦
          rw (fits, candidates)
            ((inl refl, ground (arith, fits), refl, ground (arith, fits)), later)
      | inr unfit ↦ rw (unfit, candidates) later
    ]

All-insert_scored :
    (P : Ref × Score → Type 0) (x : Ref × Score) (xs : List (Ref × Score))
    → P x
    → All P xs
    → All P (insert_scored x xs)
unfolding insert_scored
All-insert_scored P (r, s) [] h k = (h, tt)
All-insert_scored P (r, s) ((q, t) ∷ xs) h (k, ks) = elim (Bool-cases (score_ltb s t)) [
  | inl below ↦ rw (below, insert_scored) (k, All-insert_scored P (r, s) xs h ks)
  | inr above ↦ rw (above, insert_scored) (h, (k, ks))
]

All-sort_scored :
    (P : Ref × Score → Type 0) (xs : List (Ref × Score)) → All P xs → All P (sort_scored xs)
unfolding sort_scored
All-sort_scored P [] h = tt
All-sort_scored P (x ∷ xs) (h, hs) = All-insert_scored P x _ h (All-sort_scored P xs hs)

give_best-IsWithin :
    (rule : AssignmentRule) (alert : Alert) (heap : Heap) (refs : List Ref)
    (scored : List (Ref × Score))
    → IsWithin heap
    → All (IsCandidate rule alert heap refs) scored
    → IsWithin (give_best scored alert heap).0
unfolding give_best
give_best-IsWithin rule alert heap refs [] h k = h
give_best-IsWithin rule alert heap refs ((r, s) ∷ scored) h (fit, fits) =
    give-IsWithin r alert heap h fit.1

-- What the pool gives out keeps every analyst within the limit, whatever the rules and the pool.
pub assign_from_pool-IsWithin :
    (rules : List AssignmentRule) (schedule : ShiftSchedule) (alert : Alert) (heap : Heap)
    → IsWithin heap
    → IsWithin (assign_from_pool rules schedule alert heap).0
unfolding assign_from_pool give_from
assign_from_pool-IsWithin rules schedule alert heap h =
    elim (Option-cases (get_rule_for_severity rules alert.severity)) [
      | inl missing ↦ rw missing h
      | inr (rule, found) ↦ rw found (
          give_best-IsWithin rule alert heap schedule.analysts _ h
            (All-sort_scored _ _ (candidates-IsCandidate rule alert heap schedule.analysts)))
    ]

release-IsWithin :
    (id : String) (refs : List Ref) (heap : Heap) → IsWithin heap → IsWithin (release id refs heap)
unfolding release
release-IsWithin id [] heap h = h
release-IsWithin id (r ∷ refs) heap h = elim (Bool-cases ((heap r).id == id)) [
  | inl same ↦
      rw (same, release) (write-IsWithin r (drop_case (heap r)) heap h (omega (arith, h r)))
  | inr other ↦ rw (other, release) (release-IsWithin id refs heap h)
]

-- Releasing a case gives nobody one.
release_le :
    (id : String) (refs : List Ref) (heap : Heap) (q : Ref)
    → ((release id refs heap q).current_cases ≤ (heap q).current_cases)
      × ((release id refs heap q).max_concurrent_cases ≡ (heap q).max_concurrent_cases)
unfolding release
release_le id [] heap q = (omega arith, refl)
release_le id (r ∷ refs) heap q = elim (Bool-cases ((heap r).id == id)) [
  | inl same ↦ elim (Bool-cases (r == q)) [
    | inl here ↦
        rw (same, release, here)
          (
            ground (arith, ap (λ (x : Ref). (heap x).current_cases) (==_sound here)),
            ap (λ (x : Ref). (heap x).max_concurrent_cases) (==_sound here),
          )
    | inr there ↦ rw (same, release, there) (omega arith, refl)
  ]
  | inr other ↦ rw (other, release) (release_le id refs heap q)
]

release_assigned_le :
    (assigned : Option String) (refs : List Ref) (heap : Heap) (q : Ref)
    → ((release_assigned assigned refs heap q).current_cases ≤ (heap q).current_cases)
      × ((release_assigned assigned refs heap q).max_concurrent_cases
          ≡ (heap q).max_concurrent_cases)
unfolding release_assigned
release_assigned_le none refs heap q = (omega arith, refl)
release_assigned_le (some id) refs heap q = elim (Bool-cases (id == "")) [
  | inl empty ↦ rw (empty, release_assigned) (omega arith, refl)
  | inr named ↦ rw (named, release_assigned) (release_le id refs heap q)
]

release_assigned-IsWithin :
    (assigned : Option String) (refs : List Ref) (heap : Heap)
    → IsWithin heap
    → IsWithin (release_assigned assigned refs heap)
release_assigned-IsWithin assigned refs heap h q =
    let (fewer, same) = release_assigned_le assigned refs heap q in omega (arith, h q, fewer, same)

-- Reassigning an alert keeps every analyst within the limit, also when the analyst that gives the
-- alert up and the one that takes it are the same object.
pub reassign-IsWithin :
    (schedule : ShiftSchedule) (alert : Alert) (target : Ref) (heap : Heap)
    → IsWithin heap
    → IsWithin (reassign schedule alert target heap).0
unfolding reassign
reassign-IsWithin schedule alert target heap h = elim (Bool-cases (available (heap target))) [
  | inl free ↦
      let (fewer, same) = release_assigned_le alert.assigned_to schedule.analysts heap target in
      rw free (
        write-IsWithin target
          (take_case (release_assigned alert.assigned_to schedule.analysts heap target)) _
          (release_assigned-IsWithin alert.assigned_to schedule.analysts heap h)
          (ground (arith, free, fewer, same)))
  | inr busy ↦ rw busy h
]

-- During a shift an alert whose severity has a rule is given to the analyst on shift whatever the
-- analyst's load, so also over the limit; the alert names the analyst, and nobody else changes.
pub assign_ignores_load :
    (rules : List AssignmentRule) (schedule : ShiftSchedule) (now : ℕ) (alert : Alert) (heap : Heap)
    {shift : Shift} {rule : AssignmentRule}
    → get_current_shift now schedule ≡ some shift
    → get_rule_for_severity rules alert.severity ≡ some rule
    → let (heap', alert', who) = assign rules schedule now alert heap in
      (who ≡ some shift.analyst)
      × (alert'.assigned_to ≡ some (heap shift.analyst).id)
      × ((heap' shift.analyst).current_cases ≡ suc (heap shift.analyst).current_cases)
      × ((q : Ref) → shift.analyst ≢ q → heap' q ≡ heap q)
unfolding assign give_shift give
assign_ignores_load rules schedule now alert heap {shift} on_shift found =
    rw (on_shift, found)
      (refl, refl, rw (==_true shift.analyst) refl, λ q other. rw (==_false other) refl)

no_technique :
    (rule : AssignmentRule) (techniques expertise : List String)
    → rule.prefer_specialist ≡ false
    → technique_match rule techniques expertise ≡ 0
unfolding technique_match
no_technique rule [] expertise h = refl
no_technique rule (t ∷ techniques) expertise h = rw h refl

no_expertise :
    (required expertise : List String) → required ≡ [] → count_common required expertise ≡ 0
unfolding count_common
no_expertise [] expertise h = refl
no_expertise (x ∷ required) expertise h = cc

-- A score without expertise or techniques is below zero as soon as the analyst has a case.
score_negative :
    (a : Analyst) (rule : AssignmentRule) (alert : Alert)
    → rule.required_expertise ≡ []
    → rule.prefer_specialist ≡ false
    → 0 < a.current_cases
    → (available a && is_nonneg (score_analyst a rule alert)) ≡ false
unfolding score_analyst
score_negative a rule alert h k busy =
    rw
      (
        no_expertise rule.required_expertise a.expertise h,
        no_technique rule alert.mitre_techniques a.expertise k,
      )
      (ground (arith, busy))

no_candidate :
    (rule : AssignmentRule) (alert : Alert) (heap : Heap) (refs : List Ref)
    → rule.required_expertise ≡ []
    → rule.prefer_specialist ≡ false
    → ((r : Ref) → In r refs → 0 < (heap r).current_cases)
    → candidates rule alert heap refs ≡ []
unfolding candidates
no_candidate rule alert heap [] h k busy = refl
no_candidate rule alert heap (r ∷ refs) h k busy =
    rw
      (
        score_negative (heap r) rule alert h k (busy r (inl refl)),
        no_candidate rule alert heap refs h k (λ q m. busy q (inr m)),
      )
      refl

-- The pool refuses an alert, although analysts are available, when its rule asks for no expertise
-- and no specialist and everyone in the pool has a case: the load alone makes every score negative.
pub busy_pool_refuses :
    (rules : List AssignmentRule) (schedule : ShiftSchedule) (alert : Alert) (heap : Heap)
    {rule : AssignmentRule}
    → get_rule_for_severity rules alert.severity ≡ some rule
    → rule.required_expertise ≡ []
    → rule.prefer_specialist ≡ false
    → ((r : Ref) → In r schedule.analysts → 0 < (heap r).current_cases)
    → assign_from_pool rules schedule alert heap ≡ (heap, alert, none)
unfolding assign_from_pool give_from sort_scored give_best
busy_pool_refuses rules schedule alert heap {rule} found h k busy =
    rw (found, no_candidate rule alert heap schedule.analysts h k busy) refl
