-- ===== src/Mdr/Sla/Breach.antt =====
-- The stages of a breach, and how they follow from the limits and the time.
use cobalto.Base.{
  Discrete→DecEq, ℕ, ◌+◌, ◌*◌, ◌≤◌, ◌<◌, ◌≡◌, refl, ◌↔◌, true, false, Option, none, some, arith,
  ltb, if◌then◌else◌, Option-cases, inl, inr,
}
use cobalto.Base.Dict.{Dict, lookup}
use cobalto.Mdr.Sla.{
  Priority-discrete, Priority, p1, p2, p3, p4, priority_eq, SlaDefinition, SlaBreachType, response,
  containment, resolution, default_slas, minute, remaining, exceeds, breach_of,
  calculate_time_remaining, check_breach, breach_with,
}

-- The limits in their usual order.
abbrev pub IsOrdered : SlaDefinition → Type 0
IsOrdered sla =
    (sla.response_time_minutes ≤ sla.containment_time_minutes)
    × (sla.containment_time_minutes ≤ sla.resolution_time_minutes)

-- When a limit runs out.
abbrev pub due : ℕ → ℕ → ℕ
due created_at minutes = minutes * minute + created_at

abbrev pub rank : Option SlaBreachType → ℕ
rank none = 0
rank (some response) = 1
rank (some containment) = 2
rank (some resolution) = 3

-- `check_breach` as a number of limits.
rank_at : ℕ → ℕ → ℕ → ℕ → ℕ
rank_at now r c s = if ltb s now then 3 else (if ltb c now then 2 else (if ltb r now then 1 else 0))

rank-check_breach :
    (slas : Dict Priority SlaDefinition) (now created_at : ℕ) (p : Priority) {sla : SlaDefinition}
    → lookup p slas ≡ some sla
    → rank (check_breach slas now created_at p)
      ≡ rank_at now
          (due created_at sla.response_time_minutes)
          (due created_at sla.containment_time_minutes)
          (due created_at sla.resolution_time_minutes)
unfolding check_breach breach_with calculate_time_remaining breach_of rank_at exceeds
rank-check_breach slas now created_at p {sla} found = rw found (ground arith)

rank_at_mono : (now later r c s : ℕ) → now ≤ later → rank_at now r c s ≤ rank_at later r c s
unfolding rank_at
rank_at_mono now later r c s h = ground arith

rank_at-stages :
    (now r c s : ℕ)
    → r ≤ c
    → c ≤ s
    → (rank_at now r c s ≡ 0 ↔ now ≤ r)
      × (rank_at now r c s ≡ 1 ↔ ((r < now) × (now ≤ c)))
      × (rank_at now r c s ≡ 2 ↔ ((c < now) × (now ≤ s)))
      × (rank_at now r c s ≡ 3 ↔ s < now)
unfolding rank_at
rank_at-stages now r c s h k = (
  (λ e. ground arith, λ e. ground arith),
  (λ e. ground arith, λ e. ground arith),
  (λ e. ground arith, λ e. ground arith),
  (λ e. ground arith, λ e. ground arith),
)

-- With the limits of a priority in their usual order, the breach is none up to the response limit
-- inclusive, then of the response, then of the containment, and of the resolution after its limit.
pub check_breach_stages :
    (slas : Dict Priority SlaDefinition) (now created_at : ℕ) (p : Priority) {sla : SlaDefinition}
    → lookup p slas ≡ some sla
    → IsOrdered sla
    → let breach = rank (check_breach slas now created_at p) in
      let r = due created_at sla.response_time_minutes in
      let c = due created_at sla.containment_time_minutes in
      let s = due created_at sla.resolution_time_minutes in
      (breach ≡ 0 ↔ now ≤ r)
      × (breach ≡ 1 ↔ ((r < now) × (now ≤ c)))
      × (breach ≡ 2 ↔ ((c < now) × (now ≤ s)))
      × (breach ≡ 3 ↔ s < now)
check_breach_stages slas now created_at p {sla} found (h, k) =
    rw (rank-check_breach slas now created_at p found) (
      rank_at-stages now (due created_at sla.response_time_minutes)
        (due created_at sla.containment_time_minutes) (due created_at sla.resolution_time_minutes)
        (omega (arith, h)) (omega (arith, k)))

rank-missing :
    (slas : Dict Priority SlaDefinition) (now created_at : ℕ) (p : Priority)
    → lookup p slas ≡ none
    → rank (check_breach slas now created_at p) ≡ 0
unfolding check_breach breach_with
rank-missing slas now created_at p missing = rw missing refl

-- A breach never becomes less severe as time passes, whatever the limits, also for a priority that
-- has none.
pub check_breach_mono :
    (slas : Dict Priority SlaDefinition) (now later created_at : ℕ) (p : Priority)
    → now ≤ later
    → rank (check_breach slas now created_at p) ≤ rank (check_breach slas later created_at p)
check_breach_mono slas now later created_at p h = elim (Option-cases (lookup p slas)) [
  | inl missing ↦ omega (
    arith,
    rank-missing slas now created_at p missing,
    rank-missing slas later created_at p missing,
  )
  | inr (sla, found) ↦
      rw
        (
          rank-check_breach slas now created_at p found,
          rank-check_breach slas later created_at p found,
        )
        (rank_at_mono now later _ _ _ h)
]

-- The remaining times and the breach agree: without a breach each remaining time is what is left to
-- its limit, and with one no time is left to respond.
pub remaining-breached :
    (now created_at : ℕ) (sla : SlaDefinition)
    → IsOrdered sla
    → let status = calculate_time_remaining now created_at sla in
      (status.breached ≡ false
        → (now + status.response_time_remaining ≡ due created_at sla.response_time_minutes)
          × (now + status.containment_time_remaining ≡ due created_at sla.containment_time_minutes)
          × (now + status.resolution_time_remaining ≡ due created_at sla.resolution_time_minutes))
      × (status.breached ≡ true → status.response_time_remaining ≡ 0)
unfolding calculate_time_remaining breach_of exceeds remaining
remaining-breached now created_at sla (h, k) =
    (λ e. (ground arith, ground arith, ground arith), λ e. ground arith)

rank_at-antitone :
    (now r c s r' c' s' : ℕ) → r ≤ r' → c ≤ c' → s ≤ s' → rank_at now r' c' s' ≤ rank_at now r c s
unfolding rank_at
rank_at-antitone now r c s r' c' s' h k l = ground arith

-- Under one table, a priority whose limits are shorter is in the worse breach.
shorter_first :
    (slas : Dict Priority SlaDefinition) (now created_at : ℕ) (p q : Priority) {a b : SlaDefinition}
    → lookup p slas ≡ some a
    → lookup q slas ≡ some b
    → a.response_time_minutes ≤ b.response_time_minutes
    → a.containment_time_minutes ≤ b.containment_time_minutes
    → a.resolution_time_minutes ≤ b.resolution_time_minutes
    → rank (check_breach slas now created_at q) ≤ rank (check_breach slas now created_at p)
shorter_first slas now created_at p q {a} {b} fa fb h k l =
    rw (rank-check_breach slas now created_at p fa, rank-check_breach slas now created_at q fb)
      (rank_at-antitone now _ _ _ _ _ _ (omega (arith, h)) (omega (arith, k)) (omega (arith, l)))

-- Under the default limits, of two alerts of one age the one of the more urgent priority is at
-- every time in at least as severe a breach.
pub default_slas-urgent_first :
    (now created_at : ℕ)
    → let breach = λ (p : Priority). rank (check_breach default_slas now created_at p) in
      (breach p4 ≤ breach p3) × (breach p3 ≤ breach p2) × (breach p2 ≤ breach p1)
unfolding lookup Discrete→DecEq Priority-discrete
default_slas-urgent_first now created_at = (
  shorter_first default_slas now created_at p3 p4 refl refl (omega arith) (omega arith)
      (omega arith),
  shorter_first default_slas now created_at p2 p3 refl refl (omega arith) (omega arith)
      (omega arith),
  shorter_first default_slas now created_at p1 p2 refl refl (omega arith) (omega arith)
      (omega arith),
)
