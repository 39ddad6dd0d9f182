-- ===== src/Mdr/Sla/Escalation.antt =====
-- The rule that an escalation takes.
use cobalto.Base.{
  ℕ, ◌≤◌, ◌<◌, ◌≡◌, refl, sym, subst, ap, ◌∙◌, true, false, Option, none, some, List, [], ◌∷◌, All,
  In, arith, ltb, leb, Bool-cases, ◌⊎◌, inl, inr,
}
use cobalto.Mdr.Sla.{
  Priority, EscalationRule, applies, insert_rule, applicable_of, sorted_rules, get_applicable_rules,
  first_above, should_escalate,
}

IsSorted : List EscalationRule → Type 0
IsSorted [] = Unit
IsSorted (r ∷ rules) =
    All (λ (q : EscalationRule). r.escalation_level ≤ q.escalation_level) rules × IsSorted rules

All-weaken :
    (P Q : EscalationRule → Type 0) (rules : List EscalationRule)
    → ((q : EscalationRule) → P q → Q q)
    → All P rules
    → All Q rules
All-weaken P Q [] f h = tt
All-weaken P Q (q ∷ rules) f (h, k) = (f q h, All-weaken P Q rules f k)

All-insert_rule :
    (P : EscalationRule → Type 0) (r : EscalationRule) (rules : List EscalationRule)
    → P r
    → All P rules
    → All P (insert_rule r rules)
unfolding insert_rule
All-insert_rule P r [] h k = (h, tt)
All-insert_rule P r (q ∷ rules) h (k, ks) =
    elim (Bool-cases (leb r.escalation_level q.escalation_level)) [
      | inl le ↦ rw (le, insert_rule) (h, (k, ks))
      | inr gt ↦ rw (gt, insert_rule) (k, All-insert_rule P r rules h ks)
    ]

insert_rule-IsSorted :
    (r : EscalationRule) (rules : List EscalationRule)
    → IsSorted rules
    → IsSorted (insert_rule r rules)
unfolding insert_rule IsSorted
insert_rule-IsSorted r [] h = (tt, tt)
insert_rule-IsSorted r (q ∷ rules) (low, h) =
    elim (Bool-cases (leb r.escalation_level q.escalation_level)) [
      | inl le ↦
          let r_le_q : r.escalation_level ≤ q.escalation_level = ground (arith, le) in
          rw (le, insert_rule)
            (
              (
                r_le_q,
                All-weaken (λ (p : EscalationRule). q.escalation_level ≤ p.escalation_level)
                    (λ (p : EscalationRule). r.escalation_level ≤ p.escalation_level) rules
                    (λ p k. omega (arith, r_le_q, k)) low,
              ),
              (low, h),
            )
      | inr gt ↦
          rw (gt, insert_rule)
            (
              All-insert_rule (λ (p : EscalationRule). q.escalation_level ≤ p.escalation_level) r
                  rules (ground (arith, gt)) low,
              insert_rule-IsSorted r rules h,
            )
    ]

sorted_rules-IsSorted : (rules : List EscalationRule) → IsSorted (sorted_rules rules)
unfolding sorted_rules IsSorted
sorted_rules-IsSorted [] = tt
sorted_rules-IsSorted (r ∷ rules) =
    insert_rule-IsSorted r (sorted_rules rules) (sorted_rules-IsSorted rules)

-- Where a rule of the longer list comes from, and that none is lost.
In_swap : {A B C : Type 0} → A ⊎ (B ⊎ C) → B ⊎ (A ⊎ C)
In_swap (inl a) = inr (inl a)
In_swap (inr (inl b)) = inl b
In_swap (inr (inr c)) = inr (inr c)

under : {A B C : Type 0} → (B → C) → A ⊎ B → A ⊎ C
under f (inl a) = inl a
under f (inr b) = inr (f b)

In-insert_rule :
    (r x : EscalationRule) (rules : List EscalationRule)
    → (In x (insert_rule r rules) → (x ≡ r) ⊎ In x rules)
      × ((x ≡ r) ⊎ In x rules → In x (insert_rule r rules))
unfolding insert_rule
In-insert_rule r x [] = (λ h. h, λ h. h)
In-insert_rule r x (q ∷ rules) = elim (Bool-cases (leb r.escalation_level q.escalation_level)) [
  | inl le ↦ rw (le, insert_rule) (λ h. h, λ h. h)
  | inr gt ↦
      let (there, back) = In-insert_rule r x rules in
      rw (gt, insert_rule) (λ h. In_swap (under there h), λ h. under back (In_swap h))
]

In-sorted_rules :
    (x : EscalationRule) (rules : List EscalationRule)
    → (In x (sorted_rules rules) → In x rules) × (In x rules → In x (sorted_rules rules))
unfolding sorted_rules
In-sorted_rules x [] = (λ h. h, λ h. h)
In-sorted_rules x (r ∷ rules) =
    let (there, back) = In-insert_rule r x (sorted_rules rules) in
    let (down, up) = In-sorted_rules x rules in (λ h. under down (there h), λ h. back (under up h))

-- A rule of the list that applies.
abbrev Chosen : Priority → ℕ → ℕ → List EscalationRule → EscalationRule → Type 0
Chosen p now created_at rules r = In r rules × (applies p now created_at r ≡ true)

here_or_later :
    (p : Priority) (now created_at : ℕ) (r x : EscalationRule) (rules : List EscalationRule)
    → applies p now created_at r ≡ true
    → (x ≡ r) ⊎ Chosen p now created_at rules x
    → Chosen p now created_at (r ∷ rules) x
here_or_later p now created_at r x rules h (inl e) = (inl e, ap (applies p now created_at) e ∙ h)
here_or_later p now created_at r x rules h (inr (m, k)) = (inr m, k)

not_here :
    (p : Priority) (now created_at : ℕ) (r x : EscalationRule) (rules : List EscalationRule)
    → applies p now created_at r ≡ false
    → Chosen p now created_at (r ∷ rules) x
    → Chosen p now created_at rules x
not_here p now created_at r x rules h (inl e, k) = cc (h, ap (applies p now created_at) e, k)
not_here p now created_at r x rules h (inr m, k) = (m, k)

In-applicable_of :
    (p : Priority) (now created_at : ℕ) (x : EscalationRule) (rules : List EscalationRule)
    → (In x (applicable_of p now created_at rules) → Chosen p now created_at rules x)
      × (Chosen p now created_at rules x → In x (applicable_of p now created_at rules))
unfolding applicable_of
In-applicable_of p now created_at x [] = (λ h. absurd h, λ (h, _). h)
In-applicable_of p now created_at x (r ∷ rules) =
    let (there, back) = In-applicable_of p now created_at x rules in
    elim (Bool-cases (applies p now created_at r)) [
      | inl holds ↦
          rw (holds, applicable_of)
            (
              λ h. here_or_later p now created_at r x rules holds (under there h),
              λ (m, k). under (λ n. back (n, k)) m,
            )
      | inr fails ↦
          rw (fails, applicable_of)
            (
              λ h. (inr (there h).0, (there h).1),
              λ h. back (not_here p now created_at r x rules fails h),
            )
    ]

In-get_applicable_rules :
    (rules : List EscalationRule) (p : Priority) (now created_at : ℕ) (x : EscalationRule)
    → (In x (get_applicable_rules rules p now created_at) → Chosen p now created_at rules x)
      × (Chosen p now created_at rules x → In x (get_applicable_rules rules p now created_at))
unfolding get_applicable_rules
In-get_applicable_rules rules p now created_at x =
    let (there, back) = In-sorted_rules x (applicable_of p now created_at rules) in
    let (down, up) = In-applicable_of p now created_at x rules in
    (λ h. down (there h), λ h. back (up h))

-- The rule that a loop with an early return takes from a sorted list.
abbrev IsLeastAbove : ℕ → List EscalationRule → Option EscalationRule → Type 0
IsLeastAbove level rules none = (q : EscalationRule) → In q rules → q.escalation_level ≤ level
IsLeastAbove level rules (some r) =
    In r rules
    × (level < r.escalation_level)
    × ((q : EscalationRule)
        → In q rules
        → level < q.escalation_level
        → r.escalation_level ≤ q.escalation_level)

All→In :
    (P : EscalationRule → Type 0) (rules : List EscalationRule) (q : EscalationRule)
    → All P rules
    → In q rules
    → P q
All→In P [] q h m = absurd m
All→In P (r ∷ rules) q (h, hs) (inl e) = subst P (sym e) h
All→In P (r ∷ rules) q (h, hs) (inr m) = All→In P rules q hs m

least_head :
    (r : EscalationRule) (rules : List EscalationRule) (q : EscalationRule)
    → All (λ (q : EscalationRule). r.escalation_level ≤ q.escalation_level) rules
    → In q (r ∷ rules)
    → r.escalation_level ≤ q.escalation_level
least_head r rules q low (inl e) = omega (arith, ap (λ (p : EscalationRule). p.escalation_level) e)
least_head r rules q low (inr m) =
    All→In (λ (p : EscalationRule). r.escalation_level ≤ p.escalation_level) rules q low m

low_or_tail :
    (level : ℕ) (r : EscalationRule) (rules : List EscalationRule) (q : EscalationRule)
    → r.escalation_level ≤ level
    → In q (r ∷ rules)
    → (q.escalation_level ≤ level) ⊎ In q rules
low_or_tail level r rules q h (inl e) =
    inl (omega (arith, h, ap (λ (p : EscalationRule). p.escalation_level) e))
low_or_tail level r rules q h (inr m) = inr m

least_tail :
    (level : ℕ) (r : EscalationRule) (rules : List EscalationRule) (o : Option EscalationRule)
    → r.escalation_level ≤ level
    → IsLeastAbove level rules o
    → IsLeastAbove level (r ∷ rules) o
least_tail level r rules none h all =
    λ q m. elim (low_or_tail level r rules q h m) [ inl low ↦ low | inr n ↦ all q n ]
least_tail level r rules (some t) h (m, above, least) = (
  inr m,
  above,
  λ q n k. elim (low_or_tail level r rules q h n) [
    | inl low ↦ omega (arith, low, k)
    | inr n' ↦ least q n' k
  ],
)

first_above-IsLeastAbove :
    (level : ℕ) (rules : List EscalationRule)
    → IsSorted rules
    → IsLeastAbove level rules (first_above level rules)
unfolding first_above IsSorted
first_above-IsLeastAbove level [] h = λ q m. absurd m
first_above-IsLeastAbove level (r ∷ rules) (low, h) =
    elim (Bool-cases (ltb level r.escalation_level)) [
      | inl above ↦
          rw (above, first_above)
            (inl refl, ground (arith, above), λ q m k. least_head r rules q low m)
      | inr below ↦
          rw (below, first_above)
            (least_tail level r rules (first_above level rules) (ground (arith, below))
              (first_above-IsLeastAbove level rules h))
    ]

-- What `should_escalate` promises: the rule is one that applies and is above the current level, no
-- other such rule has a lower level, and there is none only if none applies above it.
abbrev pub IsNextRule : List EscalationRule → Priority → ℕ → ℕ → ℕ → Option EscalationRule → Type 0
IsNextRule rules p now created_at level none =
    (q : EscalationRule)
    → In q rules
    → applies p now created_at q ≡ true
    → q.escalation_level ≤ level
IsNextRule rules p now created_at level (some r) =
    In r rules
    × (applies p now created_at r ≡ true)
    × (level < r.escalation_level)
    × ((q : EscalationRule)
        → In q rules
        → applies p now created_at q ≡ true
        → level < q.escalation_level
        → r.escalation_level ≤ q.escalation_level)

next_of_least :
    (rules : List EscalationRule) (p : Priority) (now created_at level : ℕ)
    (o : Option EscalationRule)
    → IsLeastAbove level (get_applicable_rules rules p now created_at) o
    → IsNextRule rules p now created_at level o
next_of_least rules p now created_at level none h =
    λ q m k. h q ((In-get_applicable_rules rules p now created_at q).1 (m, k))
next_of_least rules p now created_at level (some r) (m, above, least) =
    let (n, k) = (In-get_applicable_rules rules p now created_at r).0 m in
    (n, k, above, λ q j l. least q ((In-get_applicable_rules rules p now created_at q).1 (j, l)))

-- The rule to escalate to is, among the rules of the priority whose delay has passed and whose
-- level is above the current one, one of the lowest level, in whatever order the rules are listed;
-- and there is none only if no such rule exists.
pub should_escalate-IsNextRule :
    (rules : List EscalationRule) (p : Priority) (now created_at level : ℕ)
    → IsNextRule rules p now created_at level (should_escalate rules p now created_at level)
unfolding should_escalate get_applicable_rules
should_escalate-IsNextRule rules p now created_at level =
    next_of_least rules p now created_at level _ (
      first_above-IsLeastAbove level (get_applicable_rules rules p now created_at)
        (sorted_rules-IsSorted (applicable_of p now created_at rules)))
