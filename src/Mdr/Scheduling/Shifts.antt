-- ===== src/Mdr/Scheduling/Shifts.antt =====
-- Which shift is current, and which is next.
use cobalto.Base.{
  ℕ, ◌+◌, ◌*◌, ◌≤◌, ◌<◌, ◌≡◌, refl, ap, sym, subst, ◌∙◌, ltb→lt, Bool, true, false, Option, none,
  some, List, [], ◌∷◌, ◌++◌, ltb, Bool-cases, ◌⊎◌, inl, inr, In, filter, find, arith,
}
use cobalto.Mdr.Scheduling.{
  Ref, Shift, ShiftType, ShiftSchedule, is_active, get_current_shift, earliest, earliest_of,
  get_next_shift, hour, new_shift, schedule_shift,
}

found_first :
    (p : Shift → Bool) (q : Shift) (shifts : List Shift) → p q ≡ true → find p (q ∷ shifts) ≡ some q
found_first p q shifts h = rw h refl

skipped :
    (p : Shift → Bool) (q : Shift) (shifts : List Shift)
    → p q ≡ false
    → find p (q ∷ shifts) ≡ find p shifts
skipped p q shifts h = rw h refl

find_last :
    (p : Shift → Bool) (shifts : List Shift) (s : Shift)
    → find p shifts ≡ none
    → p s ≡ true
    → find p (shifts ++ s ∷ []) ≡ some s
find_last p [] s h k = rw k refl
find_last p (q ∷ shifts) s h k = elim (Bool-cases (p q)) [
  | inl here ↦ cc (h, found_first p q shifts here)
  | inr there ↦
      skipped p q (shifts ++ s ∷ []) there
      ∙ find_last p shifts s (sym (skipped p q shifts there) ∙ h) k
]

active_throughout :
    (r : Ref) (kind : ShiftType) (start now : ℕ) (schedule : ShiftSchedule)
    → start ≤ now
    → now ≤ start + 8 * hour
    → is_active now (new_shift schedule r kind start) ≡ true
active_throughout r ShiftType.day start now schedule h k = ground (arith, h, k)
active_throughout r ShiftType.evening start now schedule h k = ground (arith, h, k)
active_throughout r ShiftType.night start now schedule h k = ground (arith, h, k)

-- While no other shift is active, a shift that has just been scheduled is the current one from its
-- start to eight hours later, both inclusive.
pub get_current_shift-schedule_shift :
    (r : Ref) (kind : ShiftType) (start now : ℕ) (schedule : ShiftSchedule)
    → get_current_shift now schedule ≡ none
    → start ≤ now
    → now ≤ start + 8 * hour
    → let (schedule', shift) = schedule_shift r kind start schedule in
      get_current_shift now schedule' ≡ some shift
unfolding get_current_shift schedule_shift
get_current_shift-schedule_shift r kind start now schedule free h k =
    find_last (is_active now) schedule.shifts (new_shift schedule r kind start) free
      (active_throughout r kind start now schedule h k)

-- The earliest of the shifts, the first given.
abbrev IsEarliest : Shift → List Shift → Shift → Type 0
IsEarliest best shifts s =
    In s (best ∷ shifts) × ((q : Shift) → In q (best ∷ shifts) → s.start_time ≤ q.start_time)

start_of : {q s : Shift} → q ≡ s → q.start_time ≡ s.start_time
start_of e = ap (λ (x : Shift). x.start_time) e

sooner_wins :
    (best s x : Shift) (shifts : List Shift)
    → s.start_time ≤ best.start_time
    → IsEarliest s shifts x
    → IsEarliest best (s ∷ shifts) x
sooner_wins best s x shifts h (m, least) = (inr m, λ q n. bound q n)
  where
    bound : (q : Shift) → In q (best ∷ s ∷ shifts) → x.start_time ≤ q.start_time
    bound q (inl e) = omega (arith, h, start_of e, least s (inl refl))
    bound q (inr n) = least q n

best_stays :
    (best s x : Shift) (shifts : List Shift)
    → best.start_time ≤ s.start_time
    → IsEarliest best shifts x
    → IsEarliest best (s ∷ shifts) x
best_stays best s x shifts h (m, least) = (place m, λ q n. bound q n)
  where
    place : In x (best ∷ shifts) → In x (best ∷ s ∷ shifts)
    place (inl e) = inl e
    place (inr n) = inr (inr n)

    bound : (q : Shift) → In q (best ∷ s ∷ shifts) → x.start_time ≤ q.start_time
    bound q (inl e) = least q (inl e)
    bound q (inr (inl e)) = omega (arith, h, start_of e, least best (inl refl))
    bound q (inr (inr n)) = least q (inr n)

earliest_sooner :
    (best s : Shift) (shifts : List Shift)
    → ltb s.start_time best.start_time ≡ true
    → earliest best (s ∷ shifts) ≡ earliest s shifts
unfolding earliest
earliest_sooner best s shifts h = rw h refl

earliest_later :
    (best s : Shift) (shifts : List Shift)
    → ltb s.start_time best.start_time ≡ false
    → earliest best (s ∷ shifts) ≡ earliest best shifts
unfolding earliest
earliest_later best s shifts h = rw h refl

only_one : (best q : Shift) → In q (best ∷ []) → best.start_time ≤ q.start_time
only_one best q (inl e) = omega (arith, start_of e)
only_one best q (inr m) = absurd m

earliest-IsEarliest :
    (best : Shift) (shifts : List Shift) → IsEarliest best shifts (earliest best shifts)
unfolding earliest
earliest-IsEarliest best [] = (inl refl, only_one best)
earliest-IsEarliest best (s ∷ shifts) = elim (Bool-cases (ltb s.start_time best.start_time)) [
  | inl sooner ↦ subst (IsEarliest best (s ∷ shifts)) (sym (earliest_sooner best s shifts sooner)) (
      sooner_wins best s (earliest s shifts) shifts (ground (arith, sooner))
        (earliest-IsEarliest s shifts))
  | inr later ↦ subst (IsEarliest best (s ∷ shifts)) (sym (earliest_later best s shifts later)) (
      best_stays best s (earliest best shifts) shifts (ground (arith, later))
        (earliest-IsEarliest best shifts))
]

abbrev upcoming : ℕ → List Shift → List Shift
upcoming now shifts = filter (λ (s : Shift). ltb now s.start_time) shifts

abbrev IsUpcoming : ℕ → List Shift → Shift → Type 0
IsUpcoming now shifts s = In s shifts × (now < s.start_time)

abbrev pub IsNextShift : ℕ → List Shift → Option Shift → Type 0
IsNextShift now shifts none = (q : Shift) → In q shifts → q.start_time ≤ now
IsNextShift now shifts (some s) =
    In s shifts
    × (now < s.start_time)
    × ((q : Shift) → In q shifts → now < q.start_time → s.start_time ≤ q.start_time)

In-upcoming_cons :
    (now : ℕ) (s : Shift) (shifts : List Shift)
    → ((ltb now s.start_time ≡ true) × (upcoming now (s ∷ shifts) ≡ s ∷ upcoming now shifts))
      ⊎ ((ltb now s.start_time ≡ false) × (upcoming now (s ∷ shifts) ≡ upcoming now shifts))
In-upcoming_cons now s shifts = elim (Bool-cases (ltb now s.start_time)) [
  | inl h ↦ inl (h, rw h refl)
  | inr h ↦ inr (h, rw h refl)
]

keep_here :
    (now : ℕ) (s q : Shift) (shifts : List Shift)
    → now < s.start_time
    → (q ≡ s) ⊎ IsUpcoming now shifts q
    → IsUpcoming now (s ∷ shifts) q
keep_here now s q shifts h (inl e) = (inl e, omega (arith, h, start_of e))
keep_here now s q shifts h (inr (m, k)) = (inr m, k)

IsUpcoming-or_past :
    (now : ℕ) (s q : Shift) (shifts : List Shift)
    → IsUpcoming now (s ∷ shifts) q
    → ((q ≡ s) × (now < s.start_time)) ⊎ IsUpcoming now shifts q
IsUpcoming-or_past now s q shifts (inl e, k) = inl (e, omega (arith, k, start_of e))
IsUpcoming-or_past now s q shifts (inr m, k) = inr (m, k)

map_right : {A B C : Type 0} → (B → C) → A ⊎ B → A ⊎ C
map_right f (inl a) = inl a
map_right f (inr b) = inr (f b)

upcoming-IsUpcoming :
    (now : ℕ) (q : Shift) (shifts : List Shift)
    → In q (upcoming now shifts)
    → IsUpcoming now shifts q
upcoming-IsUpcoming now q [] m = absurd m
upcoming-IsUpcoming now q (s ∷ shifts) m = elim (In-upcoming_cons now s shifts) [
  | inl (h, e) ↦
      keep_here now s q shifts (ltb→lt now s.start_time h)
        (map_right (upcoming-IsUpcoming now q shifts) (subst (In q) e m))
  | inr (h, e) ↦ let (n, k) = upcoming-IsUpcoming now q shifts (subst (In q) e m) in (inr n, k)
]

not_past :
    (now : ℕ) (s q : Shift) (shifts : List Shift)
    → ltb now s.start_time ≡ false
    → now < q.start_time
    → In q (s ∷ shifts)
    → In q shifts
not_past now s q shifts h k (inl e) =
    let late : s.start_time ≤ now = ground (arith, h) in absurd (omega (arith, late, k, start_of e))
not_past now s q shifts h k (inr m) = m

IsUpcoming-upcoming :
    (now : ℕ) (q : Shift) (shifts : List Shift)
    → In q shifts
    → now < q.start_time
    → In q (upcoming now shifts)
IsUpcoming-upcoming now q [] m k = m
IsUpcoming-upcoming now q (s ∷ shifts) m k = elim (In-upcoming_cons now s shifts) [
  | inl (h, e) ↦ subst (In q) (sym e) (map_right (λ n. IsUpcoming-upcoming now q shifts n k) m)
  | inr (h, e) ↦
      subst (In q) (sym e) (IsUpcoming-upcoming now q shifts (not_past now s q shifts h k m) k)
]

next_of :
    (now : ℕ) (shifts later : List Shift)
    → upcoming now shifts ≡ later
    → IsNextShift now shifts (earliest_of later)
unfolding earliest_of
next_of now shifts [] e = λ q m. not_later q m
  where
    not_later : (q : Shift) → In q shifts → q.start_time ≤ now
    not_later q m = elim (Bool-cases (ltb now q.start_time)) [
      | inl h ↦
          absurd (subst (In q) e (IsUpcoming-upcoming now q shifts m (ltb→lt now q.start_time h)))
      | inr h ↦ ground (arith, h)
    ]
next_of now shifts (s ∷ later) e =
    let (m, least) = earliest-IsEarliest s later in
    let (n, k) =
      upcoming-IsUpcoming now (earliest s later) shifts (subst (In (earliest s later)) (sym e) m) in
    (n, k, λ q j l. least q (subst (In q) e (IsUpcoming-upcoming now q shifts j l)))

-- The next shift is one of the shifts that start after now, with no such shift starting earlier; and
-- there is none only if no shift starts after now.
pub get_next_shift-IsNextShift :
    (now : ℕ) (schedule : ShiftSchedule)
    → IsNextShift now schedule.shifts (get_next_shift now schedule)
unfolding get_next_shift
get_next_shift-IsNextShift now schedule = next_of now schedule.shifts _ refl
