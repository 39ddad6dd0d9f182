-- ===== src/Mdr/Scheduling.antt =====
-- class ShiftSchedule of services/cobalt-mdr-ops/scheduling.py. An analyst is an object that shifts
-- and the pool share, so it is an address in a heap. Instants are microseconds.
pub mod Assignment
pub mod Loads
pub mod Shifts
mod Tests
use cobalto.Base.{
  ℕ, zero, suc, ◌+◌, ◌-◌, ◌*◌, String, Bool, true, false, ◌&&◌, ◌||◌, not, Option, none, some, List,
  [], ◌∷◌, ◌++◌, ltb, leb, nat_eq, string_eq, ◌==◌, DecEq, Discrete→DecEq, if◌then◌else◌, contains,
  filter, find, length,
}

pub data ShiftType : Type 0 where
  day evening night : ShiftType

pub record Analyst : Type 0 where
  pub id : String
  pub name : String
  pub email : String
  pub expertise : List String
  pub max_concurrent_cases : ℕ
  pub current_cases : ℕ

-- `Analyst.available`
abbrev pub available : Analyst → Bool
available a = ltb a.current_cases a.max_concurrent_cases

-- The address of an analyst, and what the addresses hold.
abbrev pub Ref : Type 0
Ref = ℕ

abbrev pub Heap : Type 0
Heap = Ref → Analyst

abbrev pub write : Ref → Analyst → Heap → Heap
write r a heap = λ s. if r == s then a else heap s

pub record Shift : Type 0 where
  pub id : ℕ
  pub analyst : Ref
  pub shift_type : ShiftType
  pub start_time : ℕ
  pub end_time : ℕ
  pub handover_notes : Option String

abbrev pub is_active : ℕ → Shift → Bool
is_active now shift = leb shift.start_time now && leb now shift.end_time

-- In microseconds.
unfoldable pub time_remaining : ℕ → Shift → ℕ
time_remaining now shift = if ltb shift.end_time now then 0 else shift.end_time - now

pub record ShiftSchedule : Type 0 where
  pub shifts : List Shift
  pub analysts : List Ref

abbrev pub new_schedule : ShiftSchedule
new_schedule = record { shifts = []; analysts = [] }

unfoldable pub add_analyst : Ref → ShiftSchedule → ShiftSchedule
add_analyst r schedule = record schedule { analysts = schedule.analysts ++ r ∷ [] }

unfoldable pub get_current_shift : ℕ → ShiftSchedule → Option Shift
get_current_shift now schedule = find (is_active now) schedule.shifts

-- `min` by the start: the first of the earliest.
unfoldable pub earliest : Shift → List Shift → Shift
earliest best [] = best
earliest best (s ∷ shifts) =
    let with_s = earliest s shifts in
    let without = earliest best shifts in
    if ltb s.start_time best.start_time then with_s else without

earliest_of : List Shift → Option Shift
unfolding earliest
earliest_of [] = none
earliest_of (s ∷ shifts) = some (earliest s shifts)

unfoldable pub get_next_shift : ℕ → ShiftSchedule → Option Shift
unfolding earliest_of
get_next_shift now schedule =
    earliest_of (filter (λ (s : Shift). ltb now s.start_time) schedule.shifts)

abbrev pub hour : ℕ
hour = 3600000000

abbrev duration_hours : ShiftType → ℕ
duration_hours day = 8
duration_hours evening = 8
duration_hours night = 8

-- The text `shift-<n>` is written as the number.
abbrev pub new_shift : ShiftSchedule → Ref → ShiftType → ℕ → Shift
new_shift schedule analyst shift_type start_time = record {
  id = length schedule.shifts + 1;
  analyst = analyst;
  shift_type = shift_type;
  start_time = start_time;
  end_time = start_time + duration_hours shift_type * hour;
  handover_notes = none;
}

unfoldable pub schedule_shift : Ref → ShiftType → ℕ → ShiftSchedule → ShiftSchedule × Shift
schedule_shift analyst shift_type start_time schedule =
    let shift = new_shift schedule analyst shift_type start_time in
    (record schedule { shifts = schedule.shifts ++ shift ∷ [] }, shift)

unfoldable pub note_first : ℕ → String → List Shift → List Shift
note_first shift_id notes [] = []
note_first shift_id notes (s ∷ shifts) =
    let rest = note_first shift_id notes shifts in
    if s.id == shift_id then record s { handover_notes = some notes } ∷ shifts else s ∷ rest

unfoldable pub add_handover_notes : ℕ → String → ShiftSchedule → ShiftSchedule
unfolding note_first
add_handover_notes shift_id notes schedule = record schedule {
  shifts = note_first shift_id notes schedule.shifts;
}

abbrev pub overlaps : ℕ → ℕ → Shift → Bool
overlaps start finish s = ltb s.start_time finish && ltb start s.end_time

unfoldable pub get_schedule_for_period : ℕ → ℕ → ShiftSchedule → List Shift
get_schedule_for_period start finish schedule = filter (overlaps start finish) schedule.shifts
