-- ===== src/Planner/Windows/Days.antt =====
-- The windows of the work schedule, at a single instant, before breaks and events are taken out
-- (Backend/app/services/planner/components.py).
use life_merge.Base.{
  ℕ, zero, suc, ◌+◌, ◌-◌, ◌*◌, ◌/◌, ◌%◌, ◌≤◌, ◌≡◌, ap, fun_ext, ◌∙◌, sym, inl, inr, Bool, false,
  not, ◌&&◌, Option, none, some, List, [], ◌∷◌, arith, ltb, leb, ◌==◌, any, any-append,
  any-flat_map, flat_map, select, is_some_eq, Bool-cases, Option-cases, leb→le, subst, All,
  All-select, All-flat_map,
}
use life_merge.Planner.Time.{combine, day_micros}
use life_merge.Planner.Model.{Entry, Preferences, Window, holds, covers}
use life_merge.Planner.Windows.{entry_window, no_plan, day_windows, week}

-- A time of day is below a day: what Python's `time` guarantees of an entry's end.
abbrev pub EndsInDay : Entry → Type 0
EndsInDay e = (x : ℕ) → e.end_time ≡ some x → x ≤ day_micros

-- The time of day `tod` lies in the entry's hours.
pub in_entry : ℕ → Entry → Bool
in_entry tod e = elim e.start_time [
  | none ↦ false
  | some s ↦ elim e.end_time [ none ↦ false | some x ↦ leb s tod && ltb tod x ]
]

holds-combine :
    (t day s x : ℕ)
    → x ≤ day_micros
    → holds t (record { start_dt = combine day s; end_dt = combine day x })
      ≡ ((day == t / day_micros) && (leb s (t % day_micros) && ltb (t % day_micros) x))
holds-combine t day s x h = ground arith

covers-entry_window :
    (t day : ℕ) (e : Entry)
    → EndsInDay e
    → covers t (entry_window day e) ≡ ((day == t / day_micros) && in_entry (t % day_micros) e)
unfolding entry_window in_entry
covers-entry_window t day e h = elim (Option-cases e.start_time) [
  | inl p ↦ rw (p, entry_window, in_entry) (ground arith)
  | inr (s, p) ↦ elim (Option-cases e.end_time) [
    | inl q ↦ rw (p, q, entry_window, in_entry) (ground arith)
    | inr (x, q) ↦
        rw (p, q, entry_window, in_entry) (ground (arith, holds-combine t day s x (h x q)))
  ]
]

-- The entries of one day of the week.
covers_entries :
    (t day d : ℕ) (es : List Entry)
    → All EndsInDay es
    → covers t (flat_map (entry_window day) (select (λ e. is_some_eq e.day_of_week d) es)) ≡ (
        (day == t / day_micros)
        && any (λ e. is_some_eq e.day_of_week d && in_entry (t % day_micros) e) es)
covers_entries t day d [] h = ground arith
covers_entries t day d (e ∷ es) h = elim (Bool-cases (is_some_eq e.day_of_week d)) [
  | inl p ↦ rw p (
      ground (
        arith,
        any-append (holds t) (entry_window day e)
            (flat_map (entry_window day) (select (λ e'. is_some_eq e'.day_of_week d) es)),
        covers-entry_window t day e h.0,
        covers_entries t day d es h.1,
      ))
  | inr p ↦ rw p (covers_entries t day d es h.1)
]

-- What the schedule and the days without planning say of the day `d` of the week.
pub is_scheduled : List Entry → Option Preferences → ℕ → ℕ → Bool
is_scheduled schedule preferences tod d =
    not (no_plan preferences d) && any (λ e. is_some_eq e.day_of_week d && in_entry tod e) schedule

covers-day_windows :
    (t start_date : ℕ) (schedule : List Entry) (preferences : Option Preferences) (d : ℕ)
    → All EndsInDay schedule
    → covers t (day_windows start_date schedule preferences d)
      ≡ ((start_date + d == t / day_micros) && is_scheduled schedule preferences (t % day_micros) d)
unfolding day_windows is_scheduled
covers-day_windows t start_date schedule preferences d h =
    elim (Bool-cases (no_plan preferences d)) [
      | inl p ↦ rw (p, day_windows) (ground arith)
      | inr p ↦ rw (p, day_windows) (covers_entries t (start_date + d) d schedule h)
    ]

==-add : (a b c : ℕ) → (a + b == a + c) ≡ (b == c)
==-add a b c = ground arith

any-week_at : (k : ℕ) (f : ℕ → Bool) → any (λ d. (d == k) && f d) week ≡ (ltb k 7 && f k)
any-week_at zero f = ground arith
any-week_at (suc zero) f = ground arith
any-week_at (suc (suc zero)) f = ground arith
any-week_at (suc (suc (suc zero))) f = ground arith
any-week_at (suc (suc (suc (suc zero)))) f = ground arith
any-week_at (suc (suc (suc (suc (suc zero))))) f = ground arith
any-week_at (suc (suc (suc (suc (suc (suc zero)))))) f = ground arith
any-week_at (suc (suc (suc (suc (suc (suc (suc k))))))) f = ground arith

any-week :
    (start day : ℕ) (f : ℕ → Bool)
    → any (λ d. (start + d == day) && f d) week
      ≡ (leb start day && (ltb (day - start) 7 && f (day - start)))
any-week start day f = elim (Bool-cases (leb start day)) [
  | inr e ↦ rw e (ground arith)
  | inl e ↦
      let k : ℕ = day - start in
      let split : day ≡ start + k = omega (arith, leb→le start day e) in
      rw e (
        subst (λ n. any (λ d. (start + d == n) && f d) week ≡ (ltb k 7 && f k)) (sym split)
          (simp ==-add (any-week_at k f)))
]

-- A window that ends on the date on which it starts, or at the midnight after it.
abbrev pub EndsOnDate : Window → Type 0
EndsOnDate w = w.end_dt ≤ (w.start_dt / day_micros + 1) * day_micros

entry_window-EndsOnDate : (day : ℕ) (e : Entry) → EndsInDay e → All EndsOnDate (entry_window day e)
unfolding entry_window
entry_window-EndsOnDate day e h = elim (Option-cases e.start_time) [
  | inl p ↦ rw (p, entry_window) tt
  | inr (s, p) ↦ elim (Option-cases e.end_time) [
    | inl q ↦ rw (p, q, entry_window) tt
    | inr (x, q) ↦ rw (p, q, entry_window) (let fits = h x q in (omega arith, tt))
  ]
]

day_windows-EndsOnDate :
    (start_date : ℕ) (schedule : List Entry) (preferences : Option Preferences) (d : ℕ)
    → All EndsInDay schedule
    → All EndsOnDate (day_windows start_date schedule preferences d)
unfolding day_windows
day_windows-EndsOnDate start_date schedule preferences d h =
    elim (Bool-cases (no_plan preferences d)) [
      | inl p ↦ rw (p, day_windows) tt
      | inr p ↦
          rw (p, day_windows)
            (All-flat_map EndsInDay EndsOnDate (entry_window (start_date + d))
              (entry_window-EndsOnDate (start_date + d)) _
              (All-select EndsInDay (λ e. is_some_eq e.day_of_week d) schedule h))
    ]

pub covers-week :
    (t start_date : ℕ) (schedule : List Entry) (preferences : Option Preferences)
    → All EndsInDay schedule
    → covers t (flat_map (day_windows start_date schedule preferences) week) ≡ (
        leb start_date (t / day_micros)
        && (ltb (t / day_micros - start_date) 7
            && is_scheduled schedule preferences (t % day_micros) (t / day_micros - start_date)))
covers-week t start_date schedule preferences h =
    any-flat_map (holds t) (day_windows start_date schedule preferences) week
    ∙ ap (λ f. any f week) (fun_ext (λ d. covers-day_windows t start_date schedule preferences d h))
    ∙ any-week start_date (t / day_micros) (is_scheduled schedule preferences (t % day_micros))

pub week-EndsOnDate :
    (start_date : ℕ) (schedule : List Entry) (preferences : Option Preferences)
    → All EndsInDay schedule
    → All EndsOnDate (flat_map (day_windows start_date schedule preferences) week)
week-EndsOnDate start_date schedule preferences h =
    All-flat_map (λ _. Unit {0}) EndsOnDate (day_windows start_date schedule preferences)
      (λ d _. day_windows-EndsOnDate start_date schedule preferences d h) week
      (tt, (tt, (tt, (tt, (tt, (tt, (tt, tt)))))))
