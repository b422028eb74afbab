-- ===== src/Planner/Schedule/Place.antt =====
-- One task and the windows: what the slot found by the loop over the windows is worth, in
-- `_schedule_tasks` of Backend/app/services/planner/components.py.
use life_merge.Base.{
  ℕ, ◌+◌, ◌≤◌, ◌<◌, ◌≡◌, refl, ◌⊎◌, inl, inr, true, false, Option, none, some, List, [], ◌∷◌, ◌++◌,
  ltb, arith, Bool-cases, any, All, All-map, any-false-All, All-any-false,
}
use life_merge.Planner.Model.{Window}
use life_merge.Planner.Schedule.{fits, remaining, keep, place}

-- Two intervals with no instant in common.
abbrev pub Apart : Window → Window → Type 0
Apart v w = (v.end_dt ≤ w.start_dt) ⊎ (w.end_dt ≤ v.start_dt)

abbrev pub AllApart : List Window → Type 0
AllApart [] = Unit
AllApart (w ∷ ws) = All (Apart w) ws × AllApart ws

-- `v` lies in `w`.
abbrev pub Inside : Window → Window → Type 0
Inside w v = (w.start_dt ≤ v.start_dt) × (v.end_dt ≤ w.end_dt)

-- The slot that starts at `start` and lasts for `length_of`.
abbrev pub span : ℕ → ℕ → Window
span start length_of = record { start_dt = start; end_dt = start + length_of }

-- What `place` finds, as a relation: the first window that fits is used up from its start.
pub data Placing (limit length_of : ℕ) : List Window → ℕ → List Window → Type 0 where
  here :
      {w : Window} {ws left : List Window} {start : ℕ}
      → fits limit length_of w ≡ true
      → start ≡ w.start_dt
      → left ≡ remaining (w.start_dt + length_of) w ++ ws
      → Placing limit length_of (w ∷ ws) start left
  there :
      {w : Window} {ws left : List Window} {start : ℕ}
      → fits limit length_of w ≡ false
      → Placing limit length_of ws start left
      → Placing limit length_of (w ∷ ws) start (w ∷ left)

abbrev pub Outcome : ℕ → ℕ → List Window → Option (ℕ × List Window) → Type 0
Outcome limit length_of ws none = any (fits limit length_of) ws ≡ false
Outcome limit length_of ws (some (start, left)) = Placing limit length_of ws start left

keep-Outcome :
    (limit length_of : ℕ) (w : Window) (ws : List Window) (r : Option (ℕ × List Window))
    → fits limit length_of w ≡ false
    → Outcome limit length_of ws r
    → Outcome limit length_of (w ∷ ws) (keep w r)
keep-Outcome limit length_of w ws none e h = rw e h
keep-Outcome limit length_of w ws (some (start, left)) e h = there e h

-- `place` finds a slot as described, and fails only if no window fits.
pub place-Outcome :
    (limit length_of : ℕ) (ws : List Window) → Outcome limit length_of ws (place limit length_of ws)
unfolding place
place-Outcome limit length_of [] = refl
place-Outcome limit length_of (w ∷ ws) = elim (Bool-cases (fits limit length_of w)) [
  | inl e ↦ rw e (here e refl refl)
  | inr e ↦ rw e (keep-Outcome limit length_of w ws _ e (place-Outcome limit length_of ws))
]

fits_bounds :
    (limit length_of : ℕ) (w : Window)
    → fits limit length_of w ≡ true
    → (w.start_dt < w.end_dt)
      × (w.start_dt + length_of ≤ w.end_dt)
      × (w.start_dt + length_of ≤ limit)
unfolding fits
fits_bounds limit length_of w h = ground arith

-- What a window keeps away from, its parts keep away from.
remaining-All :
    (P : Window → Type 0) (length_of : ℕ) (w : Window) (ws : List Window)
    → P (record { start_dt = w.start_dt + length_of; end_dt = w.end_dt })
    → All P ws
    → All P (remaining (w.start_dt + length_of) w ++ ws)
remaining-All P length_of w ws h k = elim (Bool-cases (ltb (w.start_dt + length_of) w.end_dt)) [
  | inl e ↦ rw e (h, k)
  | inr e ↦ rw e k
]

pub Apart-Inside : (u w v : Window) → Inside w v → Apart u w → Apart u v
Apart-Inside u w v i (inl h) = inl (omega arith)
Apart-Inside u w v i (inr h) = inr (omega arith)

Apart-sym : {v w : Window} → Apart v w → Apart w v
Apart-sym (inl h) = inr h
Apart-sym (inr h) = inl h

parts-Apart : (w v : Window) (ws : List Window) → Inside w v → All (Apart w) ws → All (Apart v) ws
parts-Apart w v ws i h =
    All-map (Apart w) (Apart v) (λ u a. Apart-sym (Apart-Inside u w v i (Apart-sym a))) ws h

module _ {limit length_of : ℕ} where
  pub Placing-in_time :
      {ws left : List Window} {start : ℕ}
      → Placing limit length_of ws start left
      → start + length_of ≤ limit
  Placing-in_time (here {w = w} f s l) = omega (arith, fits_bounds limit length_of w f)
  Placing-in_time (there f p) = Placing-in_time p

  -- A property that passes from a window to what lies in it passes to the slot and to the
  -- windows that are left.
  pub Placing-All :
      (P : Window → Type 0)
      → ((w v : Window) → Inside w v → P w → P v)
      → {ws left : List Window} {start : ℕ} → Placing limit length_of ws start left
      → All P ws
      → P (span start length_of) × All P left
  Placing-All P down (here {w = w} {ws = ws} f s l) h =
      let bounds = fits_bounds limit length_of w f in
      rw (s, l)
        (
          down w (span w.start_dt length_of) (omega arith) h.0,
          remaining-All P length_of w ws (down w _ (omega arith) h.0) h.1,
        )
  Placing-All P down (there f p) h =
      let (slot, rest) = Placing-All P down p h.1 in (slot, (h.0, rest))

  -- Windows that are apart stay so, and the slot is apart from those that are left.
  pub Placing-AllApart :
      {ws left : List Window} {start : ℕ}
      → Placing limit length_of ws start left
      → AllApart ws
      → AllApart left × All (Apart (span start length_of)) left
  Placing-AllApart (here {w = w} {ws = ws} f s l) h =
      let bounds = fits_bounds limit length_of w f in
      let slot = parts-Apart w (span w.start_dt length_of) ws (omega arith) h.0 in
      elim (Bool-cases (ltb (w.start_dt + length_of) w.end_dt)) [
        | inl e ↦
            rw (s, l, e) ((parts-Apart w _ ws (omega arith) h.0, h.1), (inl (omega arith), slot))
        | inr e ↦ rw (s, l, e) (h.1, slot)
      ]
  Placing-AllApart (there {w = w} f p) h =
      let (left, slot) = Placing-AllApart p h.1 in
      let (near, far) = Placing-All (Apart w) (Apart-Inside w) p h.0 in
      ((far, left), (Apart-sym near, slot))

fits-Inside :
    (limit length_of : ℕ) (w v : Window)
    → Inside w v
    → fits limit length_of w ≡ false
    → fits limit length_of v ≡ false
unfolding fits
fits-Inside limit length_of w v i h = ground arith

-- Where a task does not fit before another is placed, it does not fit after.
pub Placing-no_fit :
    {limit length_of : ℕ} (limit' length_of' : ℕ) {ws left : List Window} {start : ℕ}
    → Placing limit length_of ws start left
    → any (fits limit' length_of') ws ≡ false
    → any (fits limit' length_of') left ≡ false
Placing-no_fit limit' length_of' {ws} {left} p h =
    All-any-false _ left
      (Placing-All (λ w. fits limit' length_of' w ≡ false) (fits-Inside limit' length_of') p
        (any-false-All _ ws h)).1
