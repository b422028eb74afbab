-- ===== src/Planner/Windows/Subtract.antt =====
-- What `_subtract_interval` leaves of the windows, at a single instant, and its use for breaks and
-- events (Backend/app/services/planner/components.py).
use life_merge.Base.{ℕ, ◌≡◌, refl, not, ◌&&◌, List, [], ◌∷◌, arith, any, any-append, flat_map}
use life_merge.Planner.Time.{combine}
use life_merge.Planner.Model.{Break, Window, holds, covers}
use life_merge.Planner.Windows.{subtract_one, subtract_interval, subtract_breaks, without_events}

covers-subtract_one :
    (t bs be : ℕ) (w : Window)
    → covers t (subtract_one bs be w)
      ≡ (holds t w && not (holds t (record { start_dt = bs; end_dt = be })))
unfolding subtract_one
covers-subtract_one t bs be w = ground arith

-- Taking a block out of a list of windows takes away exactly the instants of the block, also
-- where windows overlap and where the block is empty or reversed.
pub covers-subtract_interval :
    (t bs be : ℕ) (ws : List Window)
    → covers t (subtract_interval ws bs be)
      ≡ (covers t ws && not (holds t (record { start_dt = bs; end_dt = be })))
unfolding subtract_interval
covers-subtract_interval t bs be [] = refl
covers-subtract_interval t bs be (w ∷ ws) = ground (
  arith,
  any-append (holds t) (subtract_one bs be w) (flat_map (subtract_one bs be) ws),
  covers-subtract_one t bs be w,
  covers-subtract_interval t bs be ws,
)

-- The break `br` on the date `day`.
abbrev pub break_on : ℕ → Break → Window
break_on day br = record { start_dt = combine day br.start_time; end_dt = combine day br.end_time }

pub covers-subtract_breaks :
    (t day : ℕ) (brs : List Break) (ws : List Window)
    → covers t (subtract_breaks day brs ws)
      ≡ (covers t ws && not (any (λ br. holds t (break_on day br)) brs))
unfolding subtract_breaks
covers-subtract_breaks t day [] ws = ground arith
covers-subtract_breaks t day (br ∷ brs) ws = ground (
  arith,
  covers-subtract_breaks t day brs
      (subtract_interval ws (combine day br.start_time) (combine day br.end_time)),
  covers-subtract_interval t (combine day br.start_time) (combine day br.end_time) ws,
)

pub covers-without_events :
    (t : ℕ) (es ws : List Window)
    → covers t (without_events es ws) ≡ (covers t ws && not (covers t es))
unfolding without_events
covers-without_events t [] ws = ground arith
covers-without_events t (e ∷ es) ws = ground (
  arith,
  covers-without_events t es (subtract_interval ws e.start_dt e.end_dt),
  covers-subtract_interval t e.start_dt e.end_dt ws,
)
