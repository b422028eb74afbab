-- ===== src/Base/Texts.antt =====
-- Equality of texts, and numbers that are written in strokes.
use Prim.Native.String.{count}
use Prim.Native.String
use life_merge.Base.{
  ℕ, zero, suc, ◌≡◌, ◌≢◌, refl, ap, ◌∙◌, inl, inr, true, false, String, str_eq, eq_iff, Bool-cases,
}

pub str_eq_refl : (s : String) → str_eq s s ≡ true
str_eq_refl s = (eq_iff s s).1 refl

-- The one valid row is revoked by its identifier.
pub str_eq-false : (s t : String) → s ≢ t → str_eq s t ≡ false
str_eq-false s t h = elim (Bool-cases (str_eq s t)) [
  | inl e ↦ absurd (h ((eq_iff s t).0 e))
  | inr e ↦ e
]

abbrev pub strokes : ℕ → String → String
strokes zero rest = rest
strokes (suc n) rest = String.◌∷◌ "i" (strokes n rest)

pub count-strokes : (n : ℕ) → count (strokes n String.[]) ≡ n
count-strokes zero = refl
count-strokes (suc n) = String.count.cons _ _ ∙ ap suc (count-strokes n)
