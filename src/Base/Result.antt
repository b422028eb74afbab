-- ===== src/Base/Result.antt =====
-- What a Python call comes to: a value, or the exception that it raises.
use life_merge.Base.{
  ◌≡◌, refl, ap, ◌⊎◌, inl, inr, String, List, [], ◌∷◌, ◌++◌, Bool, true, false, if◌then◌else◌,
}

pub data Error : Type 0 where
  type_error attribute_error integrity_error multiple_results_found : Error
  value_error permission_error refresh_error : String → Error
  http_error : (status : String) (code : String) → Error

pub data Result {ℓ} (A : Type ℓ) : Type ℓ where
  ok : A → Result A
  raise : Error → Result A

infixl 5 ◌>>=◌
-- What follows a call, where the call returns.
abbrev pub ◌>>=◌ {ℓ κ} : {A : Type ℓ} {B : Type κ} → Result A → (A → Result B) → Result B
raise x >>= rest = raise x
ok v >>= rest = rest v

-- A loop that extends a list by what each round returns, and ends at the first exception.
abbrev pub collect {ℓ κ} :
    {A : Type ℓ} {B : Type κ} → (A → Result (List B)) → List A → Result (List B)
collect f [] = ok []
collect f (x ∷ xs) = f x >>= λ ys. collect f xs >>= λ zs. ok (ys ++ zs)

abbrev value_or {ℓ} : {A : Type ℓ} → A → Result A → A
value_or a (ok b) = b
value_or a (raise e) = a

pub ok_inj {ℓ} : {A : Type ℓ} {a b : A} → ok a ≡ ok b → a ≡ b
ok_inj {a = a} e = ap (value_or a) e

-- What a call that succeeds has gone through.
pub >>=-eq-ok {ℓ κ} :
    {A : Type ℓ} {B : Type κ} (call : Result A) (rest : A → Result B) {out : B}
    → (call >>= rest) ≡ ok out
    → (v : A) × (call ≡ ok v) × (rest v ≡ ok out)
>>=-eq-ok (raise x) rest h = cc
>>=-eq-ok (ok v) rest h = (v, refl, h)

pub Result-cases {ℓ} :
    {A : Type ℓ} (r : Result A) → ((a : A) × (r ≡ ok a)) ⊎ ((e : Error) × (r ≡ raise e))
Result-cases (ok a) = inl (a, refl)
Result-cases (raise e) = inr (e, refl)

-- What holds of the value, if there is one.
abbrev pub Ensures {ℓ κ} : {A : Type ℓ} → (A → Type κ) → Result A → Type κ
Ensures P (ok v) = P v
Ensures P (raise e) = Unit

pub Ensures-bind {ℓ κ μ ν} :
    {A : Type ℓ} {B : Type κ} (Q : A → Type μ) (P : B → Type ν) (call : Result A)
    (rest : A → Result B)
    → Ensures Q call
    → ((v : A) → Q v → Ensures P (rest v))
    → Ensures P (call >>= rest)
Ensures-bind Q P (ok v) rest h f = f v h
Ensures-bind Q P (raise e) rest h f = tt

-- The same, where nothing is known of the first call.
pub Ensures-then {ℓ κ ν} :
    {A : Type ℓ} {B : Type κ} (P : B → Type ν) (call : Result A) (rest : A → Result B)
    → ((v : A) → Ensures P (rest v))
    → Ensures P (call >>= rest)
Ensures-then P (ok v) rest f = f v
Ensures-then P (raise e) rest f = tt

pub Ensures-if {ℓ κ} :
    {A : Type ℓ} (P : A → Type κ) (test : Bool) (x y : Result A)
    → Ensures P x
    → Ensures P y
    → Ensures P (if test then x else y)
Ensures-if P true x y h k = h
Ensures-if P false x y h k = k

-- A call returns what it returns.
pub Ensures-self {ℓ} : {A : Type ℓ} (call : Result A) → Ensures (λ v. call ≡ ok v) call
Ensures-self (ok v) = refl
Ensures-self (raise e) = tt
