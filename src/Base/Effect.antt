-- ===== src/Base/Effect.antt =====
-- Errors of the Kubernetes API, results, and calls that act on the world outside the process.
use Prim.Native.String.{String}
use mathlib.Core.Path.{◌≡◌, refl}
use mathlib.Core.Logic.{◌⊎◌, inl, inr}
use mathlib.Core.Bool.{Bool, true, false}

-- An error with its text, by what `apierrors` tells of it.
pub data Error : Type 0 where
  not_found already_exists other : String → Error

abbrev pub message : Error → String
message (not_found m) = m
message (already_exists m) = m
message (other m) = m

abbrev pub is_not_found : Error → Bool
is_not_found (not_found m) = true
is_not_found _ = false

abbrev pub is_already_exists : Error → Bool
is_already_exists (already_exists m) = true
is_already_exists _ = false

pub data Result {ℓ} (A : Type ℓ) : Type ℓ where
  ok : A → Result A
  err : Error → Result A

-- A call on the world `W`: its result, and the world after it.
abbrev pub M : Type 0 → Type 0 → Type 0
M W A = W → Result A × W

abbrev pub after : {W A B : Type 0} → Result A × W → (A → M W B) → Result B × W
after (ok a, w) f = f a w
after (err e, w) f = (err e, w)

infixl 5 ◌>>=◌ ◌>>◌
abbrev pub ◌>>=◌ : {W A B : Type 0} → M W A → (A → M W B) → M W B
◌>>=◌ m f w = after (m w) f

abbrev pub ◌>>◌ : {W B : Type 0} → M W (Unit {0}) → M W B → M W B
m >> k = m >>= λ _. k

abbrev pub return : {W A : Type 0} → A → M W A
return a w = (ok a, w)

abbrev pub throw : {W A : Type 0} → Error → M W A
throw e w = (err e, w)

-- A result that needs no call.
abbrev pub lift : {W A : Type 0} → Result A → M W A
lift r w = (r, w)

-- `if err != nil && apierrors.IsNotFound(err) { return nil }`
abbrev pub ignore_result : Result (Unit {0}) → Result (Unit {0})
ignore_result (ok u) = ok u
ignore_result (err (not_found m)) = ok tt
ignore_result (err e) = err e

abbrev pub ignore_not_found : {W : Type 0} → M W (Unit {0}) → M W (Unit {0})
ignore_not_found m w = let r = m w in (ignore_result r.0, r.1)

abbrev pub map_ok {ℓ κ} : {A : Type ℓ} {B : Type κ} → (A → B) → Result A → Result B
map_ok f (ok a) = ok (f a)
map_ok f (err e) = err e

pub map_ok-eq-ok {ℓ κ} :
    {A : Type ℓ} {B : Type κ} (f : A → B) (r : Result A) {b : B}
    → map_ok f r ≡ ok b
    → (a : A) × (r ≡ ok a) × (f a ≡ b)
map_ok-eq-ok f (ok a) h = (a, refl, cc)
map_ok-eq-ok f (err e) h = cc

pub ok-injective {ℓ} : {A : Type ℓ} {a b : A} → ok a ≡ ok b → a ≡ b
ok-injective h = cc

-- To split on a computed result and keep the equation.
pub Result-cases {ℓ} :
    {A : Type ℓ} (r : Result A) → ((a : A) × (r ≡ ok a)) ⊎ ((e : Error) × (r ≡ err e))
Result-cases (ok a) = inl (a, refl)
Result-cases (err e) = inr (e, refl)
