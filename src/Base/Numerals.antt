-- ===== src/Base/Numerals.antt =====
-- `strconv.ParseUint` and `strconv.Atoi` in base 10, on 64-bit machines.
use Prim.Native.Nat.{ℕ, zero, suc, ◌+◌, ◌-◌, ◌*◌, ◌/◌, ◌%◌, ◌<◌, ◌≤◌}
use Prim.Native.Char.{Char, code}
use Prim.Native.String.{String}
use Prim.Native.String.append
use mathlib.Core.Path.{◌≡◌, refl, ap, sym, ◌∙◌}
use mathlib.Core.Logic.{inl, inr}
use mathlib.Core.Bool.{Bool, true, false, ◌||◌}
use native.Mathlib.Omega.{arith}
use clusterip_gw.Base.Equality.{ltb, ◌==◌, Bool-cases, nat_eq, if◌then◌else◌}
use clusterip_gw.Base.Int.{ℤ, pos, negsuc}
use clusterip_gw.Base.Effect.{Result, ok, err, Error, other}
use clusterip_gw.Base.Text.{◌<>◌, digit, decimal_onto, decimal, quote}

pub data Numeral : Type 0 where
  numeral : ℕ → Numeral
  bad_syntax out_of_range : Numeral

-- The digits behind those that make `n`.
unfoldable pub read_digits : ℕ → ℕ → String → Numeral
read_digits max n String.[] = numeral n
read_digits max n (String.◌∷◌ c s) =
    let next = n * 10 + (code c - 48) in
    let rest = read_digits max next s in
    if ltb (code c) 48 || ltb 57 (code c)
    then bad_syntax
    else if ltb max next
    then out_of_range
    else rest

-- ParseUint, for numbers up to `max`.
unfoldable pub parse_uint : ℕ → String → Numeral
parse_uint max String.[] = bad_syntax
parse_uint max (String.◌∷◌ c s) = read_digits max 0 (String.◌∷◌ c s)

abbrev num_error : String → String → Error
num_error s what = other ("strconv.Atoi: parsing " <> quote s <> ": " <> what)

negated : ℕ → ℤ
negated zero = pos 0
negated (suc n) = negsuc n

signed : String → Bool → Numeral → Result ℤ
unfolding negated
signed s negative bad_syntax = err (num_error s "invalid syntax")
signed s negative out_of_range = err (num_error s "value out of range")
signed s true (numeral n) =
    if ltb 9223372036854775808 n then err (num_error s "value out of range") else ok (negated n)
signed s false (numeral n) =
    if ltb 9223372036854775807 n then err (num_error s "value out of range") else ok (pos n)

unfoldable pub atoi : String → Result ℤ
unfolding signed
atoi String.[] = err (num_error "" "invalid syntax")
atoi (String.◌∷◌ c s) =
    let max : ℕ = 18446744073709551615 in
    let whole = String.◌∷◌ c s in
    if code c == 45
    then signed whole true (parse_uint max s)
    else if code c == 43
    then signed whole false (parse_uint max s)
    else signed whole false (parse_uint max whole)

-- A digit is one character, of the code that Go expects.
pub digit-code :
    (d : ℕ) → d < 10 → (c : Char) × (digit d ≡ String.◌∷◌ c String.[]) × (code c ≡ 48 + d)
unfolding nat_eq
digit-code zero h = (_, refl, refl)
digit-code (suc zero) h = (_, refl, refl)
digit-code (suc (suc zero)) h = (_, refl, refl)
digit-code (suc (suc (suc zero))) h = (_, refl, refl)
digit-code (suc (suc (suc (suc zero)))) h = (_, refl, refl)
digit-code (suc (suc (suc (suc (suc zero))))) h = (_, refl, refl)
digit-code (suc (suc (suc (suc (suc (suc zero)))))) h = (_, refl, refl)
digit-code (suc (suc (suc (suc (suc (suc (suc zero))))))) h = (_, refl, refl)
digit-code (suc (suc (suc (suc (suc (suc (suc (suc zero)))))))) h = (_, refl, refl)
digit-code (suc (suc (suc (suc (suc (suc (suc (suc (suc zero))))))))) h = (_, refl, refl)
digit-code (suc (suc (suc (suc (suc (suc (suc (suc (suc (suc d)))))))))) h =
    absurd (omega (arith, h))

digit-append :
    (d : ℕ) (s : String) → d < 10 → (c : Char) × (digit d <> s ≡ String.◌∷◌ c s) × (code c ≡ 48 + d)
digit-append d s h =
    let (c, whole, value) = digit-code d h in
    (
      c,
      ap (λ t. t <> s) whole ∙ (append.cons c String.[] s ∙ ap (String.◌∷◌ c) (append.nil s)),
      value,
    )

read_char :
    (max n d m : ℕ) (c : Char) (s : String)
    → code c ≡ 48 + d
    → d < 10
    → m ≡ n * 10 + d
    → m ≤ max
    → read_digits max n (String.◌∷◌ c s) ≡ read_digits max m s
unfolding read_digits
read_char max n d m c s value small e fits =
    let step : n * 10 + (code c - 48) ≡ m = omega (arith, value, e) in
    rw step (ground (arith, value, small, fits))

read_digits-digit :
    (max n d m : ℕ) (s : String)
    → d < 10
    → m ≡ n * 10 + d
    → m ≤ max
    → read_digits max n (digit d <> s) ≡ read_digits max m s
read_digits-digit max n d m s small e fits =
    let (c, whole, value) = digit-append d s small in
    ap (read_digits max n) whole ∙ read_char max n d m c s value small e fits

read_digits-decimal_onto :
    (f max n : ℕ) (acc : String)
    → n < f
    → n ≤ max
    → read_digits max 0 (decimal_onto f n acc) ≡ read_digits max n acc
unfolding decimal_onto
read_digits-decimal_onto zero max n acc h fits = absurd (omega (arith, h))
read_digits-decimal_onto (suc f) max n acc h fits = elim (Bool-cases (ltb n 10)) [
  | inl e ↦ rw e (read_digits-digit max 0 n n acc (ground (arith, e)) (omega arith) fits)
  | inr e ↦ rw e (
      read_digits-decimal_onto f max (n / 10) (digit (n % 10) <> acc) (ground (arith, e, h))
        (omega (arith, fits))
      ∙ read_digits-digit max (n / 10) (n % 10) n acc (omega arith) (omega arith) fits)
]

decimal_onto-digit :
    (f n : ℕ) (acc : String)
    → n < f
    → (c : Char) × (s : String) × (decimal_onto f n acc ≡ String.◌∷◌ c s)
unfolding decimal_onto
decimal_onto-digit zero n acc h = absurd (omega (arith, h))
decimal_onto-digit (suc f) n acc h = elim (Bool-cases (ltb n 10)) [
  | inl e ↦ let (c, whole, value) = digit-append n acc (ground (arith, e)) in (c, acc, rw e whole)
  | inr e ↦
      let (c, s, whole) =
        decimal_onto-digit f (n / 10) (digit (n % 10) <> acc) (ground (arith, e, h)) in
      (c, s, rw e whole)
]

parse_uint-read :
    (max : ℕ) (c : Char) (s t : String)
    → t ≡ String.◌∷◌ c s
    → parse_uint max t ≡ read_digits max 0 t
unfolding parse_uint
parse_uint-read max c s t e = ap (parse_uint max) e ∙ ap (read_digits max 0) (sym e)

-- A number that fits is read back from its decimal form.
pub parse_uint-decimal : (max n : ℕ) → n ≤ max → parse_uint max (decimal n) ≡ numeral n
unfolding decimal read_digits
parse_uint-decimal max n fits =
    let (c, s, whole) = decimal_onto-digit (suc n) n "" (omega arith) in
    parse_uint-read max c s (decimal n) whole
    ∙ read_digits-decimal_onto (suc n) max n "" (omega arith) fits
