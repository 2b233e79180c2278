-- ===== src/Base/Text.antt =====
-- Go's `<` on strings, which is lexicographic, and numbers in decimal.
use Prim.Native.Nat.{ℕ, zero, suc, ◌+◌, ◌/◌, ◌%◌}
use Prim.Native.String.append
use Prim.Native.Char.{code}
use Prim.Native.String.{String, ◌++◌ as join}
use mathlib.Core.List.{List, [], ◌∷◌}
use mathlib.Core.Logic.{inl, inr}
use mathlib.Core.Path.{ap, ◌≡◌, refl, ap₂}
use mathlib.Core.Bool.{Bool, true, false, ◌||◌}
use native.Mathlib.Omega.{arith}
use text.Mathlib.TextEquality.{Char-path}
use clusterip_gw.Base.Equality.{ltb, ◌==◌, nat_eq, string_eq, Bool-cases, if◌then◌else◌}
use clusterip_gw.Base.Int.{ℤ, pos, negsuc}

-- String concatenation, Go's `+`.
infixr 65 ◌<>◌
abbrev pub ◌<>◌ : String → String → String
s <> t = join s t

pub str_lt : String → String → Bool
str_lt String.[] String.[] = false
str_lt String.[] (String.◌∷◌ d t) = true
str_lt (String.◌∷◌ c s) String.[] = false
str_lt (String.◌∷◌ c s) (String.◌∷◌ d t) =
    let rest = str_lt s t in if code c == code d then rest else ltb (code c) (code d)

pub str_lt_irrefl : (s : String) → str_lt s s ≡ false
unfolding str_lt
str_lt_irrefl String.[] = refl
str_lt_irrefl (String.◌∷◌ c s) = ground (arith, str_lt_irrefl s)

pub str_lt_asym : (s t : String) → str_lt s t ≡ true → str_lt t s ≡ false
unfolding str_lt
str_lt_asym String.[] String.[] h = refl
str_lt_asym String.[] (String.◌∷◌ d t) h = refl
str_lt_asym (String.◌∷◌ c s) String.[] h = cc
str_lt_asym (String.◌∷◌ c s) (String.◌∷◌ d t) h = ground (arith, str_lt_asym s t)

-- `≤` is transitive.
pub str_lt_trans : (s t u : String) → str_lt t s ≡ false → str_lt u t ≡ false → str_lt u s ≡ false
unfolding str_lt
str_lt_trans String.[] t String.[] h k = refl
str_lt_trans String.[] String.[] (String.◌∷◌ e u) h k = refl
str_lt_trans String.[] (String.◌∷◌ d t) (String.◌∷◌ e u) h k = refl
str_lt_trans (String.◌∷◌ c s) String.[] u h k = cc
str_lt_trans (String.◌∷◌ c s) (String.◌∷◌ d t) String.[] h k = cc
str_lt_trans (String.◌∷◌ c s) (String.◌∷◌ d t) (String.◌∷◌ e u) h k =
    ground (arith, str_lt_trans s t u)

-- Strings of which neither is less are the same.
pub str_lt_total : (s t : String) → str_lt s t ≡ false → str_lt t s ≡ false → s ≡ t
unfolding str_lt
str_lt_total String.[] String.[] h k = refl
str_lt_total String.[] (String.◌∷◌ d t) h k = cc
str_lt_total (String.◌∷◌ c s) String.[] h k = cc
str_lt_total (String.◌∷◌ c s) (String.◌∷◌ d t) h k =
    ap₂ String.◌∷◌ (Char-path c d (ground arith)) (str_lt_total s t (ground arith) (ground arith))

abbrev pub digit : ℕ → String
digit d =
    if d == 0
    then "0"
    else if d == 1
    then "1"
    else if d == 2
    then "2"
    else if d == 3
    then "3"
    else if d == 4
    then "4"
    else if d == 5
    then "5"
    else if d == 6
    then "6"
    else if d == 7
    then "7"
    else if d == 8
    then "8"
    else "9"

-- The last argument collects the digits behind those still to come.
unfoldable pub decimal_onto : ℕ → ℕ → String → String
decimal_onto zero n acc = acc
decimal_onto (suc f) n acc =
    let rest = decimal_onto f (n / 10) (digit (n % 10) <> acc) in
    if ltb n 10 then digit n <> acc else rest

-- `%d` of a number that is not negative.
unfoldable pub decimal : ℕ → String
unfolding decimal_onto
decimal n = decimal_onto (suc n) n ""

-- `%q`: in double quotes, which are escaped inside, as backslashes are. The escapes of control
-- characters are left out: no Kubernetes name holds any.
escape : String → String
escape String.[] = ""
escape (String.◌∷◌ c s) =
    let here = String.◌∷◌ c String.[] in
    (if code c == 34 || code c == 92 then "\\" <> here else here) <> escape s

unfoldable pub quote : String → String
unfolding escape
quote s = "\"" <> escape s <> "\""

-- `%d` of a signed number.
unfoldable pub decimal_int : ℤ → String
decimal_int (pos n) = decimal n
decimal_int (negsuc n) = "-" <> decimal (suc n)

-- The number of characters: the names that the program measures are ASCII, so that a byte is a
-- character.
unfoldable pub text_length : String → ℕ
text_length String.[] = 0
text_length (String.◌∷◌ c s) = suc (text_length s)

pub text_length-append : (s t : String) → text_length (s <> t) ≡ text_length s + text_length t
unfolding text_length
text_length-append String.[] t = rw (append.nil t) (omega arith)
text_length-append (String.◌∷◌ c s) t =
    rw (append.cons c s t) (omega (arith, text_length-append s t))

-- `s[n:]`
unfoldable pub drop : String → ℕ → String
drop s zero = s
drop String.[] (suc n) = String.[]
drop (String.◌∷◌ c s) (suc n) = drop s n

-- The text of the first `n` characters.
unfoldable pub take : String → ℕ → String
take s zero = String.[]
take String.[] (suc n) = String.[]
take (String.◌∷◌ c s) (suc n) = String.◌∷◌ c (take s n)

-- `strings.TrimSuffix`
unfoldable pub trim_suffix : String → String → String
trim_suffix String.[] suffix = ""
trim_suffix (String.◌∷◌ c s) suffix =
    let rest = trim_suffix s suffix in if String.◌∷◌ c s == suffix then "" else String.◌∷◌ c rest

-- `strings.ToLower` on ASCII.
letters : List (String × String)
letters =
    ("A", "a")
    ∷ ("B", "b")
    ∷ ("C", "c")
    ∷ ("D", "d")
    ∷ ("E", "e")
    ∷ ("F", "f")
    ∷ ("G", "g")
    ∷ ("H", "h")
    ∷ ("I", "i")
    ∷ ("J", "j")
    ∷ ("K", "k")
    ∷ ("L", "l")
    ∷ ("M", "m")
    ∷ ("N", "n")
    ∷ ("O", "o")
    ∷ ("P", "p")
    ∷ ("Q", "q")
    ∷ ("R", "r")
    ∷ ("S", "s")
    ∷ ("T", "t")
    ∷ ("U", "u")
    ∷ ("V", "v")
    ∷ ("W", "w")
    ∷ ("X", "x")
    ∷ ("Y", "y")
    ∷ ("Z", "z")
    ∷ []

lowered : List (String × String) → String → String
lowered [] c = c
lowered ((upper, lower) ∷ rest) c =
    let later = lowered rest c in if upper == c then lower else later

unfoldable pub to_lower : String → String
unfolding letters lowered
to_lower String.[] = ""
to_lower (String.◌∷◌ c s) = lowered letters (String.◌∷◌ c String.[]) <> to_lower s

trim_suffix_self : (t : String) → trim_suffix t t ≡ ""
unfolding trim_suffix
trim_suffix_self String.[] = refl
trim_suffix_self (String.◌∷◌ c t) = ground arith

pub trim_suffix-append : (s t : String) → trim_suffix (s <> t) t ≡ s
unfolding trim_suffix text_length
trim_suffix-append String.[] t = rw (append.nil t) (trim_suffix_self t)
trim_suffix-append (String.◌∷◌ c s) t =
    rw (append.cons c s t) (elim (Bool-cases (String.◌∷◌ c (s <> t) == t)) [
      | inl e ↦
          let same : String.◌∷◌ c (s <> t) ≡ t = ground (arith, e) in
          let long : suc (text_length (s <> t)) ≡ text_length t = ap text_length same in
          absurd (omega (arith, long, text_length-append s t))
      | inr e ↦ rw (e, trim_suffix-append s t) refl
    ])
