-- ===== src/Controller/Slices/Names.antt =====
-- The names of slices: their length, and what they tell apart.
use text.Mathlib.TextLemmas.{append_assoc, append-eq-nil_iff}
use clusterip_gw.Base.{
  take, text_length, text_length-append, ℕ, ◌-◌, ◌≤◌, zero, suc, String, ◌≡◌, ◌≢◌, inl, inr, ap,
  ◌∙◌, sym, leb, ◌<>◌, string_eq, Bool-cases, leb→le, arith,
}
use clusterip_gw.Controller.Slices.{joined_name, shortened, endpoint_slice_name}

text_length-take : (s : String) (n : ℕ) → text_length (take s n) ≤ n
unfolding text_length take
text_length-take s zero = omega arith
text_length-take String.[] (suc n) = omega arith
text_length-take (String.◌∷◌ c s) (suc n) = omega (arith, text_length-take s n)

module _ (digest : String → String) (short : (s : String) → text_length (digest s) ≤ 62) where
  dashed : (name : String) → text_length ("-" <> digest name) ≤ 63
  unfolding text_length
  dashed name = rw (text_length-append "-" (digest name)) (omega (arith, short name))

  shortened-length : (name : String) → text_length (shortened digest name) ≤ 63
  unfolding shortened
  shortened-length name = elim (Bool-cases (leb (text_length name) 63)) [
    | inl fits ↦ rw fits (leb→le _ _ fits)
    | inr long ↦ rw long (
        omega (
          arith,
          text_length-append (take name (63 - text_length ("-" <> digest name)))
              ("-" <> digest name),
          text_length-take name (63 - text_length ("-" <> digest name)),
          dashed name,
        ))
  ]

  -- The name of a slice fits a label of 63 characters, and a joined name that fits is used as it is.
  pub endpoint_slice_name-length :
      (g l : String)
      → (text_length (endpoint_slice_name digest g l) ≤ 63)
        × (text_length (joined_name g l) ≤ 63 → endpoint_slice_name digest g l ≡ joined_name g l)
  unfolding endpoint_slice_name shortened
  endpoint_slice_name-length g l = (shortened-length (joined_name g l), λ h. ground (arith, h))

joined_name-named : (g l : String) → l ≢ "" → joined_name g l ≡ g <> "-" <> l
unfolding joined_name
joined_name-named g l h = ground arith

append_nonempty : (s t : String) → s ≢ "" → (s <> t) ≢ ""
append_nonempty s t h empty = h (append-eq-nil_iff.0 empty).0

regrouped : (g x l : String) → (g <> "-" <> x) <> "-" <> l ≡ g <> "-" <> (x <> "-" <> l)
regrouped g x l =
    append_assoc g ("-" <> x) ("-" <> l) ∙ ap (λ t. g <> t) (append_assoc "-" x ("-" <> l))

-- Two listeners of different gateways have one slice name, whenever a dash can be moved from the one
-- gateway's name to the other's listener.
pub endpoint_slice_name-collides :
    (digest : String → String) (g x l : String)
    → x ≢ ""
    → l ≢ ""
    → endpoint_slice_name digest (g <> "-" <> x) l ≡ endpoint_slice_name digest g (x <> "-" <> l)
unfolding endpoint_slice_name
endpoint_slice_name-collides digest g x l hx hl = ap (shortened digest) (
    joined_name-named (g <> "-" <> x) l hl
    ∙ regrouped g x l
    ∙ sym (joined_name-named g (x <> "-" <> l) (append_nonempty x ("-" <> l) hx)))
