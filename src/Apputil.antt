-- ===== src/Apputil.antt =====
-- internal/apputil/network.go: the addresses that the commands accept. `parse_ip` is `net.ParseIP`, with
-- what `To4` makes of its result; net.SplitHostPort is written out.
pub mod Listen
use Prim.Native.Char.{code}
use clusterip_gw.Base.{
  ℕ, zero, suc, ◌-◌, String, Bool, true, false, not, Option, none, some, ◌==◌, ◌||◌, string_eq,
  nat_eq, if◌then◌else◌, take, drop, text_length, ◌<>◌, Numeral, numeral, bad_syntax, out_of_range,
  parse_uint, Result, ok, err, other,
}
use clusterip_gw.Net.{Ipv4}

moved : Option ℕ → Option ℕ
moved none = none
moved (some i) = some (suc i)

-- `bytealg.IndexByteString`, by the code of the character.
unfoldable pub index_of : ℕ → String → Option ℕ
unfolding moved
index_of k String.[] = none
index_of k (String.◌∷◌ c s) =
    let later = index_of k s in if code c == k then some 0 else moved later

last_or : Bool → Option ℕ → Option ℕ
last_or here (some i) = some (suc i)
last_or here none = if here then some 0 else none

-- `bytealg.LastIndexByteString`
unfoldable pub last_index_of : ℕ → String → Option ℕ
unfolding last_or
last_index_of k String.[] = none
last_index_of k (String.◌∷◌ c s) = last_or (code c == k) (last_index_of k s)

unfoldable pub holds : ℕ → String → Bool
holds k String.[] = false
holds k (String.◌∷◌ c s) = let later = holds k s in code c == k || later

unfoldable pub starts_with : ℕ → String → Bool
starts_with k String.[] = false
starts_with k (String.◌∷◌ c s) = code c == k

address_error : String → String → Result (String × String)
address_error address why = err (other ("address " <> address <> ": " <> why))

-- The brackets are looked for behind the places `j` and `k`.
checked : String → ℕ → ℕ → String → String → Result (String × String)
unfolding address_error
checked s j k host port =
    if holds 91 (drop s j)
    then address_error s "unexpected '[' in address"
    else if holds 93 (drop s k)
    then address_error s "unexpected ']' in address"
    else ok (host, port)

in_brackets : String → ℕ → Option ℕ → Result (String × String)
unfolding address_error checked
in_brackets s i none = address_error s "missing ']' in address"
in_brackets s i (some end) =
    if suc end == text_length s
    then address_error s "missing port in address"
    else if suc end == i
    then checked s 1 (suc end) (take (drop s 1) (end - 1)) (drop s (suc i))
    else if starts_with 58 (drop s (suc end))
    then address_error s "too many colons in address"
    else address_error s "missing port in address"

unfoldable pub split_at : String → Option ℕ → Result (String × String)
unfolding address_error checked in_brackets
split_at s none = address_error s "missing port in address"
split_at s (some i) =
    if starts_with 91 s
    then in_brackets s i (index_of 93 s)
    else if holds 58 (take s i)
    then address_error s "too many colons in address"
    else checked s 0 0 (take s i) (drop s (suc i))

-- net.SplitHostPort: the port is behind the last colon.
unfoldable pub split_host_port : String → Result (String × String)
split_host_port s = split_at s (last_index_of 58 s)

unfoldable pub is_numeral : Numeral → Bool
is_numeral (numeral n) = true
is_numeral bad_syntax = false
is_numeral out_of_range = false

module _ (parse_ip : String → Option (Option Ipv4)) where
  unfoldable pub only_ipv4 : String → Option (Option Ipv4) → Result (Unit {0})
  only_ipv4 what none = err (other (what <> "must be an IP address"))
  only_ipv4 what (some none) = err (other "only IPv4 is supported in this scaffold")
  only_ipv4 what (some (some ip)) = ok tt

  unfoldable pub validate_ipv4_host : String → Bool → Result (Unit {0})
  unfolding only_ipv4
  validate_ipv4_host host allow_empty =
      if host == ""
      then if allow_empty then ok tt else err (other "must not be empty")
      else only_ipv4 "" (parse_ip host)

  unfoldable pub validate_parts : Result (String × String) → Result (Unit {0})
  unfolding only_ipv4
  validate_parts (err e) = err e
  validate_parts (ok (host, port)) =
      if host == ""
      then err (other "host must not be empty")
      else if port == ""
      then err (other "port must not be empty")
      else if not (is_numeral (parse_uint 65535 port))
      then err (other "port must be a valid integer between 0 and 65535")
      else if host == "::" || host == "[::]"
      then err (other "only IPv4 is supported in this scaffold")
      else only_ipv4 "host " (parse_ip host)

  unfoldable pub validate_ipv4_host_port : String → Result (Unit {0})
  validate_ipv4_host_port addr = validate_parts (split_host_port addr)
