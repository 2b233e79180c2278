-- ===== src/Tests/Config.antt =====
-- A configuration of the DNS plugin: its lines, of which the first names the zone.
use clusterip_gw.Base.{
  read_digits, parse_uint, atoi, ◌≤◌, ◌<◌, String, Bool, true, false, none, List, [], ◌∷◌, ◌≡◌,
  refl, length, Error, other, nat_eq, string_eq, arith,
}
use clusterip_gw.Dns.{new_handler}
use clusterip_gw.Dns.Setup.{Dispenser, read, parse}
use clusterip_gw.Dns.Setup.Bounds.{DispenserLaws, Ends, parse-Ends}
use clusterip_gw.Tests.Zone.{zone_lib}

-- What is left of the current line, and the lines behind it.
abbrev Lines : Type 0
Lines = List String × List (List String)

next_line : Lines → Bool × Lines
next_line (line, []) = (false, (line, []))
next_line (line, l ∷ rest) = (true, (l, rest))

arguments : Lines → List String × Lines
arguments ([], rest) = ([], ([], rest))
arguments (name ∷ args, rest) = (args, ([], rest))

first_word : Lines → String
first_word ([], rest) = ""
first_word (name ∷ args, rest) = name

abbrev lines : Dispenser Lines
lines = record {
  next = next_line;
  next_block = next_line;
  remaining_args = arguments;
  val = first_word;
  arg_err = λ c. other "wrong argument count";
  errf = λ c text. other text;
}

next_line-less : (c : Lines) → (next_line c).0 ≡ true → length (next_line c).1.1 < length c.1
unfolding next_line
next_line-less (line, []) h = absurd cc
next_line-less (line, l ∷ rest) h = omega arith

next_line-le : (c : Lines) → length (next_line c).1.1 ≤ length c.1
unfolding next_line
next_line-le (line, []) = omega arith
next_line-le (line, l ∷ rest) = omega arith

arguments-le : (c : Lines) → length (arguments c).1.1 ≤ length c.1
unfolding arguments
arguments-le ([], rest) = omega arith
arguments-le (name ∷ args, rest) = omega arith

abbrev lines-laws : DispenserLaws lines
lines-laws = record {
  left = λ c. length c.1;
  next_block-less = next_line-less;
  next_block-le = next_line-le;
  remaining_args-le = arguments-le;
  next-le = next_line-le;
}

abbrev config : Lines
config = ([], ("k8s_clusterip_gw" ∷ "gw.example.org." ∷ []) ∷ ("ttl" ∷ "60" ∷ []) ∷ [])

abbrev once_only : Error
once_only = other "this plugin can only be used once per Server Block"

config_read :
    parse zone_lib once_only lines 3 config
    ≡ read (record { zones = "gw.example.org." ∷ []; ttl = 60; store = none }) ([], [])
unfolding parse next_line arguments string_eq first_word atoi nat_eq parse_uint read_digits
    new_handler
config_read = refl

parse-Ends_example :
    Ends zone_lib once_only lines lines-laws 2 (parse zone_lib once_only lines 3 config)
parse-Ends_example = parse-Ends zone_lib once_only lines lines-laws 3 config (omega arith)
