-- ===== src/Ebics/ReturnCodes/Lookup.antt =====
-- `RETURN_CODES` and `lookup` of painfree/ebics3/returncodes.py.
use painfree_ebics_middlewar.Prelude.{
  Text, text_eq, strip, is_empty, List, [], ◌∷◌, Option, none, some, or_else, if◌then◌else◌,
}
use painfree_ebics_middlewar.Ebics.ReturnCodes.Defs.{ReturnCode, Family, Disposition}
use painfree_ebics_middlewar.Ebics.ReturnCodes.Table.{table}

-- The dict comprehension over a table: a later row replaces an earlier one with the same code.
unfoldable pub find_code : List ReturnCode → Text → Option ReturnCode
find_code [] code = none
find_code (r ∷ rows) code =
    or_else (find_code rows code) (if text_eq r.code code then some r else none)

unfoldable pub unnamed : Text → ReturnCode
unnamed code = record {
  code = code;
  name = none;
  family = Family.unknown;
  disposition = Disposition.terminal;
}

abbrev known_or_unnamed : Option ReturnCode → Text → ReturnCode
known_or_unnamed none code = unnamed code
known_or_unnamed (some r) code = r

unfoldable pub lookup : Option Text → Option ReturnCode
lookup none = none
lookup (some code) =
    let code' = strip code in
    if is_empty code' then none else some (known_or_unnamed (find_code table code') code')
