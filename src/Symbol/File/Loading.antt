-- ===== src/Symbol/File/Loading.antt =====
-- The files that NewFileSymbology loads.
use bfxfixgw.Base.{String, ◌&&◌, List, [], ◌∷◌, Bool-cases, inl, inr, Option-cases}
use bfxfixgw.Base.Maps.{lookup, Distinct}
use bfxfixgw.Base.Maps.Entries.{Every-lookup, Every-assign, Distinct-assign}
use bfxfixgw.Base.Text.{lower_eq}
use bfxfixgw.Base.Text.Split.{split}
use bfxfixgw.Symbol.File.{
  FileSymbology, SymbolSet, or_new, new_file_symbology, set_line, parse_parts, is_header, parse,
  load,
}
use bfxfixgw.Symbol.File.Inverse.{IsValid}

or_new-Distinct :
    (f : FileSymbology) (k : String)
    → IsValid f
    → Distinct (or_new (lookup k f.counterparties)).symbols
or_new-Distinct f k v = elim (Option-cases (lookup k f.counterparties)) [
  | inl missing ↦ rw missing tt
  | inr (s, hit) ↦
      rw hit
        (Every-lookup (λ (e : String × SymbolSet). Distinct e.1.symbols) f.counterparties k s v hit)
]

set_line-IsValid : (l r : String) (f : FileSymbology) → IsValid f → IsValid (set_line l r f)
unfolding set_line
set_line-IsValid l r f v =
    let symbols = or_new (lookup f.counterparty f.counterparties) in
    let d = or_new-Distinct f f.counterparty v in
    let put = Every-assign (λ (e : String × SymbolSet). Distinct e.1.symbols) f.counterparty in
    elim (Bool-cases (lower_eq l "passthrough" && lower_eq r "true")) [
      | inl pass ↦ rw pass (put _ f.counterparties v d)
      | inr symbol ↦ rw symbol (put _ f.counterparties v (Distinct-assign l r symbols.symbols d))
    ]

parse_parts-IsValid :
    (parts : List String) (f : FileSymbology) → IsValid f → IsValid (parse_parts parts f)
parse_parts-IsValid [] f v = v
parse_parts-IsValid (l ∷ []) f v = v
parse_parts-IsValid (l ∷ r ∷ rest) f v = set_line-IsValid l r f v

parse-IsValid : (line : String) (f : FileSymbology) → IsValid f → IsValid (parse line f)
unfolding parse
parse-IsValid line f v = elim (Bool-cases (is_header line)) [
  | inl header ↦ rw header (parse_parts-IsValid (split b'=' line) _ v)
  | inr plain ↦ rw plain (parse_parts-IsValid (split b'=' line) f v)
]

load_from-IsValid : (lines : List String) (f : FileSymbology) → IsValid f → IsValid (load lines f)
unfolding load
load_from-IsValid [] f v = v
load_from-IsValid (line ∷ lines) f v =
    load_from-IsValid lines (parse line f) (parse-IsValid line f v)

-- Whatever the lines of the file are, no section of what is loaded has a symbol twice.
pub load-IsValid : (lines : List String) → IsValid (load lines new_file_symbology)
load-IsValid lines = load_from-IsValid lines new_file_symbology tt
