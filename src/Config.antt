-- ===== src/Config.antt =====
-- common/config.cpp: the configuration file of the daemon, `key = value` lines with `#` comments. Text
-- is a list of byte codes.
pub mod Bytes
pub mod RoundTrip
pub mod Layout
use ai_optimized_kernel_and.Prelude.{
  ℕ, ◌||◌, ◌&&◌, Bool, true, false, Option, none, some, List, [], ◌∷◌, ◌==◌, if◌then◌else◌,
}
use Bytes.{bytes_eq, is_nil}

-- std::getline until the end of the file; a last line without its newline counts.
abbrev cons_first : ℕ → List (List ℕ) → List (List ℕ)
cons_first c [] = (c ∷ []) ∷ []
cons_first c (l ∷ ls) = (c ∷ l) ∷ ls

unfoldable pub lines : List ℕ → List (List ℕ)
lines [] = []
lines (c ∷ cs) = let rest = lines cs in if c == b'\n' then [] ∷ rest else cons_first c rest

-- `line.erase(line.find('#'))`, where there is one
unfoldable pub strip_comment : List ℕ → List ℕ
strip_comment [] = []
strip_comment (c ∷ cs) = let rest = strip_comment cs in if c == b'#' then [] else c ∷ rest

-- the characters " \t\r\n"
unfoldable pub is_space : ℕ → Bool
is_space c = c == b' ' || c == 9 || c == 13 || c == 10

-- trim: from the first character that is no space to the last
unfoldable pub trim_start : List ℕ → List ℕ
trim_start [] = []
trim_start (c ∷ cs) = let rest = trim_start cs in if is_space c then rest else c ∷ cs

unfoldable pub trim_end : List ℕ → List ℕ
trim_end [] = []
trim_end (c ∷ cs) = let rest = trim_end cs in if is_space c && is_nil rest then [] else c ∷ rest

unfoldable pub trim : List ℕ → List ℕ
trim s = trim_end (trim_start s)

-- `line.find('=')` with the two substrings beside it
unfoldable pub split_eq : List ℕ → Option (List ℕ × List ℕ)
split_eq [] = none
split_eq (c ∷ cs) =
    let rest = split_eq cs in
    if c == b'=' then some ([], cs) else elim rest [ none ↦ none | some (k, v) ↦ some (c ∷ k, v) ]

-- One round of the loop of load: the binding of a line, if it has one.
unfoldable pub parse_line : List ℕ → Option (List ℕ × List ℕ)
parse_line line =
    let l = trim (strip_comment line) in
    if is_nil l then none else elim (split_eq l) [
      | none ↦ none
      | some (k, v) ↦ if is_nil (trim k) then none else some (trim k, trim v)
    ]

-- data_, of type std::map: each key once
abbrev pub Data : Type 0
Data = List (List ℕ × List ℕ)

-- `data_[key] = val`
unfoldable pub assign : List ℕ → List ℕ → Data → Data
assign k v [] = (k, v) ∷ []
assign k v ((j, w) ∷ m) =
    let rest = assign k v m in if bytes_eq j k then (j, v) ∷ m else (j, w) ∷ rest

-- `data_.find(key)`
unfoldable pub find : List ℕ → Data → Option (List ℕ)
find k [] = none
find k ((j, w) ∷ m) = let rest = find k m in if bytes_eq j k then some w else rest

abbrev pub assign_binding : Option (List ℕ × List ℕ) → Data → Data
assign_binding none m = m
assign_binding (some (k, v)) m = assign k v m

unfoldable pub load_lines : List (List ℕ) → Data → Data
load_lines [] m = m
load_lines (l ∷ ls) m = load_lines ls (assign_binding (parse_line l) m)

-- load, with the text of the file: `none` for a file that does not open, and for the error -1
unfoldable pub load : Option (List ℕ) → Data → Option Data
load none m = none
load (some text) m = some (load_lines (lines text) m)

-- get
unfoldable pub get : List ℕ → List ℕ → Data → List ℕ
get k def m = elim (find k m) [ none ↦ def | some v ↦ v ]

-- has
unfoldable pub has : List ℕ → Data → Bool
has k m = elim (find k m) [ none ↦ false | some v ↦ true ]
