-- ===== src/Storage/FileNames.antt =====
-- src/storage/segment.cpp and src/storage/log.cpp: the names of a segment's files. A string is the list of
-- its characters.
pub mod RoundTrip
use log_engine.Prelude.{
  ℕ, zero, suc, ◌+◌, ◌-◌, ◌*◌, ◌/◌, ◌%◌, ◌^◌, Bool, false, not, ◌||◌, List, [], ◌∷◌, ◌++◌, ltb,
  ◌==◌, if◌then◌else◌, length, take, drop, replicate, write_at,
}
use log_engine.Base.Error.{invalid_argument, Result, ok, fail}
use log_engine.Io.Paths.{slash, same_path}

abbrev pub offset_digits : ℕ
offset_digits = 20

abbrev pub zero_digit : ℕ
zero_digit = 48

abbrev pub nine_digit : ℕ
nine_digit = 57

-- ".log"
abbrev pub log_suffix : List ℕ
log_suffix = 46 ∷ 108 ∷ 111 ∷ 103 ∷ []

-- ".index"
abbrev pub index_suffix : List ℕ
index_suffix = 46 ∷ 105 ∷ 110 ∷ 100 ∷ 101 ∷ 120 ∷ []

-- The loop of offset_to_name, with `i` positions to go.
unfoldable pub put_digits : ℕ → ℕ → List ℕ → List ℕ
put_digits zero v name = name
put_digits (suc i) v name =
    let rest = put_digits i (v / 10) (write_at name i ((zero_digit + v % 10) ∷ [])) in
    if ltb 0 v then rest else name

unfoldable pub offset_to_name : ℕ → List ℕ → List ℕ
offset_to_name offset suffix =
    put_digits offset_digits offset (replicate offset_digits zero_digit) ++ suffix

unfoldable pub log_name : ℕ → List ℕ
log_name base_offset = offset_to_name base_offset log_suffix

unfoldable pub index_name : ℕ → List ℕ
index_name base_offset = offset_to_name base_offset index_suffix

-- The loop of parse_log_name.
unfoldable pub parse_digits : List ℕ → ℕ → Result ℕ
parse_digits [] value = ok value
parse_digits (c ∷ cs) value =
    let rest = parse_digits cs ((value * 10 + (c - zero_digit)) % 2 ^ 64) in
    if ltb c zero_digit || ltb nine_digit c then fail invalid_argument else rest

unfoldable pub parse_log_name : List ℕ → Result ℕ
parse_log_name name =
    if not (length name == offset_digits + length log_suffix)
    then fail invalid_argument
    else if not (same_path (drop offset_digits name) log_suffix)
    then fail invalid_argument
    else parse_digits (take offset_digits name) 0

-- `path.back() != '/'`
abbrev pub needs_slash : List ℕ → Bool
needs_slash [] = false
needs_slash (c ∷ []) = not (c == slash)
needs_slash (c ∷ d ∷ p) = needs_slash (d ∷ p)

unfoldable pub join : List ℕ → List ℕ → List ℕ
join dir name = if needs_slash dir then dir ++ ((slash ∷ []) ++ name) else dir ++ name
