-- ===== src/Migrations/Statements.antt =====
-- python/apexquant-migrations/src/apexquant-migrations/clickhouse.py
-- split_sql: a script as the list of its statements.
use lord_hermes.Common.{
  ℕ, Bool, true, false, ◌||◌, ◌&&◌, List, [], ◌∷◌, ◌++◌, ◌==◌, nat_eq, leb, contains, if◌then◌else◌,
}
use lord_hermes.Common.Text.{Text, codes, strip, starts_with, ends_with, newline}

-- The characters that end a line for str.splitlines; "\r\n" ends one line.
unfoldable pub is_line_break : ℕ → Bool
is_line_break c =
    (leb 10 c && leb c 13) || (leb 28 c && leb c 30) || contains c (133 ∷ 8232 ∷ 8233 ∷ [])

abbrev starts_newline : Text → Bool
starts_newline [] = false
starts_newline (c ∷ text) = c == newline

abbrev onto_first : ℕ → List Text → List Text
onto_first c [] = (c ∷ []) ∷ []
onto_first c (line ∷ lines) = (c ∷ line) ∷ lines

unfoldable pub splitlines : Text → List Text
splitlines [] = []
splitlines (c ∷ text) =
    let lines = splitlines text in
    if c == 13 && starts_newline text
    then lines
    else if is_line_break c
    then [] ∷ lines
    else onto_first c lines

abbrev join_lines : List Text → Text
join_lines [] = []
join_lines (line ∷ []) = line
join_lines (line ∷ next ∷ rest) = line ++ newline ∷ join_lines (next ∷ rest)

abbrev semicolon : ℕ
semicolon = b';'

abbrev last_semicolons : ℕ → Text → Text
last_semicolons c [] = if c == semicolon then [] else c ∷ []
last_semicolons c (d ∷ text) = c ∷ d ∷ text

-- text.rstrip(";")
unfoldable pub drop_semicolons : Text → Text
drop_semicolons [] = []
drop_semicolons (c ∷ text) = last_semicolons c (drop_semicolons text)

unfoldable pub statement_of : List Text → Text
unfolding drop_semicolons
statement_of current = strip (drop_semicolons (strip (join_lines current)))

abbrev with_statement : Text → List Text → List Text
with_statement [] later = later
with_statement (c ∷ text) later = (c ∷ text) ∷ later

-- The loop over the lines, with the lines of the statement that is open.
unfoldable pub split_lines : List Text → List Text → List Text
split_lines current [] = with_statement (statement_of current) []
split_lines current (line ∷ rest) =
    let stripped = strip line in
    elim (starts_with stripped (codes "--")) [
      | true ↦ split_lines current rest
      | false ↦ elim (ends_with stripped semicolon) [
        | true ↦ with_statement (statement_of (current ++ line ∷ [])) (split_lines [] rest)
        | false ↦ split_lines (current ++ line ∷ []) rest
      ]
    ]

unfoldable pub split_sql : Text → List Text
split_sql sql = split_lines [] (splitlines sql)
