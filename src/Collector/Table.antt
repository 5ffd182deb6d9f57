-- ===== src/Collector/Table.antt =====
-- internal/collector/openclaw.go: the sections and tables of `openclaw status --all`. An index that
-- moves forward through the lines is the list of the lines from there on.
pub mod Rows
use monitor_agent.Base.{
  ℕ, zero, suc, ◌+◌, Bool, true, false, not, ◌&&◌, ◌||◌, Option, none, some, List, [], ◌∷◌, ◌++◌,
  map, length, drop, take, Text, lit, empty, is_empty, text_eq, trim_space, has_prefix, contains,
  split, join, leb, ltb, ◌==◌, if◌then◌else◌,
}
use monitor_agent.Collector.Words.{any, all, to_lower}

-- `isTableSeparator`
unfoldable pub is_table_separator : Text → Bool
is_table_separator line =
    let trimmed = trim_space line in
    any
      (λ c. c == 0x2500 || c == 0x251c || c == 0x253c || c == 0x2514 || c == 0x250c || c == 0x2510)
      line
    || (not (is_empty trimmed)
        && all (λ c. c == b'-' || c == b'+' || c == b'|' || c == b' ') trimmed
        && any (λ c. c == b'-' || c == b'|') trimmed)

abbrev pub sections : List Text
sections =
    lit "Channels"
    ∷ lit "Telegram accounts"
    ∷ lit "Agents"
    ∷ lit "Diagnosis"
    ∷ lit "Gateway connection"
    ∷ lit "Gateway last log"
    ∷ lit "Pasteable debug"
    ∷ lit "FAQ:"
    ∷ lit "Troubleshooting:"
    ∷ lit "Next steps:"
    ∷ []

-- `isNextSection`
unfoldable pub is_next_section : Text → Bool
is_next_section line =
    let trimmed = trim_space line in
    not (is_empty trimmed) && any (λ s. text_eq trimmed s || has_prefix trimmed s) sections

-- `splitTableRow`
unfoldable pub split_table_row : Text → List Text
split_table_row line =
    let has = λ (sep : ℕ). any (λ c. c == sep) line in
    map trim_space (split (if not (has 0x2502) && has b'|' then b'|' else 0x2502) line)

-- a row by its headers, in their order
abbrev pub Row : Type 0
Row = List (Text × Text)

-- `row[header]`
unfoldable pub cell : Text → Row → Text
cell header [] = empty
cell header ((h, c) ∷ row) = let rest = cell header row in if text_eq h header then c else rest

unfoldable pub zip_row : List Text → List Text → Row
zip_row (h ∷ hs) (c ∷ cs) = (h, c) ∷ zip_row hs cs
zip_row _ _ = []

-- the first of the columns that holds the header
unfoldable pub header_column : Text → List Text → Option ℕ
header_column header [] = none
header_column header (c ∷ cs) =
    let rest = header_column header cs in
    if text_eq (trim_space c) header
    then some 0
    else elim rest [ none ↦ none | some n ↦ some (suc n) ]

-- The first loop of `parseTable`: the offset of the columns, and the lines behind the header.
unfoldable pub find_header : Text → List Text → Option (ℕ × List Text)
unfolding header_column
find_header header [] = none
find_header header (l ∷ ls) =
    let rest = find_header header ls in
    elim (header_column header (take 3 (split_table_row l))) [
      | some offset ↦ some (offset, ls)
      | none ↦ if is_next_section l then none else rest
    ]

-- the row of a line, if it has enough columns and its first cell is not blank
unfoldable pub table_row : Text → List Text → ℕ → Text → Option Row
unfolding zip_row cell
table_row header headers offset line =
    let cols = split_table_row line in
    let row = zip_row (header ∷ headers) (drop offset cols) in
    if ltb (length cols) (offset + length (header ∷ headers))
    then none
    else if is_empty (trim_space (cell header row))
    then none
    else some row

-- the second loop of `parseTable`
unfoldable pub table_rows : Text → List Text → ℕ → List Text → List Row
unfolding table_row
table_rows header headers offset [] = []
table_rows header headers offset (l ∷ ls) =
    let rest = table_rows header headers offset ls in
    if is_table_separator l || is_empty l
    then rest
    else if is_next_section l
    then []
    else elim (table_row header headers offset l) [ none ↦ rest | some row ↦ row ∷ rest ]

-- `parseTableWithHeaderAt`, and `parseTable` behind the search of its section
unfoldable pub parse_table_with_header_at : Text → List Text → List Text → List Row
unfolding find_header table_rows
parse_table_with_header_at header headers lines = elim (find_header header lines) [
  | none ↦ []
  | some (offset, behind) ↦ table_rows header headers offset behind
]

-- what one line adds to the pairs
unfoldable pub add_pair : Text → Text → Row → Row
add_pair key value merged =
    if is_empty key || text_eq key (lit "Item") || text_eq key (lit "Key")
    then merged
    else (key, value) ∷ merged

unfoldable pub key_value : List Text → Row → Row
unfolding add_pair
key_value (a ∷ b ∷ c ∷ cs) merged =
    add_pair (trim_space b) (trim_space (join (c ∷ cs) (0x2502 ∷ []))) merged
key_value (a ∷ b ∷ []) merged = add_pair (trim_space a) (trim_space b) merged
key_value _ merged = merged

-- The pairs of a key-value table, the later ones in front, so that the last one of a key counts.
unfoldable pub key_values : Row → List Text → Row
unfolding key_value
key_values merged [] = merged
key_values merged (l ∷ ls) = elim (is_table_separator l || is_empty l) [
  | true ↦ key_values merged ls
  | false ↦ elim (is_next_section l) [
    | true ↦ merged
    | false ↦ key_values (key_value (split_table_row l) merged) ls
  ]
]

module _ (fold : ℕ → ℕ) where
  -- the test of one line in `findSectionStart`
  unfoldable pub is_title : Text → Text → Bool
  is_title title line =
      let t = trim_space line in
      let rest = drop (length title) t in
      text_eq t title
      || text_eq (to_lower fold t) (to_lower fold title)
      || (not (is_empty title)
          && leb (length title) (length t)
          && text_eq (to_lower fold (take (length title) t)) (to_lower fold title)
          && (is_empty rest || has_prefix rest (lit " ") || has_prefix rest (lit ":")))

  title_lines : Text → List Text → Option (List Text)
  title_lines title [] = none
  title_lines title (l ∷ ls) =
      let rest = title_lines title ls in if is_title title l then some (l ∷ ls) else rest

  -- `findSectionStart`: the lines from the title on
  unfoldable pub find_section_start : Text → List Text → Option (List Text)
  unfolding title_lines
  find_section_start title lines = title_lines (trim_space title) lines

  -- `parseTable`
  unfoldable pub parse_table : List Text → Text → Text → List Text → List Row
  parse_table lines title header headers = elim (find_section_start title lines) [
    | none ↦ []
    | some ls ↦ parse_table_with_header_at header headers ls
  ]

  -- `parseKeyValueTable`; an empty result has no pairs.
  unfoldable pub parse_key_value_table : List Text → Text → Row
  parse_key_value_table lines title = elim (find_section_start title lines) [
    | none ↦ []
    | some ls ↦ key_values [] ls
  ]
