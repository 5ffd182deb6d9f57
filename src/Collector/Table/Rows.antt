-- ===== src/Collector/Table/Rows.antt =====
-- The rows that a table yields.
use monitor_agent.Base.{
  ℕ, ◌+◌, ◌≤◌, ◌≡◌, refl, ap, arith, true, false, ◌||◌, none, some, Option-cases, Bool-cases, inl,
  inr, List, [], ◌∷◌, ◌++◌, All, map, length, length-drop, drop, Text, lit, is_empty, text_eq,
  trim_space, has_prefix, split, ltb,
}
use monitor_agent.Collector.Table.{
  Row, cell, zip_row, header_column, find_header, table_row, table_rows, parse_table_with_header_at,
  is_title, title_lines, find_section_start, parse_table, is_next_section, is_table_separator,
  split_table_row,
}

-- A row has the headers as its keys, in their order, and its first cell is not blank.
pub record IsRow (header : Text) (headers : List Text) (row : Row) : Type 0 where
  pub keys : map (λ (p : Text × Text). p.0) row ≡ header ∷ headers
  pub filled : is_empty (trim_space (cell header row)) ≡ false

zip_row-keys :
    (hs cs : List Text)
    → length hs ≤ length cs
    → map (λ (p : Text × Text). p.0) (zip_row hs cs) ≡ hs
unfolding zip_row
zip_row-keys [] cs h = refl
zip_row-keys (x ∷ hs) [] h = absurd (omega arith)
zip_row-keys (x ∷ hs) (c ∷ cs) h = ap (λ l. x ∷ l) (zip_row-keys hs cs (omega arith))

table_row-IsRow :
    (header : Text) (headers : List Text) (offset : ℕ) (line : Text) (row : Row)
    → table_row header headers offset line ≡ some row
    → IsRow header headers row
unfolding table_row
table_row-IsRow header headers offset line row h =
    let cols = split_table_row line in
    elim (Bool-cases (ltb (length cols) (offset + length (header ∷ headers)))) [
      | inl short ↦ absurd (ground arith)
      | inr long ↦
          let r = zip_row (header ∷ headers) (drop offset cols) in
          let k =
            zip_row-keys (header ∷ headers) (drop offset cols)
              (ground (arith, length-drop offset cols)) in
          elim (Bool-cases (is_empty (trim_space (cell header r)))) [
            | inl blank ↦ absurd (ground arith)
            | inr filled ↦
                let e : r ≡ row = ground arith in rw (← e) (record { keys = k; filled = filled })
          ]
    ]

table_rows-IsRow :
    (header : Text) (headers : List Text) (offset : ℕ) (lines : List Text)
    → All (IsRow header headers) (table_rows header headers offset lines)
unfolding table_rows
table_rows-IsRow header headers offset [] = tt
table_rows-IsRow header headers offset (l ∷ ls) =
    let ih = table_rows-IsRow header headers offset ls in
    elim (Bool-cases (is_table_separator l || is_empty l)) [
      | inl skip ↦ rw skip ih
      | inr line ↦ elim (Bool-cases (is_next_section l)) [
        | inl next ↦ rw (line, next) tt
        | inr row ↦ elim (Option-cases (table_row header headers offset l)) [
          | inl e ↦ rw (line, row, e) ih
          | inr (r, e) ↦ rw (line, row, e) (table_row-IsRow header headers offset l r e, ih)
        ]
      ]
    ]

with_header-IsRow :
    (header : Text) (headers : List Text) (lines : List Text)
    → All (IsRow header headers) (parse_table_with_header_at header headers lines)
unfolding parse_table_with_header_at
with_header-IsRow header headers lines = elim (Option-cases (find_header header lines)) [
  | inl e ↦ rw (e, All) tt
  | inr ((offset, behind), e) ↦ rw (e, All) (table_rows-IsRow header headers offset behind)
]

abbrev pub channel_headers : List Text
channel_headers = lit "Enabled" ∷ lit "State" ∷ lit "Detail" ∷ []

channels_blocked :
    (behind : List Text)
    → parse_table_with_header_at (lit "Channel") channel_headers (lit "Channels" ∷ behind) ≡ []
unfolding parse_table_with_header_at find_header header_column split_table_row is_next_section lit
    text_eq has_prefix trim_space split
channels_blocked behind = refl

module _ (fold : ℕ → ℕ) where
  title_lines-append :
      (title line : Text) (before behind : List Text)
      → title_lines fold title before ≡ none
      → is_title fold title line ≡ true
      → title_lines fold title (before ++ line ∷ behind) ≡ some (line ∷ behind)
  unfolding title_lines
  title_lines-append title line [] behind h t = rw t refl
  title_lines-append title line (l ∷ ls) behind h t = elim (Bool-cases (is_title fold title l)) [
    | inl y ↦ absurd (ground arith)
    | inr n ↦ rw n (title_lines-append title line ls behind (rw n at h) t)
  ]

  is_title_Channels : is_title fold (trim_space (lit "Channels")) (lit "Channels") ≡ true
  unfolding is_title lit trim_space text_eq
  is_title_Channels = refl

  -- Every row of a table has all the headers as its keys, in their order, and a first cell that is
  -- not blank.
  pub parse_table-IsRow :
      (lines : List Text) (title header : Text) (headers : List Text)
      → All (IsRow header headers) (parse_table fold lines title header headers)
  unfolding parse_table
  parse_table-IsRow lines title header headers =
      elim (Option-cases (find_section_start fold title lines)) [
        | inl e ↦ rw (e, All) tt
        | inr (ls, e) ↦ rw (e, All) (with_header-IsRow header headers ls)
      ]

  -- The table of the channels yields no rows where its section is headed by the line "Channels" and no
  -- earlier line is such a title, whatever follows: the line itself is taken for the next section.
  pub parse_table-Channels :
      (before behind : List Text)
      → find_section_start fold (lit "Channels") before ≡ none
      → parse_table fold
          (before ++ lit "Channels" ∷ behind)
          (lit "Channels")
          (lit "Channel")
          channel_headers
        ≡ []
  unfolding parse_table find_section_start
  parse_table-Channels before behind h =
      rw
        (
          title_lines-append (trim_space (lit "Channels")) (lit "Channels") before behind h
              is_title_Channels,
          parse_table,
        )
        (channels_blocked behind)
