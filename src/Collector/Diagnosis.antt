-- ===== src/Collector/Diagnosis.antt =====
-- internal/collector/openclaw.go: `parseDiagnosis`, with its two regular expressions written out.
use monitor_agent.Base.{
  ℕ, ◌+◌, map, Bool, ◌&&◌, ◌||◌, Option, none, some, List, [], ◌∷◌, Text, lit, empty, is_empty,
  trim_space, has_prefix, drop, length, if◌then◌else◌, ◌==◌,
}
use monitor_agent.Base.Int.{ℤ, pos, leb_ℤ}
use monitor_agent.Collector.Words.{is_digit, is_blank, drop_while, take_while, within, parse_int}

pub record Diagnosis : Type 0 where
  pub skills_eligible : ℤ
  pub skills_missing : ℤ
  pub channel_issues : Text

-- what follows a prefix
abbrev pub after_prefix : Text → Text → Option Text
after_prefix p s = if has_prefix s p then some (drop (length p) s) else none

-- `\d+`, then `\s*` and a word: the digits, and what follows
unfoldable pub number_then : Text → Text → Option (Text × Text)
number_then word s =
    let digits = take_while is_digit s in
    if is_empty digits
    then none
    else elim (after_prefix word (drop_while is_blank (drop_while is_digit s))) [
      | none ↦ none
      | some rest ↦ some (digits, rest)
    ]

-- the first place where `\d+\s*missing` matches
unfoldable pub first_missing : Text → Option Text
unfolding number_then
first_missing [] = none
first_missing (c ∷ s) =
    let rest = first_missing s in
    elim (number_then (lit "missing") (c ∷ s)) [ some p ↦ some p.0 | none ↦ rest ]

-- `Skills:\s*(\d+)\s*eligible\s*.*?(\d+)\s*missing` at one place, in lower case
unfoldable pub skills_at : Text → Option (Text × Text)
unfolding number_then first_missing
skills_at s = elim (after_prefix (lit "skills:") s) [
  | none ↦ none
  | some rest ↦ elim (number_then (lit "eligible") (drop_while is_blank rest)) [
    | none ↦ none
    | some (eligible, behind) ↦ elim (first_missing behind) [
      | none ↦ none
      | some missing ↦ some (eligible, missing)
    ]
  ]
]

-- the leftmost match of a pattern
unfoldable pub leftmost : {A : Type 0} → (Text → Option A) → Text → Option A
leftmost at [] = at []
leftmost at (c ∷ s) =
    let rest = leftmost at s in elim (at (c ∷ s)) [ some a ↦ some a | none ↦ rest ]

-- `(?:✓|!)\s*Channel issues:\s*(.+)` at one place: the trimmed group
unfoldable pub issues_at : Text → Option Text
issues_at [] = none
issues_at (c ∷ s) =
    if c == 0x2713 || c == b'!'
    then elim (after_prefix (lit "Channel issues:") (drop_while is_blank s)) [
      | none ↦ none
      | some rest ↦ if is_empty rest then none else some (trim_space rest)
    ]
    else none

-- the folding of case under `(?i)`, for the letters of the pattern
unfoldable pub fold_rune : ℕ → ℕ
fold_rune c =
    if within b'A' b'Z' c
    then c + 32
    else if c == 0x212a
    then b'k'
    else if c == 0x17f
    then b's'
    else c

unfoldable pub diagnosis_line : Text → Diagnosis → Diagnosis
unfolding skills_at issues_at leftmost fold_rune
diagnosis_line line d = record {
  skills_eligible = elim (leftmost skills_at (map fold_rune line)) [
    | none ↦ d.skills_eligible
    | some p ↦ parse_int p.0 (pos 0)
  ];
  skills_missing = elim (leftmost skills_at (map fold_rune line)) [
    | none ↦ d.skills_missing
    | some p ↦ parse_int p.1 (pos 0)
  ];
  channel_issues = elim (leftmost issues_at line) [ none ↦ d.channel_issues | some t ↦ t ];
}

unfoldable pub diagnosis_lines : List Text → Diagnosis → Diagnosis
unfolding diagnosis_line
diagnosis_lines [] d = d
diagnosis_lines (l ∷ ls) d = diagnosis_lines ls (diagnosis_line l d)

abbrev is_zero : ℤ → Bool
is_zero n = leb_ℤ n (pos 0) && leb_ℤ (pos 0) n

-- `parseDiagnosis`
unfoldable pub parse_diagnosis : List Text → Option Diagnosis
unfolding diagnosis_lines
parse_diagnosis lines =
    let d =
      diagnosis_lines lines
        (record { skills_eligible = pos 0; skills_missing = pos 0; channel_issues = empty }) in
    if is_zero d.skills_eligible && is_zero d.skills_missing && is_empty d.channel_issues
    then none
    else some d
