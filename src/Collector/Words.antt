-- ===== src/Collector/Words.antt =====
-- internal/collector/openclaw.go: the small functions on texts, with what they use of Go's `strings`,
-- `regexp` and `filepath`. `fold` is `unicode.ToLower` of a rune beyond ASCII. Byte offsets of
-- prefixes are taken as offsets of runes.
use monitor_agent.Base.{
  ℕ, zero, suc, ◌+◌, ◌-◌, ◌*◌, ◌%◌, ◌^◌, Bool, true, false, not, ◌&&◌, ◌||◌, Option, none, some,
  List, [], ◌∷◌, map, length, drop, take, Text, lit, empty, is_empty, text_eq, trim_space,
  has_prefix, contains, split, leb, ltb, ◌==◌, if◌then◌else◌,
}
use monitor_agent.Base.Int.{ℤ, pos, negsuc}
use monitor_agent.Command.Json.{Json, num, text}

abbrev pub within : ℕ → ℕ → ℕ → Bool
within lo hi c = leb lo c && leb c hi

abbrev pub is_digit : ℕ → Bool
is_digit = within b'0' b'9'

-- `\s` of package regexp
abbrev pub is_blank : ℕ → Bool
is_blank c = c == 32 || c == 9 || c == 10 || c == 12 || c == 13

abbrev pub any {ℓ} : {A : Type ℓ} → (A → Bool) → List A → Bool
any p [] = false
any p (x ∷ xs) = p x || any p xs

abbrev pub all {ℓ} : {A : Type ℓ} → (A → Bool) → List A → Bool
all p [] = true
all p (x ∷ xs) = p x && all p xs

-- the element at an index, if it is in range
abbrev pub get_elem? {ℓ} : {A : Type ℓ} → List A → ℕ → Option A
get_elem? [] n = none
get_elem? (x ∷ xs) zero = some x
get_elem? (x ∷ xs) (suc n) = get_elem? xs n

-- the text without the runes in front that pass the test
abbrev pub drop_while : (ℕ → Bool) → Text → Text
drop_while p [] = []
drop_while p (c ∷ s) = let rest = drop_while p s in if p c then rest else c ∷ s

abbrev pub take_while : (ℕ → Bool) → Text → Text
take_while p [] = []
take_while p (c ∷ s) = let rest = take_while p s in if p c then c ∷ rest else []

-- the text without the runes at its end that pass the test
abbrev pub drop_end : (ℕ → Bool) → Text → Text
drop_end p [] = []
drop_end p (c ∷ s) = let rest = drop_end p s in if p c && is_empty rest then [] else c ∷ rest

-- `strings.HasSuffix`
unfoldable pub has_suffix : Text → Text → Bool
has_suffix s p = leb (length p) (length s) && text_eq (drop (length s - length p) s) p

-- `strings.TrimSuffix`
unfoldable pub trim_suffix : Text → Text → Text
unfolding has_suffix
trim_suffix s p = if has_suffix s p then take (length s - length p) s else s

-- `strings.Index` and the slices around the separator: what stands before it, and behind it
unfoldable pub cut : Text → Text → Option (Text × Text)
cut sep [] = if is_empty sep then some ([], []) else none
cut sep (c ∷ s) =
    let rest = cut sep s in
    if has_prefix (c ∷ s) sep
    then some ([], drop (length sep) (c ∷ s))
    else elim rest [ none ↦ none | some p ↦ some (c ∷ p.0, p.1) ]

last_of : List Text → Text
last_of [] = empty
last_of (x ∷ []) = x
last_of (x ∷ y ∷ xs) = last_of (y ∷ xs)

-- `filepath.Base`
unfoldable pub base_name : Text → Text
unfolding last_of
base_name s =
    if is_empty s
    then lit "."
    else (let t = drop_end (λ c. c == b'/') s in
        if is_empty t then lit "/" else last_of (split b'/' t))

-- how long the rest of an escape sequence is, behind its `\x1b`
unfoldable pub csi_length : Text → Option ℕ
csi_length [] = none
csi_length (c ∷ s) =
    let params = take_while (λ d. is_digit d || d == b';') s in
    if not (c == b'[') then none else elim (get_elem? s (length params)) [
      | none ↦ none
      | some e ↦ if within b'a' b'z' e || within b'A' b'Z' e then some (length params + 2) else none
    ]

-- the text behind the runes that are skipped, without escape sequences
unfoldable pub strip_from : ℕ → Text → Text
unfolding csi_length
strip_from n [] = []
strip_from (suc n) (c ∷ s) = strip_from n s
strip_from zero (c ∷ s) = elim (c == 0x1b) [
  | false ↦ c ∷ strip_from zero s
  | true ↦ elim (csi_length s) [ none ↦ c ∷ strip_from zero s | some n ↦ strip_from n s ]
]

-- `stripANSI`
unfoldable pub strip_ansi : Text → Text
unfolding strip_from
strip_ansi s = strip_from 0 s

-- the loop of `parseInt`: an int64 that wraps around, as a number below 2 ^ 64
unfoldable pub digits_value : ℕ → Text → ℕ
digits_value n [] = n
digits_value n (c ∷ s) =
    let rest = digits_value ((n * 10 + (c - b'0')) % 2 ^ 64) s in if is_digit c then rest else n

unfoldable pub signed : ℕ → ℤ
signed n = if ltb n (2 ^ 63) then pos n else negsuc (2 ^ 64 - 1 - n)

-- `parseInt`
unfoldable pub parse_int : Text → ℤ → ℤ
unfolding digits_value signed
parse_int s default =
    let t = trim_space s in
    let n = digits_value 0 t in if n == 0 && not (text_eq t (lit "0")) then default else signed n

-- `extractParenNumber`
unfoldable pub extract_paren_number : Text → ℤ
unfolding cut
extract_paren_number s = elim (cut (lit "(") s) [
  | none ↦ pos 0
  | some p ↦
      if contains p.0 (lit ")")
      then pos 0
      else elim (cut (lit ")") p.1) [ none ↦ pos 0 | some q ↦ parse_int q.0 (pos 0) ]
]

-- `extractTableValue`: by a separator, if the line has it
unfoldable pub separated : ℕ → Text → Option Text
separated sep line = elim (split sep line) [
  | x ∷ y ∷ z ∷ rest ↦ some (trim_space z)
  | x ∷ y ∷ [] ↦ some (trim_space y)
  | _ ↦ none
]

unfoldable pub extract_table_value : Text → Text
unfolding separated cut
extract_table_value line = elim (separated 0x2502 line) [
  | some v ↦ v
  | none ↦ elim (separated b'|' line) [
    | some v ↦ v
    | none ↦ elim (cut (lit ":") line) [ some p ↦ trim_space p.1 | none ↦ trim_space line ]
  ]
]

-- `parseSessionsValue`
unfoldable pub parse_sessions_value : Json → ℤ
parse_sessions_value (num n) = n.truncated
parse_sessions_value (text s) = parse_int s (pos 0)
parse_sessions_value _ = pos 0

module _ (fold : ℕ → ℕ) where
  abbrev pub lower_rune : ℕ → ℕ
  lower_rune c = if within b'A' b'Z' c then c + 32 else if ltb c 128 then c else fold c

  -- `strings.ToLower`
  unfoldable pub to_lower : Text → Text
  to_lower s = map lower_rune s

  -- `strings.EqualFold` with a text of the letters K, N and O
  unfoldable pub equal_fold : Text → Text → Bool
  unfolding to_lower
  equal_fold s t = text_eq (to_lower s) (to_lower t)
