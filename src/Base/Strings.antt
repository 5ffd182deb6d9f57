-- ===== src/Base/Strings.antt =====
-- Texts as lists of runes, and what the program uses of Go's `strings` and `fmt` packages.
pub mod Words
use Prim.Native.Nat.{ℕ, zero, suc, ◌+◌, ◌/◌, ◌%◌}
use Prim.Native.Char.{code}
use Prim.Native.String.{String}
use mathlib.Core.Path.{◌≡◌, refl, sym, ap, ◌∙◌}
use mathlib.Core.Logic.{◌↔◌}
use mathlib.Core.Bool.{Bool, true, false, ◌&&◌, ◌||◌}
use mathlib.Core.List.{List, [], ◌∷◌, ◌++◌, append_assoc}
use native.Mathlib.Omega.{arith}
use monitor_agent.Base.Tests.{ltb, leb, ◌==◌, if◌then◌else◌}

abbrev pub Text : Type 0
Text = List ℕ

-- The runes of a literal. It is shut, so that a literal stays one term in goals.
unfoldable pub lit : String → Text
lit String.[] = []
lit (String.◌∷◌ c s) = code c ∷ lit s

abbrev pub empty : Text
empty = []

-- s == t
unfoldable pub text_eq : Text → Text → Bool
text_eq [] [] = true
text_eq [] (y ∷ ys) = false
text_eq (x ∷ xs) [] = false
text_eq (x ∷ xs) (y ∷ ys) = x == y && text_eq xs ys

-- s == ""
abbrev pub is_empty : Text → Bool
is_empty [] = true
is_empty (x ∷ xs) = false

pub text_eq_refl : (s : Text) → text_eq s s ≡ true
unfolding text_eq
text_eq_refl [] = refl
text_eq_refl (x ∷ xs) = ground (arith, text_eq_refl xs)

text_eq_sound : (s t : Text) → text_eq s t ≡ true → s ≡ t
unfolding text_eq
text_eq_sound [] [] h = refl
text_eq_sound [] (y ∷ ys) h = cc
text_eq_sound (x ∷ xs) [] h = cc
text_eq_sound (x ∷ xs) (y ∷ ys) h = ground (arith, text_eq_sound xs ys)

text_eq_complete : (s t : Text) → s ≡ t → text_eq s t ≡ true
text_eq_complete s t h = rw h (text_eq_refl t)

pub text_eq_iff : (s t : Text) → (text_eq s t ≡ true) ↔ (s ≡ t)
text_eq_iff s t = (text_eq_sound s t, text_eq_complete s t)

-- unicode.IsSpace
unfoldable pub is_space : ℕ → Bool
is_space c =
    (leb 9 c && leb c 13)
    || c == 32
    || c == 0x85
    || c == 0xa0
    || c == 0x1680
    || (leb 0x2000 c && leb c 0x200a)
    || c == 0x2028
    || c == 0x2029
    || c == 0x202f
    || c == 0x205f
    || c == 0x3000

trim_left : Text → Text
trim_left [] = []
trim_left (c ∷ s) = let rest = trim_left s in if is_space c then rest else c ∷ s

trim_right : Text → Text
trim_right [] = []
trim_right (c ∷ s) = let rest = trim_right s in if is_space c && is_empty rest then [] else c ∷ rest

-- strings.TrimSpace
unfoldable pub trim_space : Text → Text
unfolding trim_left trim_right is_space
trim_space s = trim_right (trim_left s)

trim_right_idem : (s : Text) → trim_right (trim_right s) ≡ trim_right s
unfolding trim_right
trim_right_idem [] = refl
trim_right_idem (c ∷ s) = ground (arith, trim_right_idem s)

-- no blank in front
abbrev NoBlankFront : Text → Type 0
NoBlankFront [] = Unit
NoBlankFront (c ∷ s) = is_space c ≡ false

trim_left-NoBlankFront : (s : Text) → NoBlankFront (trim_left s)
unfolding trim_left
trim_left-NoBlankFront [] = tt
trim_left-NoBlankFront (c ∷ s) = ground (arith, trim_left-NoBlankFront s)

trim_right-NoBlankFront : (s : Text) → NoBlankFront s → NoBlankFront (trim_right s)
unfolding trim_right
trim_right-NoBlankFront [] h = tt
trim_right-NoBlankFront (c ∷ s) h = ground arith

trim_left_of_NoBlankFront : (s : Text) → NoBlankFront s → trim_left s ≡ s
unfolding trim_left
trim_left_of_NoBlankFront [] h = refl
trim_left_of_NoBlankFront (c ∷ s) h = ground arith

-- Trimming twice is trimming once.
pub trim_space_idem : (s : Text) → trim_space (trim_space s) ≡ trim_space s
unfolding trim_space
trim_space_idem s = ground (
  arith,
  trim_left_of_NoBlankFront (trim_right (trim_left s))
      (trim_right-NoBlankFront (trim_left s) (trim_left-NoBlankFront s)),
  trim_right_idem (trim_left s),
)

is_empty-snoc : (s : Text) (d : ℕ) → is_empty (s ++ d ∷ []) ≡ false
is_empty-snoc [] d = refl
is_empty-snoc (c ∷ s) d = refl

trim_right-snoc : (s : Text) (d : ℕ) → is_space d ≡ false → trim_right (s ++ d ∷ []) ≡ s ++ d ∷ []
unfolding trim_right
trim_right-snoc [] d h = rw h refl
trim_right-snoc (c ∷ s) d h = ground (arith, trim_right-snoc s d h, is_empty-snoc s d)

NoBlankFront-append : (s t : Text) → is_empty s ≡ false → NoBlankFront s → NoBlankFront (s ++ t)
NoBlankFront-append [] t h k = absurd (cc)
NoBlankFront-append (c ∷ s) t h k = k

-- A text is trimmed that starts like a trimmed one and does not end in a blank.
pub trim_space_framed :
    (s t : Text) (d : ℕ)
    → trim_space s ≡ s
    → is_empty s ≡ false
    → is_space d ≡ false
    → trim_space (s ++ (t ++ d ∷ [])) ≡ s ++ (t ++ d ∷ [])
unfolding trim_space
trim_space_framed s t d h k e =
    let front : NoBlankFront s =
      rw (sym h) (trim_right-NoBlankFront (trim_left s) (trim_left-NoBlankFront s)) in
    let framed = NoBlankFront-append s (t ++ d ∷ []) k front in
    let ended : trim_right (s ++ (t ++ d ∷ [])) ≡ s ++ (t ++ d ∷ []) =
      rw (← append_assoc s t (d ∷ [])) (trim_right-snoc (s ++ t) d e) in
    ap trim_right (trim_left_of_NoBlankFront (s ++ (t ++ d ∷ [])) framed) ∙ ended

-- strings.HasPrefix
unfoldable pub has_prefix : Text → Text → Bool
has_prefix s [] = true
has_prefix [] (p ∷ ps) = false
has_prefix (c ∷ s) (p ∷ ps) = c == p && has_prefix s ps

-- strings.Contains
unfoldable pub contains : Text → Text → Bool
unfolding has_prefix
contains [] p = has_prefix [] p
contains (c ∷ s) p = has_prefix (c ∷ s) p || contains s p

-- the decimal digits of a number, which holds at most as many as the first argument
unfoldable pub digits : ℕ → ℕ → Text → Text
digits zero n out = out
digits (suc fuel) n out = elim (ltb n 10) [
  | true ↦ (b'0' + n % 10) ∷ out
  | false ↦ digits fuel (n / 10) ((b'0' + n % 10) ∷ out)
]

-- fmt.Sprintf("%d", n) of a number that is not negative
unfoldable pub format_nat : ℕ → Text
unfolding digits
format_nat n = digits (n + 1) n []

-- strings.Join
unfoldable pub join : List Text → Text → Text
join [] sep = []
join (p ∷ []) sep = p
join (p ∷ q ∷ ps) sep = p ++ sep ++ join (q ∷ ps) sep

push_front : ℕ → List Text → List Text
push_front c [] = (c ∷ []) ∷ []
push_front c (p ∷ ps) = (c ∷ p) ∷ ps

-- strings.Split by a separator of one rune
unfoldable pub split : ℕ → Text → List Text
unfolding push_front
split sep [] = [] ∷ []
split sep (c ∷ s) = let rest = split sep s in if c == sep then [] ∷ rest else push_front c rest

close : Text → List Text → List Text
close [] ps = ps
close (c ∷ w) ps = (c ∷ w) ∷ ps

-- the word at the front, and the words behind it
word_scan : Text → Text × List Text
word_scan [] = ([], [])
word_scan (c ∷ s) =
    let (w, ws) = word_scan s in if is_space c then ([], close w ws) else (c ∷ w, ws)

-- strings.Fields
unfoldable pub words : Text → List Text
unfolding word_scan close is_space
words s = let (w, ws) = word_scan s in close w ws
