-- ===== src/Base/Strings/Words.antt =====
-- What `strings.Fields` and `strings.Split` give for texts that were put together.
use Prim.Native.Nat.{ℕ}
use mathlib.Core.Path.{◌≡◌, refl, sym, ap, ◌∙◌}
use mathlib.Core.Logic.{inl, inr}
use mathlib.Core.Bool.{true, false}
use mathlib.Core.List.{List, [], ◌∷◌, ◌++◌}
use native.Mathlib.Omega.{arith}
use monitor_agent.Base.Tests.{◌==◌, Bool-cases}
use monitor_agent.Base.Lists.{All}
use monitor_agent.Base.Strings.{
  Text, is_empty, is_space, trim_left, trim_right, trim_space, split, push_front, close, word_scan,
  words,
}

-- No rune of the text is a blank.
abbrev pub IsSolid : Text → Type 0
IsSolid = All (λ c. is_space c ≡ false)

abbrev pub IsWord : Text → Type 0
IsWord w = (is_empty w ≡ false) × IsSolid w

words-trim_left : (s : Text) → words (trim_left s) ≡ words s
unfolding words word_scan close trim_left
words-trim_left [] = refl
words-trim_left (c ∷ s) = ground (arith, words-trim_left s)

nil_of_empty : (s : Text) → is_empty s ≡ true → s ≡ []
nil_of_empty [] h = refl
nil_of_empty (c ∷ s) h = absurd (cc)

scan_solid :
    (c : ℕ) (s : Text)
    → is_space c ≡ false
    → word_scan (c ∷ s) ≡ (c ∷ (word_scan s).0, (word_scan s).1)
unfolding word_scan
scan_solid c s h = rw h refl

scan_blank :
    (c : ℕ) (s : Text)
    → is_space c ≡ true
    → word_scan (c ∷ s) ≡ ([], close (word_scan s).0 (word_scan s).1)
unfolding word_scan
scan_blank c s h = rw h refl

word_scan-trim_right : (s : Text) → word_scan (trim_right s) ≡ word_scan s
unfolding word_scan trim_right close
word_scan-trim_right [] = refl
word_scan-trim_right (c ∷ s) =
    let rest = word_scan-trim_right s in
    elim (Bool-cases (is_space c)) [
      | inr n ↦
          rw n (scan_solid c (trim_right s) n ∙ ap (λ (p : Text × List Text). (c ∷ p.0, p.1)) rest)
      | inl y ↦ elim (Bool-cases (is_empty (trim_right s))) [
        | inl e ↦
            let nothing : word_scan s ≡ ([], []) =
              sym rest ∙ ap word_scan (nil_of_empty (trim_right s) e) in
            rw (y, e, nothing) refl
        | inr n ↦
            rw (y, n)
              (scan_blank c (trim_right s) y
                ∙ ap (λ (p : Text × List Text). ([], close p.0 p.1)) rest)
      ]
    ]

pub words-trim_space : (s : Text) → words (trim_space s) ≡ words s
unfolding trim_space words
words-trim_space s =
    ap (λ (p : Text × List Text). close p.0 p.1) (word_scan-trim_right (trim_left s))
    ∙ words-trim_left s

word_scan-solid : (w t : Text) → IsSolid w → word_scan (w ++ 9 ∷ t) ≡ (w, words t)
unfolding word_scan words is_space
word_scan-solid [] t h = refl
word_scan-solid (c ∷ w) t (h, hs) = rw (h, word_scan-solid w t hs) refl

word_scan-last : (w : Text) → IsSolid w → word_scan w ≡ (w, [])
unfolding word_scan
word_scan-last [] h = refl
word_scan-last (c ∷ w) (h, hs) = rw (h, word_scan-last w hs) refl

pub filled_of_words : (t w : Text) (ws : List Text) → words t ≡ w ∷ ws → is_empty t ≡ false
unfolding words word_scan close
filled_of_words [] w ws h = absurd (cc)
filled_of_words (c ∷ t) w ws h = refl

-- A word before a tab, and a word at the end.
pub words-tab : (w t : Text) → IsWord w → words (w ++ 9 ∷ t) ≡ w ∷ words t
unfolding words close
words-tab [] t (e, h) = absurd (cc)
words-tab (c ∷ w) t (e, h) =
    ap (λ (p : Text × List Text). close p.0 p.1) (word_scan-solid (c ∷ w) t h)

pub words-last : (w : Text) → IsWord w → words w ≡ w ∷ []
unfolding words close
words-last [] (e, h) = absurd (cc)
words-last (c ∷ w) (e, h) = ap (λ (p : Text × List Text). close p.0 p.1) (word_scan-last (c ∷ w) h)

-- A line before the end of a line.
pub split-line :
    (sep : ℕ) (l t : Text)
    → All (λ c. (c == sep) ≡ false) l
    → split sep (l ++ sep ∷ t) ≡ l ∷ split sep t
unfolding split push_front
split-line sep [] t h = ground arith
split-line sep (c ∷ l) t (h, hs) = rw (h, split, split-line sep l t hs) refl
