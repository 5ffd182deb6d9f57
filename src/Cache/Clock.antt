-- ===== src/Cache/Clock.antt =====
-- The names that `Push` makes of the clock: as long as nanoseconds have 19 digits, which they have from
-- 2001 to 2286, a later name stands behind the earlier ones of its kind.
pub mod Kept
pub mod Runs
pub mod Examples
use monitor_agent.Base.{
  ℕ, ◌≤◌, ◌<◌, ◌≡◌, ◌≢◌, refl, sym, ap, ◌∙◌, arith, true, false, none, List, [], ◌∷◌, ◌++◌, All,
  ◌⊎◌, inl, inr, Text, lit, text_eq, text_eq_iff, text_ltb, text_ltb-StrictOrder, has_prefix,
  format_nat,
}
use monitor_agent.Base.Decimal.{pow10, format_nat-ltb}
use monitor_agent.Cache.{File, Kind, metrics, logs, kind_text, taken, file_name}
use monitor_agent.Cache.Push.{file_name-not_index}
use monitor_agent.Cache.Files.{Unused}
use monitor_agent.Cache.Queue.{Earlier}

abbrev pub first_time : ℕ
first_time = 1_000_000_000_000_000_000

abbrev pub end_time : ℕ
end_time = 10_000_000_000_000_000_000

-- The index, or a file that `Push` has written before `now`.
pub data Old (now : ℕ) (f : File) : Type 0 where
  index_file : f.name ≡ lit "index.json" → Old now f
  dated :
      (kind : Kind) (time : ℕ)
      → f.name ≡ file_name kind time
      → first_time ≤ time
      → time < now
      → Old now f

file_name-ltb :
    (kind : Kind) (a b : ℕ)
    → first_time ≤ a
    → a < b
    → b < end_time
    → text_ltb (file_name kind a) (file_name kind b) ≡ true
unfolding lit text_ltb pow10
file_name-ltb metrics a b h l u = format_nat-ltb 18 a b (lit ".json") (lit ".json") h l u
file_name-ltb logs a b h l u = format_nat-ltb 18 a b (lit ".json") (lit ".json") h l u

ne_of_ltb : (s t : Text) → text_ltb s t ≡ true → s ≢ t
ne_of_ltb s t h e =
    let p : text_ltb t t ≡ true = (rw e at h) in absurd (cc (p, text_ltb-StrictOrder.asym t t p))

ne_of_eq : (s t : Text) → text_eq s t ≡ false → s ≢ t
ne_of_eq s t h e = absurd (cc (h, (text_eq_iff s t).1 e))

kinds_apart :
    (kind other : Kind) (a b : ℕ)
    → other ≢ kind
    → text_eq (file_name other a) (file_name kind b) ≡ false
unfolding lit text_eq
kinds_apart metrics metrics a b h = absurd (h refl)
kinds_apart logs logs a b h = absurd (h refl)
kinds_apart metrics logs a b h = refl
kinds_apart logs metrics a b h = refl

-- the prefix that `popKind` looks for
abbrev prefix : Kind → Text
prefix kind = kind_text kind ++ lit "_"

index-apart : (kind : Kind) → has_prefix (lit "index.json") (prefix kind) ≡ false
unfolding lit has_prefix
index-apart metrics = refl
index-apart logs = refl

prefixes_apart :
    (kind other : Kind) (a : ℕ)
    → other ≢ kind
    → has_prefix (file_name other a) (prefix kind) ≡ false
unfolding lit has_prefix
prefixes_apart metrics metrics a h = absurd (h refl)
prefixes_apart logs logs a h = absurd (h refl)
prefixes_apart metrics logs a h = refl
prefixes_apart logs metrics a h = refl

not_taken : (kind : Kind) (f : File) → has_prefix f.name (prefix kind) ≡ false → taken kind f ≡ none
unfolding taken
not_taken kind f h = ground (arith, h)

same_or_not : (kind other : Kind) → (other ≡ kind) ⊎ (other ≢ kind)
same_or_not metrics metrics = inl refl
same_or_not logs logs = inl refl
same_or_not metrics logs = inr (λ e. absurd (cc))
same_or_not logs metrics = inr (λ e. absurd (cc))

pub Old-Unused :
    (kind : Kind) (now : ℕ) (f : File) → now < end_time → Old now f → f.name ≢ file_name kind now
Old-Unused kind now f u (index_file e) =
    λ p. ne_of_eq _ _ (file_name-not_index kind now) (sym p ∙ e)
Old-Unused kind now f u (dated other a e h l) = elim (same_or_not kind other) [
  | inl s ↦ λ p.
      ne_of_ltb _ _ (file_name-ltb kind a now h l u) (ap (λ k. file_name k a) (sym s) ∙ sym e ∙ p)
  | inr d ↦ λ p. ne_of_eq _ _ (kinds_apart kind other a now d) (sym e ∙ p)
]

pub Old-Earlier :
    (kind : Kind) (now : ℕ) (f : File)
    → now < end_time
    → Old now f
    → Earlier kind (file_name kind now) f
Old-Earlier kind now f u (index_file e) = inl (not_taken kind f (rw e (index-apart kind)))
Old-Earlier kind now f u (dated other a e h l) = elim (same_or_not kind other) [
  | inl s ↦ inr (rw (e, s) (file_name-ltb kind a now h l u))
  | inr d ↦ inl (not_taken kind f (rw e (prefixes_apart kind other a d)))
]

-- What is old stays old.
pub Old-later : (now after : ℕ) (f : File) → now ≤ after → Old now f → Old after f
Old-later now after f h (index_file e) = index_file e
Old-later now after f h (dated kind a e l u) = dated kind a e l (omega arith)
