-- ===== src/Base/Decimal.antt =====
-- The order of the decimal texts of numbers with equally many digits.
use Prim.Native.Nat.{ℕ, zero, suc, ◌+◌, ◌*◌, ◌/◌, ◌%◌, ◌≤◌, ◌<◌}
use mathlib.Core.Path.{◌≡◌, refl}
use mathlib.Core.Bool.{true, false}
use mathlib.Core.Logic.{inl, inr}
use mathlib.Core.List.{[], ◌∷◌, ◌++◌}
use native.Mathlib.Omega.{arith}
use monitor_agent.Base.Tests.{ltb, Bool-cases}
use monitor_agent.Base.Order.{text_ltb}
use monitor_agent.Base.Strings.{Text, digits, format_nat}

unfoldable pub pow10 : ℕ → ℕ
pow10 zero = 1
pow10 (suc k) = 10 * pow10 k

-- the last digits of a number, as many as the first argument
padded : ℕ → ℕ → Text → Text
padded zero n out = out
padded (suc k) n out = padded k (n / 10) ((b'0' + n % 10) ∷ out)

pow10_pos : (k : ℕ) → 1 ≤ pow10 k
unfolding pow10
pow10_pos zero = omega arith
pow10_pos (suc k) = omega (arith, pow10_pos k)

k_le_pow10 : (k : ℕ) → k < pow10 k
unfolding pow10
k_le_pow10 zero = omega arith
k_le_pow10 (suc k) = omega (arith, k_le_pow10 k)

padded-append : (k n : ℕ) (out t : Text) → padded k n out ++ t ≡ padded k n (out ++ t)
unfolding padded
padded-append zero n out t = refl
padded-append (suc k) n out t = padded-append k (n / 10) ((b'0' + n % 10) ∷ out) t

padded-same :
    (k n : ℕ) (s t : Text) → text_ltb s t ≡ true → text_ltb (padded k n s) (padded k n t) ≡ true
unfolding padded text_ltb
padded-same zero n s t h = h
padded-same (suc k) n s t h =
    padded-same k (n / 10) ((b'0' + n % 10) ∷ s) ((b'0' + n % 10) ∷ t) (ground (arith, h))

padded-ltb :
    (k a b : ℕ) (s t : Text) → b < pow10 k → a < b → text_ltb (padded k a s) (padded k b t) ≡ true
unfolding padded pow10 text_ltb
padded-ltb zero a b s t h l = absurd (omega arith)
padded-ltb (suc k) a b s t h l = elim (Bool-cases (ltb (a / 10) (b / 10))) [
  | inl y ↦
      padded-ltb k (a / 10) (b / 10) ((b'0' + a % 10) ∷ s) ((b'0' + b % 10) ∷ t) (omega arith)
        (ground (arith, y))
  | inr n ↦
      let same : a / 10 ≡ b / 10 = ground (arith, n) in
      let less : text_ltb ((b'0' + a % 10) ∷ s) ((b'0' + b % 10) ∷ t) ≡ true = ground arith in
      rw (← same) (padded-same k (a / 10) ((b'0' + a % 10) ∷ s) ((b'0' + b % 10) ∷ t) less)
]

digits-padded :
    (k fuel n : ℕ) (out : Text)
    → pow10 k ≤ n
    → n < pow10 (suc k)
    → k < fuel
    → digits fuel n out ≡ padded (suc k) n out
unfolding digits padded pow10
digits-padded k zero n out l h f = absurd (omega arith)
digits-padded zero (suc fuel) n out l h f = ground arith
digits-padded (suc k) (suc fuel) n out l h f =
    let large : ltb n 10 ≡ false = ground (arith, pow10_pos k) in
    rw (large, digits)
      (digits-padded k fuel (n / 10) ((b'0' + n % 10) ∷ out) (omega arith) (omega arith)
        (omega arith))

-- Two numbers with the same count of digits are in the order of their texts, whatever follows these.
pub format_nat-ltb :
    (k a b : ℕ) (s t : Text)
    → pow10 k ≤ a
    → a < b
    → b < pow10 (suc k)
    → text_ltb (format_nat a ++ s) (format_nat b ++ t) ≡ true
unfolding format_nat
format_nat-ltb k a b s t h l u =
    let printed : (n : ℕ) → pow10 k ≤ n → n < pow10 (suc k) → format_nat n ≡ padded (suc k) n [] =
      λ n h u. digits-padded k (n + 1) n [] h u (omega (arith, k_le_pow10 k)) in
    rw
      (
        printed a h (omega arith),
        printed b (omega arith) u,
        padded-append (suc k) a [] s,
        padded-append (suc k) b [] t,
      )
      (padded-ltb (suc k) a b s t u l)
