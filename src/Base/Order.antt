-- ===== src/Base/Order.antt =====
-- The order of Go's `<` on strings, and sorting by a strict order.
use mathlib.Core.Path.{◌≡◌, refl}
use mathlib.Core.Logic.{◌⊎◌, inl, inr}
use mathlib.Core.Bool.{Bool, true, false, ◌&&◌, ◌||◌}
use mathlib.Core.List.{List, [], ◌∷◌}
use native.Mathlib.Omega.{arith}
use monitor_agent.Base.Tests.{ltb, ◌==◌, if◌then◌else◌, Bool-cases}
use monitor_agent.Base.Strings.{Text}

-- s < t. The runes are in the order of their bytes.
unfoldable pub text_ltb : Text → Text → Bool
text_ltb [] [] = false
text_ltb [] (y ∷ ys) = true
text_ltb (x ∷ xs) [] = false
text_ltb (x ∷ xs) (y ∷ ys) = ltb x y || (x == y && text_ltb xs ys)

-- A strict order that is total, by its Boolean test.
pub record StrictOrder {ℓ} {A : Type ℓ} (less : A → A → Bool) : Type ℓ where
  pub asym : (a b : A) → less a b ≡ true → less b a ≡ false
  pub split_at : (a b c : A) → less a c ≡ true → (less a b ≡ true) ⊎ (less b c ≡ true)
  pub total : (a b : A) → less a b ≡ false → less b a ≡ false → a ≡ b

text_ltb_asym : (s t : Text) → text_ltb s t ≡ true → text_ltb t s ≡ false
unfolding text_ltb
text_ltb_asym [] [] h = cc
text_ltb_asym [] (y ∷ ys) h = refl
text_ltb_asym (x ∷ xs) [] h = cc
text_ltb_asym (x ∷ xs) (y ∷ ys) h = ground (arith, text_ltb_asym xs ys)

text_ltb_split :
    (s t u : Text) → text_ltb s u ≡ true → (text_ltb s t ≡ true) ⊎ (text_ltb t u ≡ true)
unfolding text_ltb
text_ltb_split [] [] u h = inr h
text_ltb_split [] (y ∷ ys) u h = inl refl
text_ltb_split (x ∷ xs) t [] h = cc
text_ltb_split (x ∷ xs) [] (z ∷ zs) h = inr refl
text_ltb_split (x ∷ xs) (y ∷ ys) (z ∷ zs) h = ground (arith, text_ltb_split xs ys zs)

text_ltb_total : (s t : Text) → text_ltb s t ≡ false → text_ltb t s ≡ false → s ≡ t
unfolding text_ltb
text_ltb_total [] [] h k = refl
text_ltb_total [] (y ∷ ys) h k = cc
text_ltb_total (x ∷ xs) [] h k = cc
text_ltb_total (x ∷ xs) (y ∷ ys) h k = ground (arith, text_ltb_total xs ys)

pub text_ltb-StrictOrder : StrictOrder text_ltb
text_ltb-StrictOrder = record {
  asym = text_ltb_asym;
  split_at = text_ltb_split;
  total = text_ltb_total;
}

module _ {ℓ} {A : Type ℓ} (less : A → A → Bool) where
  -- the item at its place in a sorted list
  unfoldable pub insert_sorted : A → List A → List A
  insert_sorted x [] = x ∷ []
  insert_sorted x (y ∷ ys) =
      let rest = insert_sorted x ys in if less y x then y ∷ rest else x ∷ y ∷ ys

  -- Two items are inserted in either order.
  pub insert_sorted_comm :
      StrictOrder less
      → (a b : A) (l : List A)
      → insert_sorted a (insert_sorted b l) ≡ insert_sorted b (insert_sorted a l)
  unfolding insert_sorted
  insert_sorted_comm o a b [] = elim (Bool-cases (less b a)) [
    | inl y ↦ rw (y, o.asym b a y) refl
    | inr n ↦ elim (Bool-cases (less a b)) [
      | inl y ↦ rw (y, n) refl
      | inr m ↦ rw (n, m, o.total a b m n) refl
    ]
  ]
  insert_sorted_comm o a b (y ∷ ys) = ground (
    arith,
    insert_sorted_comm o a b ys,
    o.asym a b,
    o.asym b a,
    o.split_at y b a,
    o.split_at y a b,
    o.total a b,
  )
