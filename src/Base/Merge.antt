-- ===== src/Base/Merge.antt =====
-- Sequences of several threads, interleaved in any order.
use mathlib.Core.Path.{◌≡◌, refl}
use mathlib.Core.List.{List, [], ◌∷◌, ◌++◌, append_assoc, Perm, perm_middle}
use mathlib.Core.List.Perm
use monitor_agent.Base.Lists.{All}

module _ {ℓ} {A : Type ℓ} where
  abbrev pub flatten : List (List A) → List A
  flatten [] = []
  flatten (t ∷ ts) = t ++ flatten ts

  -- The threads, and all that they do, each in its own order.
  pub data Merge : List (List A) → List A → Type ℓ where
    finished : {ts : List (List A)} → All (λ t. t ≡ []) ts → Merge ts []
    turn :
        (before after : List (List A)) (t : List A) {a : A} {out : List A}
        → Merge (before ++ t ∷ after) out
        → Merge (before ++ (a ∷ t) ∷ after) (a ∷ out)

  flatten-append : (ts us : List (List A)) → flatten (ts ++ us) ≡ flatten ts ++ flatten us
  flatten-append [] us = refl
  flatten-append (t ∷ ts) us = rw (flatten-append ts us, append_assoc t) refl

  flatten-nil : (ts : List (List A)) → All (λ t. t ≡ []) ts → flatten ts ≡ []
  flatten-nil [] h = refl
  flatten-nil (t ∷ ts) (h, hs) = rw (h, flatten-nil ts hs) refl

  -- An interleaving does what the threads do, in some order.
  pub Merge-Perm : {ts : List (List A)} {out : List A} → Merge ts out → Perm (flatten ts) out
  Merge-Perm (finished {ts} h) = rw (flatten-nil ts h) (Perm.refl [])
  Merge-Perm (turn before after t {a} {out} m) =
      let h = Merge-Perm m in
      rw (flatten-append before ((a ∷ t) ∷ after)) (
        Perm.trans (perm_middle (flatten before) (t ++ flatten after))
          (Perm.cons a (rw (← flatten-append before (t ∷ after)) h)))

  -- A single thread does all that it does.
  pub alone : (t : List A) → Merge (t ∷ []) t
  alone [] = finished (refl, tt)
  alone (a ∷ t) = turn [] [] t (alone t)
