-- ===== src/Cache/Pop.antt =====
-- `popKind`: which bodies it returns, and what it leaves.
use monitor_agent.Base.{
  ℕ, zero, suc, ◌-◌, ◌<◌, ◌≡◌, ◌≢◌, refl, sym, ap, ◌∙◌, true, false, none, some, List, [], ◌∷◌,
  ◌++◌, append-nil, append_assoc, arith, length, length-append, take, drop, Bool-cases,
  Option-cases, ◌⊎◌, inl, inr, Text, leb,
}
use monitor_agent.Base.Int.{pos, ◌-ℤ◌, int_laws, eq_of_parts}
use monitor_agent.Cache.{File, Cache, Kind, skipped, unlink, taken, pop_loop, pop_kind, save_index}
use monitor_agent.Cache.Files.{weight, In, total-remove, remove-IsDistinct}
use monitor_agent.Cache.Room.{IsAccounted, Removes, unlink-remove}
use monitor_agent.Cache.Bodies.{
  bodies, bodies-append, In-middle, remove-middle, taken_once, pass, take_in, pass_behind,
}

-- What the loop of `popKind` has done when it ends in `r`, with the files `fs` still to be read.
record Popped (kind : Kind) (limit : ℕ) (pre fs : List File) (out : List Text)
    (r : List Text × Cache) : Type 0 where
  popped : r.0 ≡ out ++ take (limit - length out) (bodies kind fs)
  left : bodies kind r.1.files ≡ bodies kind pre ++ drop (limit - length out) (bodies kind fs)
  others : (other : Kind) → other ≢ kind → bodies other r.1.files ≡ bodies other (pre ++ fs)
  accounted : IsAccounted r.1

step_over :
    (kind : Kind) (limit : ℕ) (pre : List File) (f : File) (fs : List File) (out : List Text)
    (r : List Text × Cache)
    → bodies kind (f ∷ fs) ≡ bodies kind fs
    → bodies kind (pre ++ f ∷ []) ≡ bodies kind pre
    → Popped kind limit (pre ++ f ∷ []) fs out r
    → Popped kind limit pre (f ∷ fs) out r
step_over kind limit pre f fs out r e e' p = record {
  popped = rw e p.popped;
  left = rw (e, ← e') p.left;
  others = λ other h. p.others other h ∙ ap (bodies other) (append_assoc pre (f ∷ []) fs);
  accounted = p.accounted;
}

-- The cache after one file has been taken.
abbrev less : Cache → File → Cache
less c f = record c { files = unlink c.disk f.name c.files; written = c.written -ℤ pos f.size }

less-IsAccounted :
    (c : Cache) (f : File)
    → skipped f ≡ false
    → In f c.files
    → Removes c.disk
    → IsAccounted c
    → IsAccounted (less c f)
less-IsAccounted c f s m x a = record {
  distinct =
      rw (unlink-remove c.disk f.name c.files x) (remove-IsDistinct f.name c.files a.distinct);
  counted =
      let w : weight f ≡ f.size = unfold weight in rw s in
      let sum = total-remove f c.files a.distinct m in
      rw (unlink-remove c.disk f.name c.files x, a.counted)
        (eq_of_parts _ _ (omega (int_laws, sum, w)));
}

take-nil : (n : ℕ) → take {A = Text} n [] ≡ []
take-nil zero = refl
take-nil (suc n) = refl

drop-nil : (n : ℕ) → drop {A = Text} n [] ≡ []
drop-nil zero = refl
drop-nil (suc n) = refl

ended :
    (kind : Kind) (limit : ℕ) (pre fs : List File) (out : List Text) (c : Cache)
    → c.files ≡ pre ++ fs
    → (take (limit - length out) (bodies kind fs) ≡ [])
    → (drop (limit - length out) (bodies kind fs) ≡ bodies kind fs)
    → IsAccounted c
    → Popped kind limit pre fs out (out, c)
ended kind limit pre fs out c e t d a = record {
  popped = rw (t, append-nil);
  left = rw (d, e) (bodies-append kind pre fs);
  others = λ other h. ap (bodies other) e;
  accounted = a;
}

took :
    (kind : Kind) (limit : ℕ) (pre : List File) (f : File) (fs : List File) (out : List Text)
    (body : Text) (r : List Text × Cache)
    → length out < limit
    → skipped f ≡ false
    → taken kind f ≡ some body
    → Popped kind limit pre fs (out ++ body ∷ []) r
    → Popped kind limit pre (f ∷ fs) out r
took kind limit pre f fs out body r room s t p =
    let n : limit - length out ≡ suc (limit - length (out ++ body ∷ [])) =
      omega (arith, length-append out (body ∷ [])) in
    record {
      popped = rw (take_in kind f fs body s t, n) (p.popped ∙ append_assoc out (body ∷ []) _);
      left = rw (take_in kind f fs body s t, n) p.left;
      others = λ other h.
          p.others other h
          ∙ bodies-append other pre fs
          ∙ ap (λ (l : List Text). bodies other pre ++ l)
              (sym (pass other f fs (inr (taken_once kind other f body h t))))
          ∙ sym (bodies-append other pre (f ∷ fs));
      accounted = p.accounted;
    }

pop_loop-Popped :
    (kind : Kind) (limit : ℕ) (pre fs : List File) (out : List Text) (c : Cache)
    → c.files ≡ pre ++ fs
    → Removes c.disk
    → IsAccounted c
    → Popped kind limit pre fs out (pop_loop kind limit fs out c)
unfolding pop_loop
pop_loop-Popped kind limit pre [] out c e x a =
    unfold bodies in
    ended kind limit pre [] out c e (take-nil (limit - length out)) (drop-nil (limit - length out))
      a
pop_loop-Popped kind limit pre (f ∷ fs) out c e x a =
    let e' : c.files ≡ (pre ++ f ∷ []) ++ fs = e ∙ sym (append_assoc pre (f ∷ []) fs) in
    let rest = pop_loop-Popped kind limit (pre ++ f ∷ []) fs out c e' x a in
    let over = λ (h : (skipped f ≡ true) ⊎ (taken kind f ≡ none)).
      step_over kind limit pre f fs out (pop_loop kind limit fs out c) (pass kind f fs h)
        (pass_behind kind pre f h) rest in
    elim (Bool-cases (skipped f)) [
      | inl s ↦ rw (s, pop_loop) (over (inl s))
      | inr s ↦ elim (Bool-cases (leb limit (length out))) [
        | inl full ↦
            let n : limit - length out ≡ 0 = ground arith in
            rw (s, full, pop_loop) (ended kind limit pre (f ∷ fs) out c e (rw n) (rw n) a)
        | inr room ↦ elim (Option-cases (taken kind f)) [
          | inl no_body ↦ rw (s, room, no_body, pop_loop) (over (inr no_body))
          | inr (body, t) ↦
              let m : In f c.files = rw e (In-middle pre f fs) in
              let d : unlink c.disk f.name c.files ≡ pre ++ fs =
                unlink-remove c.disk f.name c.files x
                ∙ rw e (remove-middle pre f fs (rw e at a.distinct)) in
              rw (s, room, t, pop_loop)
                (took kind limit pre f fs out body _ (ground arith) s t (
                  pop_loop-Popped kind limit pre fs (out ++ body ∷ []) (less c f) d x
                    (less-IsAccounted c f s m x a)))
        ]
      ]
    ]

save_index-IsAccounted : (c : Cache) → IsAccounted c → IsAccounted (save_index c).0
unfolding save_index
save_index-IsAccounted c a = elim (Bool-cases c.disk.index_ok) [
  | inl e ↦ simp e (record { distinct = a.distinct; counted = a.counted })
  | inr e ↦ simp e (record { distinct = a.distinct; counted = a.counted })
]

pub files-save_index : (c : Cache) → (save_index c).0.files ≡ c.files
unfolding save_index
files-save_index c = ground arith

module _ (kind : Kind) (limit : ℕ) (c : Cache) where
  pub listed :
      c.disk.list_ok ≡ true
      → pop_kind kind limit c ≡ (
        some (pop_loop kind limit c.files [] c).0,
        (save_index (pop_loop kind limit c.files [] c).1).0,
      )
  unfolding pop_kind
  listed ok = simp ok

  -- If the directory can be listed, each removal succeeds and the accounts are right, `popKind` returns the first `limit`
  -- bodies of its kind in the order of the directory, leaves the bodies behind them and those of the
  -- other kind, and the accounts are right again.
  pub pop_kind-takes :
      IsAccounted c
      → Removes c.disk
      → c.disk.list_ok ≡ true
      → ((pop_kind kind limit c).0 ≡ some (take limit (bodies kind c.files)))
        × (bodies kind (pop_kind kind limit c).1.files ≡ drop limit (bodies kind c.files))
        × ((other : Kind)
            → other ≢ kind
            → bodies other (pop_kind kind limit c).1.files ≡ bodies other c.files)
        × IsAccounted (pop_kind kind limit c).1
  pop_kind-takes a x ok =
      let p = pop_loop-Popped kind limit [] c.files [] c refl x a in
      let c' = (pop_loop kind limit c.files [] c).1 in
      let z : limit - 0 ≡ limit = omega arith in
      rw (listed ok, files-save_index c')
        (
          ap some (rw z at p.popped),
          (unfold bodies in rw z at p.left),
          p.others,
          save_index-IsAccounted c' p.accounted,
        )
