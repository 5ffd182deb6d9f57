-- ===== src/Cache/Queue.antt =====
-- The cache as one queue of bodies for each kind.
use mathlib.Core.List.{Sublist}
use mathlib.Core.List.Sublist
use monitor_agent.Base.{
  ℕ, ◌≡◌, refl, sym, ◌∙◌, true, false, none, some, List, [], ◌∷◌, ◌++◌, append-nil, arith,
  length-append, All, Bool-cases, Option-cases, ◌⊎◌, inl, inr, Text, lit, text_eq, text_eq_iff,
  text_ltb, text_ltb-StrictOrder, has_prefix, format_nat,
}
use monitor_agent.Cache.{File, Kind, metrics, logs, skipped, remove, write_file, taken, new_file}
use monitor_agent.Cache.Files.{Unused}
use monitor_agent.Cache.Bodies.{bodies, pass, take_in}
use monitor_agent.Cache.Sorted.{Before, IsSorted, Before-trans}

-- A file that holds no body of the kind, or stands before the name.
abbrev pub Earlier : Kind → Text → File → Type 0
Earlier kind n g = (taken kind g ≡ none) ⊎ (text_ltb g.name n ≡ true)

-- Behind the name there is no body.
bodies-behind :
    (kind : Kind) (n : Text) (fs : List File)
    → All (Before n) fs
    → All (Earlier kind n) fs
    → bodies kind fs ≡ []
unfolding bodies
bodies-behind kind n [] h k = refl
bodies-behind kind n (g ∷ gs) (h, hs) (k, ks) =
    ground (arith, text_ltb-StrictOrder.asym n g.name h, bodies-behind kind n gs hs ks)

bodies-cons :
    (kind : Kind) (g : File) (fs gs : List File) (behind : List Text)
    → bodies kind fs ≡ bodies kind gs ++ behind
    → bodies kind (g ∷ fs) ≡ bodies kind (g ∷ gs) ++ behind
unfolding bodies
bodies-cons kind g fs gs behind h = ground (arith, h)

pub bodies-write_file :
    (kind : Kind) (f : File) (body : Text) (fs : List File)
    → skipped f ≡ false
    → taken kind f ≡ some body
    → IsSorted fs
    → Unused f.name fs
    → All (Earlier kind f.name) fs
    → bodies kind (write_file f fs) ≡ bodies kind fs ++ body ∷ []
unfolding write_file
bodies-write_file kind f body [] s t o u e = take_in kind f [] body s t ∙ unfold bodies in refl
bodies-write_file kind f body (g ∷ gs) s t (o, os) (u, us) (e, es) =
    elim (Bool-cases (text_eq f.name g.name)) [
      | inl p ↦ absurd (u (sym ((text_eq_iff f.name g.name).0 p)))
      | inr p ↦ elim (Bool-cases (text_ltb f.name g.name)) [
        | inl l ↦
            let empty_behind =
              bodies-behind kind f.name (g ∷ gs) (l, Before-trans f.name g.name gs l o) (e, es) in
            rw (p, l, take_in kind f (g ∷ gs) body s t, empty_behind) refl
        | inr l ↦
            rw (p, l)
              (bodies-cons kind g (write_file f gs) gs (body ∷ [])
                (bodies-write_file kind f body gs s t os us es))
      ]
    ]

pub bodies-write_other :
    (kind : Kind) (f : File) (fs : List File)
    → taken kind f ≡ none
    → Unused f.name fs
    → bodies kind (write_file f fs) ≡ bodies kind fs
unfolding write_file
bodies-write_other kind f [] t u = pass kind f [] (inr t)
bodies-write_other kind f (g ∷ gs) t (u, us) = elim (Bool-cases (text_eq f.name g.name)) [
  | inl p ↦ absurd (u (sym ((text_eq_iff f.name g.name).0 p)))
  | inr p ↦ elim (Bool-cases (text_ltb f.name g.name)) [
    | inl l ↦ rw (p, l) (pass kind f (g ∷ gs) (inr t))
    | inr l ↦
        rw (p, l)
          (bodies-cons kind g (write_file f gs) gs []
              (bodies-write_other kind f gs t us ∙ sym (append-nil _))
            ∙ append-nil _)
  ]
]

Sublist-cons :
    (kind : Kind) (g : File) (fs gs : List File)
    → Sublist (bodies kind fs) (bodies kind gs)
    → Sublist (bodies kind fs) (bodies kind (g ∷ gs))
      × Sublist (bodies kind (g ∷ fs)) (bodies kind (g ∷ gs))
unfolding bodies
Sublist-cons kind g fs gs h = elim (Bool-cases (skipped g)) [
  | inl s ↦ rw s (h, h)
  | inr s ↦ elim (Option-cases (taken kind g)) [
    | inl t ↦ rw (s, t) (h, h)
    | inr (body, t) ↦ rw (s, t) (Sublist.cons body h, Sublist.cons-cons body h)
  ]
]

pub remove-Sublist :
    (kind : Kind) (name : Text) (fs : List File)
    → Sublist (bodies kind (remove name fs)) (bodies kind fs)
unfolding remove
remove-Sublist kind name [] = Sublist.refl _
remove-Sublist kind name (g ∷ gs) =
    let kept = remove-Sublist kind name gs in
    elim (Bool-cases (text_eq g.name name)) [
      | inl e ↦ rw e ((Sublist-cons kind g gs gs (Sublist.refl _)).0)
      | inr e ↦ rw e ((Sublist-cons kind g (remove name gs) gs kept).1)
    ]

-- The new file holds its body.
pub taken-new_file :
    (kind : Kind) (now size : ℕ) (raw : Text) → taken kind (new_file kind now size raw) ≡ some raw
unfolding taken lit text_eq has_prefix
taken-new_file metrics now size raw = ground (arith, length-append (format_nat now) (lit ".json"))
taken-new_file logs now size raw = ground (arith, length-append (format_nat now) (lit ".json"))
