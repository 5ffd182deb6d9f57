-- ===== src/Cache/Bodies.antt =====
-- The bodies of one kind that the files of the cache hold.
use monitor_agent.Base.{
  ◌≡◌, ◌≢◌, refl, sym, ap, ◌∙◌, true, false, none, some, List, [], ◌∷◌, ◌++◌, append-nil, arith,
  Option-cases, if◌then◌else◌, ◌⊎◌, inl, inr, lit, text_eq_refl, text_eq_iff, Text,
}
use monitor_agent.Cache.{File, Entry, Kind, metrics, logs, skipped, remove, taken, kind_text}
use monitor_agent.Cache.Files.{In, Unused, IsDistinct}

-- The bodies of one kind that a directory holds, in its order.
unfoldable pub bodies : Kind → List File → List Text
bodies kind [] = []
bodies kind (f ∷ fs) =
    if skipped f
    then bodies kind fs
    else elim (taken kind f) [ none ↦ bodies kind fs | some body ↦ body ∷ bodies kind fs ]

pub bodies-append :
    (kind : Kind) (fs gs : List File) → bodies kind (fs ++ gs) ≡ bodies kind fs ++ bodies kind gs
unfolding bodies
bodies-append kind [] gs = refl
bodies-append kind (f ∷ fs) gs = ground (arith, bodies-append kind fs gs)

Unused-middle :
    (n : Text) (pre : List File) (f : File) (fs : List File) → Unused n (pre ++ f ∷ fs) → f.name ≢ n
Unused-middle n [] f fs (h, hs) = h
Unused-middle n (g ∷ gs) f fs (h, hs) = Unused-middle n gs f fs hs

pub In-middle : (pre : List File) (f : File) (fs : List File) → In f (pre ++ f ∷ fs)
In-middle [] f fs = inl refl
In-middle (g ∷ gs) f fs = inr (In-middle gs f fs)

-- Removing a file by its name takes out that file, where names are distinct.
pub remove-middle :
    (pre : List File) (f : File) (fs : List File)
    → IsDistinct (pre ++ f ∷ fs)
    → remove f.name (pre ++ f ∷ fs) ≡ pre ++ fs
unfolding remove
remove-middle [] f fs d = rw (text_eq_refl f.name)
remove-middle (g ∷ gs) f fs (u, d) =
    ground
      (arith, text_eq_iff g.name f.name, Unused-middle g.name gs f fs u, remove-middle gs f fs d)

taken-kind :
    (kind : Kind) (f : File) (body : Text)
    → taken kind f ≡ some body
    → (e : Entry) × (f.entry ≡ some e) × (e.kind ≡ kind_text kind)
unfolding taken
taken-kind kind f body h = elim (Option-cases f.entry) [
  | inl missing ↦ absurd (ground arith)
  | inr (e, p) ↦ (e, p, ground (arith, text_eq_iff e.kind (kind_text kind)))
]

taken-none :
    (kind : Kind) (f : File) (e : Entry)
    → f.entry ≡ some e
    → e.kind ≢ kind_text kind
    → taken kind f ≡ none
unfolding taken
taken-none kind f e p h = ground (arith, text_eq_iff e.kind (kind_text kind))

kind_text-ne : (kind other : Kind) → other ≢ kind → kind_text kind ≢ kind_text other
unfolding lit
kind_text-ne metrics metrics h e = absurd (h refl)
kind_text-ne logs logs h e = absurd (h refl)
kind_text-ne metrics logs h e = cc
kind_text-ne logs metrics h e = cc

-- A file that one kind takes is not taken by another.
pub taken_once :
    (kind other : Kind) (f : File) (body : Text)
    → other ≢ kind
    → taken kind f ≡ some body
    → taken other f ≡ none
taken_once kind other f body h e =
    let (entry, p, k) = taken-kind kind f body e in
    taken-none other f entry p (λ q. kind_text-ne kind other h (sym k ∙ q))

pub pass :
    (kind : Kind) (f : File) (fs : List File)
    → (skipped f ≡ true) ⊎ (taken kind f ≡ none)
    → bodies kind (f ∷ fs) ≡ bodies kind fs
unfolding bodies
pass kind f fs h = ground arith

pub take_in :
    (kind : Kind) (f : File) (fs : List File) (body : Text)
    → skipped f ≡ false
    → taken kind f ≡ some body
    → bodies kind (f ∷ fs) ≡ body ∷ bodies kind fs
unfolding bodies
take_in kind f fs body h e = ground arith

pub pass_behind :
    (kind : Kind) (pre : List File) (f : File)
    → (skipped f ≡ true) ⊎ (taken kind f ≡ none)
    → bodies kind (pre ++ f ∷ []) ≡ bodies kind pre
pass_behind kind pre f h =
    bodies-append kind pre (f ∷ [])
    ∙ ap (λ (l : List Text). bodies kind pre ++ l) (pass kind f [] h)
    ∙ (unfold bodies in append-nil (bodies kind pre))
