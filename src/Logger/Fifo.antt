-- ===== src/Logger/Fifo.antt =====
-- The buffer is a bounded queue: it holds the newest entries, and draining takes the oldest first.
use monitor_agent.Base.{
  ℕ, zero, suc, ◌+◌, ◌-◌, ◌≤◌, ◌≡◌, refl, false, List, [], ◌∷◌, ◌++◌, append_assoc, length, drop,
  length-append, length-drop, length-take, take-append-drop, append-nil, arith, leb, Bool-cases,
  inl, inr, sym, ap, ◌∙◌,
}
use monitor_agent.Base.Int.{ℤ, pos, pos_part, leb_ℤ}
use monitor_agent.Logger.{LogEntry, Log, max_entries, append_entry, drain_entries}

-- The last `n` members of a list.
abbrev pub newest {ℓ} : {A : Type ℓ} → ℕ → List A → List A
newest n xs = drop (length xs - n) xs

pub append_all : List LogEntry → Log → Log
append_all [] s = s
append_all (e ∷ es) s = append_all es (append_entry e s)

drop-nil {ℓ} : {A : Type ℓ} (n : ℕ) → drop {A = A} n [] ≡ []
drop-nil zero = refl
drop-nil (suc n) = refl

drop-drop {ℓ} : {A : Type ℓ} (m n : ℕ) (xs : List A) → drop m (drop n xs) ≡ drop (n + m) xs
drop-drop m zero xs = ap (λ k. drop k xs) (omega arith)
drop-drop m (suc n) [] = drop-nil m ∙ sym (drop-nil (suc n + m))
drop-drop m (suc n) (x ∷ xs) =
    let e : suc n + m ≡ suc (n + m) = omega arith in rw e (drop-drop m n xs)

drop-append {ℓ} :
    {A : Type ℓ} (n : ℕ) (xs ys : List A) → n ≤ length xs → drop n (xs ++ ys) ≡ drop n xs ++ ys
drop-append zero xs ys h = refl
drop-append (suc n) [] ys h = absurd (omega arith)
drop-append (suc n) (x ∷ xs) ys h = drop-append n xs ys (omega arith)

newest-append {ℓ} :
    {A : Type ℓ} (n : ℕ) (xs ys : List A) → newest n (newest n xs ++ ys) ≡ newest n (xs ++ ys)
newest-append n xs ys =
    let k = length xs - n in
    let a = length (drop k xs ++ ys) - n in
    ap (λ l. drop a l) (sym (drop-append k xs ys (omega arith)))
    ∙ drop-drop a k (xs ++ ys)
    ∙ ap (λ i. drop i (xs ++ ys))
        (omega (arith, length-append (drop k xs) ys, length-append xs ys, length-drop k xs))

entries-append_entry :
    (e : LogEntry) (s : Log)
    → length s.entries ≤ max_entries
    → (append_entry e s).entries ≡ newest max_entries (s.entries ++ e ∷ [])
unfolding append_entry
entries-append_entry e s h = elim (Bool-cases (leb max_entries (length s.entries))) [
  | inl full ↦
      let n : length (s.entries ++ e ∷ []) - max_entries ≡ 1 =
        ground (arith, length-append s.entries (e ∷ [])) in
      simp full (rw n (sym (drop-append 1 s.entries (e ∷ []) (ground arith))))
  | inr room ↦
      let n : length (s.entries ++ e ∷ []) - max_entries ≡ 0 =
        ground (arith, length-append s.entries (e ∷ [])) in
      simp room (rw n)
]

-- A buffer within its bound holds the newest 1000 of what it held and what was buffered, in order.
pub append_all_lem :
    (es : List LogEntry) (s : Log)
    → length s.entries ≤ max_entries
    → (append_all es s).entries ≡ newest max_entries (s.entries ++ es)
unfolding append_all
append_all_lem [] s h =
    let n : length s.entries - max_entries ≡ 0 = omega arith in rw (append-nil, n)
append_all_lem (e ∷ es) s h =
    let p = entries-append_entry e s h in
    append_all_lem es (append_entry e s) (
      rw p (
        omega
          (arith, length-drop (length (s.entries ++ e ∷ []) - max_entries) (s.entries ++ e ∷ []))))
    ∙ (rw (p, newest-append max_entries (s.entries ++ e ∷ []) es, append_assoc))

-- Draining returns entries from the front, no more than a positive limit, and leaves the rest.
pub drain_entries_lem :
    (limit : ℤ) (s : Log)
    → ((drain_entries limit s).0 ++ (drain_entries limit s).1.entries ≡ s.entries)
      × (leb_ℤ limit (pos 0) ≡ false → length (drain_entries limit s).0 ≤ pos_part limit)
      × ((drain_entries limit s).1.sequence ≡ s.sequence)
unfolding drain_entries
drain_entries_lem limit s = ground (
  arith,
  append-nil s.entries,
  take-append-drop (pos_part limit) s.entries,
  length-take (pos_part limit) s.entries,
)
