-- ===== src/Logger/Threads/Numbers.antt =====
-- Every entry has a number of its own.
use mathlib.Core.List.{Perm, perm_middle, perm_append_comm}
use mathlib.Core.List.Perm
use monitor_agent.Base.{
  ℕ, zero, suc, ◌+◌, ◌≡◌, refl, arith, List, [], ◌∷◌, ◌++◌, map, append_assoc, length, leb,
  Bool-cases, inl, inr,
}
use monitor_agent.Base.Int.{ℤ}
use monitor_agent.Logger.{LogEntry, Log, max_entries, tail, claim, append_entry, drain_entries}
use monitor_agent.Logger.Fifo.{drain_entries_lem}
use monitor_agent.Logger.Threads.{
  first_of, dropped, Threads, Step, claim_number, append, drain, Reach, begin, later,
}

-- n, …, 1
abbrev pub numbers : ℕ → List ℕ
numbers zero = []
numbers (suc n) = suc n ∷ numbers n

abbrev pub number_of : LogEntry → ℕ
number_of e = e.sequence

-- The numbers of the calls under way, and those of the entries.
abbrev pub used : Threads → List ℕ
used t = t.claimed ++ map number_of (t.log.entries ++ t.gone)

numbers-add : (n : ℕ) → numbers (n + 1) ≡ (n + 1) ∷ numbers n
numbers-add n = let e : n + 1 ≡ suc n = omega arith in rw e refl

claim-Perm :
    (t : Threads)
    → Perm (numbers t.log.sequence) (used t)
    → Perm
        (numbers (claim t.log).1.sequence)
        ((claim t.log).0 ∷ t.claimed ++ map number_of ((claim t.log).1.entries ++ t.gone))
unfolding claim
claim-Perm t h = rw (numbers-add t.log.sequence) (Perm.cons (t.log.sequence + 1) h)

swapped : (xs ys zs : List LogEntry) → Perm ((xs ++ ys) ++ zs) (ys ++ (xs ++ zs))
swapped xs ys zs = rw (← append_assoc ys xs zs) (Perm.append_right zs (perm_append_comm xs ys))

placed :
    (e : LogEntry) (lost kept gone : List LogEntry)
    → Perm (e ∷ ((lost ++ kept) ++ gone)) ((kept ++ e ∷ []) ++ (lost ++ gone))
placed e lost kept gone = rw (append_assoc kept (e ∷ []) (lost ++ gone)) (
    Perm.trans (Perm.cons e (swapped lost kept gone)) (Perm.symm (perm_middle kept (lost ++ gone))))

first-tail : (es : List LogEntry) → first_of es ++ tail es ≡ es
first-tail [] = refl
first-tail (e ∷ es) = refl

-- With a new entry and without the dropped one, these are the old entries and the new one.
append-Perm :
    (e : LogEntry) (s : Log) (gone : List LogEntry)
    → Perm (e ∷ (s.entries ++ gone)) ((append_entry e s).entries ++ (dropped s ++ gone))
unfolding append_entry
append-Perm e s gone = elim (Bool-cases (leb max_entries (length s.entries))) [
  | inl full ↦
      let p = placed e (first_of s.entries) (tail s.entries) gone in
      rw full (rw (first-tail s.entries) at p)
  | inr room ↦ rw room (placed e [] s.entries gone)
]

drain-Perm :
    (limit : ℤ) (s : Log) (gone : List LogEntry)
    → Perm
        (s.entries ++ gone)
        ((drain_entries limit s).1.entries ++ ((drain_entries limit s).0 ++ gone))
drain-Perm limit s gone =
    let (all, _, _) = drain_entries_lem limit s in
    rw all at (swapped (drain_entries limit s).0 (drain_entries limit s).1.entries gone)

same_sequence : (e : LogEntry) (s : Log) → (append_entry e s).sequence ≡ s.sequence
unfolding append_entry
same_sequence e s = refl

append-used :
    (t : Threads) (before after : List ℕ) (e : LogEntry)
    → t.claimed ≡ before ++ e.sequence ∷ after
    → Perm (used t) (
        (before ++ after)
        ++ map number_of ((append_entry e t.log).entries ++ (dropped t.log ++ t.gone)))
append-used t before after e c =
    let all = map number_of (t.log.entries ++ t.gone) in
    rw c (
      Perm.trans (Perm.append_right all (perm_middle before after)) (
        Perm.trans (Perm.symm (perm_middle (before ++ after) all))
          (Perm.append_left (before ++ after) (Perm.map number_of (append-Perm e t.log t.gone)))))

Step-Perm :
    {s t : Threads}
    → Perm (numbers s.log.sequence) (used s)
    → Step s t
    → Perm (numbers t.log.sequence) (used t)
Step-Perm {s} h claim_number = claim-Perm s h
Step-Perm {s} h (append before after e c) =
    rw (same_sequence e s.log) (Perm.trans h (append-used s before after e c))
Step-Perm {s} h (drain limit) =
    let (_, _, same) = drain_entries_lem limit s.log in
    rw same (
      Perm.trans h
        (Perm.append_left s.claimed (Perm.map number_of (drain-Perm limit s.log s.gone))))

-- In any interleaving, the numbers 1 to `sequence` are shared out, each of them once, among the calls
-- of `buffer` that have not appended their entry and the entries that are buffered, drained or
-- dropped.
pub Reach-Perm : {t : Threads} → Reach t → Perm (numbers t.log.sequence) (used t)
Reach-Perm begin = Perm.refl []
Reach-Perm (later r s) = Step-Perm (Reach-Perm r) s
