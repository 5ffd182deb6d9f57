-- ===== src/Collector/Cells/Names.antt =====
-- `parseAgentIDAndName` reads back the cell that the CLI prints for an agent with a name.
use monitor_agent.Base.{
  ℕ, ◌-◌, ◌≡◌, refl, ap, true, false, some, [], ◌∷◌, ◌++◌, arith, length, length-append,
  append_assoc, drop, take, All, Text, lit, is_empty, has_prefix, is_space, text_eq_refl,
  trim_space, trim_space_framed, ◌==◌,
}
use monitor_agent.Collector.Words.{has_suffix, cut}
use monitor_agent.Collector.Cells.{drop_paren, parse_agent_id_and_name}

-- no opening parenthesis in the text
abbrev pub IsOpen : Text → Type 0
IsOpen = All (λ c. (c == b'(') ≡ false)

cut-cons :
    (sep : Text) (c : ℕ) (s front behind : Text)
    → has_prefix (c ∷ s) sep ≡ false
    → cut sep s ≡ some (front, behind)
    → cut sep (c ∷ s) ≡ some (c ∷ front, behind)
unfolding cut
cut-cons sep c s front behind h e = rw (h, e) refl

-- A parenthesis does not follow.
not_here : (c d : ℕ) (s : Text) → (d == b'(') ≡ false → has_prefix (c ∷ d ∷ s) (lit " (") ≡ false
unfolding has_prefix lit
not_here c d s h = ground arith

cut-append :
    (id rest : Text) → IsOpen id → cut (lit " (") (id ++ (lit " (" ++ rest)) ≡ some (id, rest)
cut-append [] rest h = unfold cut lit has_prefix in refl
cut-append (c ∷ []) rest (h, hs) =
    cut-cons (lit " (") c (lit " (" ++ rest) [] rest (unfold lit has_prefix in ground arith)
      (cut-append [] rest tt)
cut-append (c ∷ d ∷ s) rest (h, (k, hs)) =
    cut-cons (lit " (") c ((d ∷ s) ++ (lit " (" ++ rest)) (d ∷ s) rest
      (not_here c d (s ++ (lit " (" ++ rest)) k) (cut-append (d ∷ s) rest (k, hs))

take-append : (s t : Text) → take (length s) (s ++ t) ≡ s
take-append [] t = refl
take-append (c ∷ s) t = ap (λ l. c ∷ l) (take-append s t)

drop-append : (s t : Text) → drop (length s) (s ++ t) ≡ t
drop-append [] t = refl
drop-append (c ∷ s) t = drop-append s t

less_one : (name : Text) → length (name ++ b')' ∷ []) - 1 ≡ length name
less_one name = omega (arith, length-append name (b')' ∷ []))

closed : (name : Text) → has_suffix (name ++ b')' ∷ []) (b')' ∷ []) ≡ true
unfolding has_suffix
closed name =
    rw (less_one name, drop-append name (b')' ∷ []), text_eq_refl (b')' ∷ []))
      (ground (arith, length-append name (b')' ∷ [])))

drop_paren-closed : (name : Text) → trim_space name ≡ name → drop_paren (name ++ lit ")") ≡ name
unfolding drop_paren lit
drop_paren-closed name h = rw (closed name, less_one name, take-append name (b')' ∷ [])) h

trim_space-closed :
    (name : Text) → trim_space name ≡ name → trim_space (name ++ lit ")") ≡ name ++ lit ")"
unfolding lit
trim_space-closed [] h = unfold trim_space in refl
trim_space-closed (c ∷ s) h = trim_space_framed (c ∷ s) [] b')' h refl (unfold is_space in refl)

trim_space-cell :
    (id name : Text)
    → trim_space id ≡ id
    → is_empty id ≡ false
    → trim_space (id ++ (lit " (" ++ (name ++ lit ")"))) ≡ id ++ (lit " (" ++ (name ++ lit ")"))
trim_space-cell id name h k =
    rw (← append_assoc (lit " (") name (lit ")"))
      (unfold lit in trim_space_framed id (lit " (" ++ name) b')' h k (unfold is_space in refl))

-- The cell `id (name)` is read as that identifier and that name, where both are trimmed, the
-- identifier is not empty, and it holds no opening parenthesis.
pub parse_agent_id_and_name_printed :
    (id name : Text)
    → trim_space id ≡ id
    → is_empty id ≡ false
    → IsOpen id
    → trim_space name ≡ name
    → parse_agent_id_and_name (id ++ (lit " (" ++ (name ++ lit ")"))) ≡ (id, name)
unfolding parse_agent_id_and_name
parse_agent_id_and_name_printed id name h k o n =
    rw
      (
        parse_agent_id_and_name,
        trim_space-cell id name h k,
        cut-append id (name ++ lit ")") o,
        k,
        h,
        trim_space-closed name n,
        drop_paren-closed name n,
      )
      refl
