-- ===== src/Collector/Fingerprint/Order.antt =====
-- The fingerprint forgets the order of the agents.
use mathlib.Core.List.{foldr, Perm}
use mathlib.Core.List.Perm
use monitor_agent.Base.{
  ◌≡◌, refl, sym, ap, ◌∙◌, arith, inl, inr, Bool-cases, Option, List, [], ◌∷◌, Text, is_empty,
  text_eq_iff, text_ltb-StrictOrder, StrictOrder, trim_space, insert_sorted, insert_sorted_comm,
  if◌then◌else◌,
}
use monitor_agent.Collector.Agents.{Agent}
use monitor_agent.Collector.Fingerprint.{
  Item, item_less, snapshot, sort_items, digest, agents_fingerprint,
}

item_less-StrictOrder : StrictOrder item_less
unfolding item_less
item_less-StrictOrder = record {
  asym = λ a b h. ground (
    arith,
    text_eq_iff a.0 b.0,
    text_eq_iff b.0 a.0,
    text_ltb-StrictOrder.asym a.0 b.0,
    text_ltb-StrictOrder.asym a.1 b.1,
  );
  split_at = λ a b c h. ground (
    arith,
    text_eq_iff a.0 b.0,
    text_eq_iff b.0 c.0,
    text_eq_iff a.0 c.0,
    text_ltb-StrictOrder.split_at a.0 b.0 c.0,
    text_ltb-StrictOrder.split_at a.1 b.1 c.1,
    text_ltb-StrictOrder.total a.0 b.0,
    text_ltb-StrictOrder.total b.0 c.0,
  );
  total = λ a b h k.
      (let e0 : a.0 ≡ b.0 =
          ground
            (arith, text_eq_iff a.0 b.0, text_eq_iff b.0 a.0, text_ltb-StrictOrder.total a.0 b.0) in
        let e1 : a.1 ≡ b.1 = ground (
          arith,
          e0,
          text_eq_iff a.0 b.0,
          text_eq_iff b.0 a.0,
          text_ltb-StrictOrder.total a.1 b.1,
        ) in
        λ i. (e0 i, e1 i));
}

-- an agent put into the sorted items
add_agent : Agent → List Item → List Item
add_agent a items =
    if is_empty (trim_space a.id)
    then items
    else insert_sorted item_less (trim_space a.id, trim_space a.name) items

add_agent_comm :
    (a b : Agent) (items : List Item)
    → add_agent a (add_agent b items) ≡ add_agent b (add_agent a items)
unfolding add_agent
add_agent_comm a b items = elim (Bool-cases (is_empty (trim_space a.id))) [
  | inl x ↦ rw x refl
  | inr x ↦ elim (Bool-cases (is_empty (trim_space b.id))) [
    | inl y ↦ rw y refl
    | inr y ↦
        rw (x, y)
          (insert_sorted_comm item_less item_less-StrictOrder (trim_space a.id, trim_space a.name)
            (trim_space b.id, trim_space b.name) items)
  ]
]

sort_items-snapshot :
    (agents : List Agent) → sort_items (snapshot agents) ≡ foldr add_agent [] agents
unfolding sort_items snapshot add_agent
sort_items-snapshot [] = refl
sort_items-snapshot (a ∷ agents) = elim (Bool-cases (is_empty (trim_space a.id))) [
  | inl x ↦ simp x (sort_items-snapshot agents)
  | inr x ↦ simp x (
      ap (insert_sorted item_less (trim_space a.id, trim_space a.name))
        (sort_items-snapshot agents))
]

-- Agents in another order have the same fingerprint.
pub agents_fingerprint-Perm :
    (marshal : List Item → Option Text) (sha1 : Text → Text) (xs ys : List Agent)
    → Perm xs ys
    → agents_fingerprint marshal sha1 xs ≡ agents_fingerprint marshal sha1 ys
unfolding agents_fingerprint
agents_fingerprint-Perm marshal sha1 xs ys p =
    let sorted : sort_items (snapshot xs) ≡ sort_items (snapshot ys) =
      sort_items-snapshot xs
      ∙ (Perm.foldr-eq (hlevel) add_agent add_agent_comm p [] ∙ sym (sort_items-snapshot ys)) in
    ap (digest marshal sha1) sorted
