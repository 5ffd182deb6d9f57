-- ===== src/Collector/Fingerprint.antt =====
-- internal/collector/openclaw.go: `AgentsFingerprint`, by which the heartbeat sees that the agents
-- have changed. `sort.Slice` gives the one sorted arrangement, since two items that are not ordered
-- are equal; the model inserts them one by one.
pub mod Order
use monitor_agent.Base.{
  Bool, Option, none, some, List, [], ◌∷◌, Text, empty, is_empty, text_eq, text_ltb, trim_space,
  insert_sorted, if◌then◌else◌,
}
use monitor_agent.Collector.Agents.{Agent}

-- `item`: the id and the name of an agent
abbrev pub Item : Type 0
Item = Text × Text

-- the comparison of `sort.Slice`
unfoldable pub item_less : Item → Item → Bool
item_less a b = if text_eq a.0 b.0 then text_ltb a.1 b.1 else text_ltb a.0 b.0

-- the loop that fills `snapshot`
unfoldable pub snapshot : List Agent → List Item
snapshot [] = []
snapshot (a ∷ agents) =
    let rest = snapshot agents in
    if is_empty (trim_space a.id) then rest else (trim_space a.id, trim_space a.name) ∷ rest

unfoldable pub sort_items : List Item → List Item
unfolding insert_sorted item_less
sort_items [] = []
sort_items (i ∷ is) = insert_sorted item_less i (sort_items is)

-- `AgentsFingerprint`; `sha1` gives the digest in hexadecimal digits.
module _ (marshal : List Item → Option Text) (sha1 : Text → Text) where
  unfoldable pub digest : List Item → Text
  digest [] = empty
  digest (i ∷ is) = elim (marshal (i ∷ is)) [ none ↦ empty | some bytes ↦ sha1 bytes ]

  unfoldable pub agents_fingerprint : List Agent → Text
  unfolding digest sort_items snapshot
  agents_fingerprint agents = digest (sort_items (snapshot agents))
