-- ===== src/Command/Reply.antt =====
-- `extractAgentReply` and `findReplyString` of internal/command/executor.go.
pub mod First
use monitor_agent.Base.{
  ℕ, zero, suc, ◌≡◌, refl, false, Option, none, some, List, [], ◌∷◌, Text, lit, empty, is_empty,
  trim_space, if◌then◌else◌, Bool-cases, Option-cases, inl, inr, ◌⊎◌,
}
use monitor_agent.Command.Json.{
  Json, Items, Fields, null, boolean, num, text, arr, obj, nil, cons, end, field, lookup,
}

-- The first answer that is not "".
abbrev or_else : Text → Text → Text
or_else r rest = if is_empty r then rest else r

module _ (find : Json → Text) where
  -- `for _, key := range keys { if raw, ok := value[key]; ok … }`
  first_key : List Text → Fields → Text
  first_key [] fields = empty
  first_key (k ∷ ks) fields =
      or_else (elim (lookup k fields) [ none ↦ empty | some raw ↦ find raw ]) (first_key ks fields)

  first_item : Items → Text
  first_item nil = empty
  first_item (cons v vs) = or_else (find v) (first_item vs)

  -- the last resort: only nested containers
  first_container : Fields → Text
  first_container end = empty
  first_container (field k (obj fs) rest) = or_else (find (obj fs)) (first_container rest)
  first_container (field k (arr vs) rest) = or_else (find (arr vs)) (first_container rest)
  first_container (field k _ rest) = first_container rest

abbrev payload_keys : List Text
payload_keys = lit "payloads" ∷ lit "messages" ∷ lit "choices" ∷ []

abbrev reply_keys : List Text
reply_keys =
    lit "reply" ∷ lit "message" ∷ lit "output" ∷ lit "result" ∷ lit "content" ∷ lit "text" ∷ []

abbrev data_keys : List Text
data_keys = lit "data" ∷ lit "response" ∷ lit "assistant" ∷ lit "payload" ∷ lit "result" ∷ []

module _ (parse_json : Text → Option Json) where
  -- `findReplyString`: `n` is 9 less the depth, so that `depth > 8` is the case zero.
  unfoldable pub find_reply : ℕ → Json → Text
  unfolding first_key first_item first_container
  find_reply zero v = empty
  find_reply (suc n) (text s) =
      let value = trim_space s in
      if is_empty value then empty else elim (parse_json value) [
        | none ↦ value
        | some nested ↦ let reply = find_reply n nested in if is_empty reply then value else reply
      ]
  find_reply (suc n) (obj fields) = or_else (first_key (find_reply n) payload_keys fields) (
      or_else (first_key (find_reply n) reply_keys fields) (
        or_else (first_key (find_reply n) data_keys fields)
          (first_container (find_reply n) fields)))
  find_reply (suc n) (arr items) = first_item (find_reply n) items
  find_reply (suc n) _ = empty

  -- `extractAgentReply`
  unfoldable pub extract_agent_reply : Text → Text
  unfolding find_reply
  extract_agent_reply raw =
      let out = trim_space raw in
      if is_empty out
      then out
      else elim (parse_json out) [ none ↦ out | some payload ↦ or_else (find_reply 9 payload) out ]

module _ (parse_json : Text → Option Json) where
  is_empty-or_else : (r rest : Text) → is_empty rest ≡ false → is_empty (or_else r rest) ≡ false
  is_empty-or_else [] rest h = h
  is_empty-or_else (c ∷ r) rest h = refl

  -- A reply is extracted from every output that is not blank, and "" from a blank one.
  pub is_empty-extract_agent_reply :
      (raw : Text) → is_empty (extract_agent_reply parse_json raw) ≡ is_empty (trim_space raw)
  unfolding extract_agent_reply
  is_empty-extract_agent_reply raw = elim (Bool-cases (is_empty (trim_space raw))) [
    | inl blank ↦ rw blank blank
    | inr filled ↦ elim (Option-cases (parse_json (trim_space raw))) [
      | inl plain ↦ rw (filled, plain) filled
      | inr (v, e) ↦
          rw (filled, e) (is_empty-or_else (find_reply parse_json 9 v) (trim_space raw) filled)
    ]
  ]
