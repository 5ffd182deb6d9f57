-- ===== src/Command/Reply/First.antt =====
-- The search of internal/command/executor.go for a reply, against the list of all that it could find.
use monitor_agent.Base.{
  ℕ, zero, suc, ◌≡◌, refl, sym, ap, ◌∙◌, false, Option, none, some, List, [], ◌∷◌, ◌++◌,
  append_assoc, Text, lit, empty, is_empty, trim_space, All, All-append, Bool-cases, Option-cases,
  inl, inr, if◌then◌else◌,
}
use monitor_agent.Command.Json.{
  Json, null, boolean, num, text, arr, obj, Items, nil, cons, Fields, end, field, lookup,
}
use monitor_agent.Command.Reply.{
  or_else, first_key, first_item, first_container, payload_keys, reply_keys, data_keys, find_reply,
}

-- the keys of an object, in the order in which they are tried
abbrev pub all_keys : List Text
all_keys =
    lit "payloads"
    ∷ lit "messages"
    ∷ lit "choices"
    ∷ lit "reply"
    ∷ lit "message"
    ∷ lit "output"
    ∷ lit "result"
    ∷ lit "content"
    ∷ lit "text"
    ∷ lit "data"
    ∷ lit "response"
    ∷ lit "assistant"
    ∷ lit "payload"
    ∷ lit "result"
    ∷ []

module _ (all : Json → List Text) where
  unfoldable at_keys : List Text → Fields → List Text
  at_keys [] fs = []
  at_keys (k ∷ ks) fs = elim (lookup k fs) [ none ↦ [] | some v ↦ all v ] ++ at_keys ks fs

  unfoldable in_items : Items → List Text
  in_items nil = []
  in_items (cons v vs) = all v ++ in_items vs

  unfoldable in_containers : Fields → List Text
  in_containers end = []
  in_containers (field k (obj gs) fs) = all (obj gs) ++ in_containers fs
  in_containers (field k (arr vs) fs) = all (arr vs) ++ in_containers fs
  in_containers (field k _ fs) = in_containers fs

abbrev pub first_of : List Text → Text
first_of [] = empty
first_of (t ∷ ts) = t

abbrev pub Filled : Text → Type 0
Filled t = is_empty t ≡ false

-- `r` is the first of the texts, none of which is "".
abbrev Finds : Text → List Text → Type 0
Finds r ts = (r ≡ first_of ts) × All Filled ts

or_else-Finds :
    (r s : Text) (ts us : List Text) → Finds r ts → Finds s us → Finds (or_else r s) (ts ++ us)
or_else-Finds r s [] us (h, hs) (k, ks) = rw h (k, ks)
or_else-Finds r s ([] ∷ ts) us (h, (f, fs)) (k, ks) = absurd (cc)
or_else-Finds r s ((c ∷ t) ∷ ts) us (h, fs) (k, ks) =
    rw h (refl, All-append Filled ((c ∷ t) ∷ ts) us fs ks)

module _ (find : Json → Text) (all : Json → List Text)
    (finds : (v : Json) → Finds (find v) (all v)) where
  at_key-Finds :
      (o : Option Json)
      → Finds (elim o [ none ↦ empty | some v ↦ find v ]) (elim o [ none ↦ [] | some v ↦ all v ])
  at_key-Finds none = (refl, tt)
  at_key-Finds (some v) = finds v

  first_key-Finds :
      (ks : List Text) (fs : Fields) → Finds (first_key find ks fs) (at_keys all ks fs)
  unfolding first_key at_keys
  first_key-Finds [] fs = (refl, tt)
  first_key-Finds (k ∷ ks) fs =
      or_else-Finds _ _ _ _ (at_key-Finds (lookup k fs)) (first_key-Finds ks fs)

  first_item-Finds : (vs : Items) → Finds (first_item find vs) (in_items all vs)
  unfolding first_item in_items
  first_item-Finds nil = (refl, tt)
  first_item-Finds (cons v vs) = or_else-Finds _ _ _ _ (finds v) (first_item-Finds vs)

  first_container-Finds : (fs : Fields) → Finds (first_container find fs) (in_containers all fs)
  unfolding first_container in_containers
  first_container-Finds end = (refl, tt)
  first_container-Finds (field k (obj gs) fs) =
      or_else-Finds _ _ _ _ (finds (obj gs)) (first_container-Finds fs)
  first_container-Finds (field k (arr vs) fs) =
      or_else-Finds _ _ _ _ (finds (arr vs)) (first_container-Finds fs)
  first_container-Finds (field k null fs) = first_container-Finds fs
  first_container-Finds (field k (boolean b) fs) = first_container-Finds fs
  first_container-Finds (field k (num n) fs) = first_container-Finds fs
  first_container-Finds (field k (text s) fs) = first_container-Finds fs

at_keys-append :
    (all : Json → List Text) (ks ls : List Text) (fs : Fields)
    → at_keys all (ks ++ ls) fs ≡ at_keys all ks fs ++ at_keys all ls fs
unfolding at_keys
at_keys-append all [] ls fs = refl
at_keys-append all (k ∷ ks) ls fs =
    let here : List Text = elim (lookup k fs) [ none ↦ [] | some v ↦ all v ] in
    ap (λ (l : List Text). here ++ l) (at_keys-append all ks ls fs)
    ∙ sym (append_assoc here (at_keys all ks fs) (at_keys all ls fs))

module _ (parse_json : Text → Option Json) where
  -- All texts that may be read as the reply of a value, the preferred ones first: what a text decodes
  -- to before the text itself, the members of an object under its known keys before those that are
  -- objects or arrays, the members of an array in order. The depth is `n` at most.
  unfoldable pub candidates : ℕ → Json → List Text
  unfolding at_keys in_items in_containers
  candidates zero v = []
  candidates (suc n) (text s) =
      if is_empty (trim_space s) then [] else elim (parse_json (trim_space s)) [
        | none ↦ trim_space s ∷ []
        | some v ↦ candidates n v ++ trim_space s ∷ []
      ]
  candidates (suc n) (obj fs) =
      at_keys (candidates n) all_keys fs ++ in_containers (candidates n) fs
  candidates (suc n) (arr vs) = in_items (candidates n) vs
  candidates (suc n) _ = []

  obj-Finds :
      (find : Json → Text) (all : Json → List Text) (fs : Fields)
      → ((v : Json) → Finds (find v) (all v))
      → Finds
          (or_else (first_key find payload_keys fs) (
            or_else
              (first_key find reply_keys fs)
              (or_else (first_key find data_keys fs) (first_container find fs))))
          (at_keys all all_keys fs ++ in_containers all fs)
  obj-Finds find all fs finds =
      let p = first_key-Finds find all finds payload_keys fs in
      let r = first_key-Finds find all finds reply_keys fs in
      let d = first_key-Finds find all finds data_keys fs in
      let c = first_container-Finds find all finds fs in
      let e : at_keys all all_keys fs ++ in_containers all fs
          ≡ at_keys all payload_keys fs
            ++ (at_keys all reply_keys fs ++ (at_keys all data_keys fs ++ in_containers all fs)) =
        ap (λ (l : List Text). l ++ in_containers all fs)
          (at_keys-append all payload_keys (reply_keys ++ data_keys) fs
            ∙ ap (λ (l : List Text). at_keys all payload_keys fs ++ l)
                (at_keys-append all reply_keys data_keys fs))
        ∙ append_assoc (at_keys all payload_keys fs) _ _
        ∙ ap (λ (l : List Text). at_keys all payload_keys fs ++ l)
            (append_assoc (at_keys all reply_keys fs) (at_keys all data_keys fs) _) in
      rw e (or_else-Finds _ _ _ _ p (or_else-Finds _ _ _ _ r (or_else-Finds _ _ _ _ d c)))

  find_reply-Finds : (n : ℕ) (v : Json) → Finds (find_reply parse_json n v) (candidates n v)
  unfolding find_reply candidates
  find_reply-Finds zero v = (refl, tt)
  find_reply-Finds (suc n) null = (refl, tt)
  find_reply-Finds (suc n) (boolean b) = (refl, tt)
  find_reply-Finds (suc n) (num k) = (refl, tt)
  find_reply-Finds (suc n) (arr vs) =
      first_item-Finds (find_reply parse_json n) (candidates n) (find_reply-Finds n) vs
  find_reply-Finds (suc n) (obj fs) =
      obj-Finds (find_reply parse_json n) (candidates n) fs (find_reply-Finds n)
  find_reply-Finds (suc n) (text s) = elim (Bool-cases (is_empty (trim_space s))) [
    | inl blank ↦ rw blank (refl, tt)
    | inr filled ↦ elim (Option-cases (parse_json (trim_space s))) [
      | inl plain ↦ rw (filled, plain) (refl, (filled, tt))
      | inr (v, e) ↦
          rw (filled, e)
            (or_else-Finds (find_reply parse_json n v) (trim_space s) (candidates n v)
              (trim_space s ∷ []) (find_reply-Finds n v) (refl, (filled, tt)))
    ]
  ]

  -- What is read as the reply of a value is the first of its candidates, or "" where it has none; and no
  -- candidate is "".
  pub find_reply_lem :
      (n : ℕ) (v : Json)
      → (find_reply parse_json n v ≡ first_of (candidates n v)) × All Filled (candidates n v)
  find_reply_lem n v = find_reply-Finds n v
