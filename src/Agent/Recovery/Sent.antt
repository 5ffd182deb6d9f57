-- ===== src/Agent/Recovery/Sent.antt =====
-- What a recovery uploads, and what it leaves in the cache.
use monitor_agent.Base.{
  ℕ, ◌≡◌, ◌≢◌, refl, ap, Bool, true, false, Option, none, some, List, [], ◌∷◌, Text, take, drop,
}
use monitor_agent.Cache.{Cache, Entry, Kind, pop_kind}
use monitor_agent.Cache.Room.{IsAccounted, Removes}
use monitor_agent.Cache.Bodies.{bodies}
use monitor_agent.Cache.Pop.{pop_kind-takes}
use monitor_agent.Agent.Recovery.{
  recovery_limit, decode_all, push_all, resend, recover_popped, recover,
}

module _ {ℓ} {A : Type ℓ} (entry_size : Entry → ℕ) (encode : A → Option Text) (kind : Kind) where
  -- The items are tried to be uploaded where there are any.
  abbrev pub tried : Bool → List A → Option (List A × Bool)
  tried accepts [] = none
  tried accepts (a ∷ rest) = some (a ∷ rest, accepts)

  resend-tried :
      (clock : ℕ → ℕ) (accepts : Bool) (items : List A) (c : Cache)
      → (resend entry_size encode kind clock accepts items c).upload ≡ tried accepts items
  unfolding resend
  resend-tried clock accepts [] c = refl
  resend-tried clock accepts (a ∷ rest) c = refl

  pub resend-accepted :
      (clock : ℕ → ℕ) (items : List A) (c : Cache)
      → (resend entry_size encode kind clock true items c).cache ≡ c
  unfolding resend
  resend-accepted clock [] c = refl
  resend-accepted clock (a ∷ rest) c = refl

  pub resend-refused :
      (clock : ℕ → ℕ) (items : List A) (c : Cache)
      → (resend entry_size encode kind clock false items c).cache
        ≡ push_all entry_size encode kind clock 0 items c
  unfolding resend push_all
  resend-refused clock [] c = refl
  resend-refused clock (a ∷ rest) c = refl

  pub recover-popped :
      (decode : Text → Option A) (clock : ℕ → ℕ) (accepts : Bool) (c : Cache)
      → IsAccounted c
      → Removes c.disk
      → c.disk.list_ok ≡ true
      → recover entry_size encode kind decode clock accepts c
        ≡ resend entry_size encode kind clock accepts
            (decode_all decode (take recovery_limit (bodies kind c.files)))
            (pop_kind kind recovery_limit c).1
  unfolding recover
  recover-popped decode clock accepts c a w ok =
      let (p, _, _, _) = pop_kind-takes kind recovery_limit c a w ok in
      ap
        (λ (o : Option (List Text)).
          recover_popped entry_size encode kind decode clock accepts o
            (pop_kind kind recovery_limit c).1)
        p

  -- With a directory that can be listed, removals that succeed and accounts that are right, the recovery uploads what can be
  -- decoded of the first 100 bodies of its kind. If that is accepted, the bodies behind them stay,
  -- those of the other kind too, and the accounts are right; if not, the decoded items are pushed
  -- to the cache that is left.
  pub recover_lem :
      (decode : Text → Option A) (clock : ℕ → ℕ) (accepts : Bool) (c : Cache)
      → IsAccounted c
      → Removes c.disk
      → c.disk.list_ok ≡ true
      → ((recover entry_size encode kind decode clock accepts c).upload
          ≡ tried accepts (decode_all decode (take recovery_limit (bodies kind c.files))))
        × (accepts ≡ true
            → (bodies kind (recover entry_size encode kind decode clock accepts c).cache.files
                ≡ drop recovery_limit (bodies kind c.files))
              × ((other : Kind)
                  → other ≢ kind
                  → bodies other (recover entry_size encode kind decode clock accepts c).cache.files
                    ≡ bodies other c.files)
              × IsAccounted (recover entry_size encode kind decode clock accepts c).cache)
        × (accepts ≡ false
            → (recover entry_size encode kind decode clock accepts c).cache
              ≡ push_all entry_size encode kind clock 0
                  (decode_all decode (take recovery_limit (bodies kind c.files)))
                  (pop_kind kind recovery_limit c).1)
  recover_lem decode clock accepts c a w ok =
      let (_, left, others, right) = pop_kind-takes kind recovery_limit c a w ok in
      let items = decode_all decode (take recovery_limit (bodies kind c.files)) in
      let c' = (pop_kind kind recovery_limit c).1 in
      rw (recover-popped decode clock accepts c a w ok) (
        resend-tried clock accepts items c',
        λ yes. rw yes (rw (resend-accepted clock items c') (left, others, right)),
        λ no. rw no (resend-refused clock items c'),
      )
