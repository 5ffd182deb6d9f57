-- ===== src/Identity/Examples.antt =====
-- The first start on an empty machine, and the second.
use monitor_agent.Base.{
  ℕ, zero, suc, ◌≡◌, refl, true, false, none, some, inl, inr, [], ◌∷◌, Text, lit, text_eq,
  text_eq_refl, trim_space,
}
use monitor_agent.Identity.{
  Keys, Identity, Store, Machine, read, node_id_of, take_node_id, load_or_create, with_node_id,
  finish, load_pair, generate, save_public, save_private, parsed,
}
use monitor_agent.Identity.Stable.{KeyLaws, IsFresh, Opens}
use monitor_agent.Identity.Shared.{Shared, free, lock, name, finish_and_unlock, Reach, begin, later}
use monitor_agent.Identity.Shared.Same.{Reach-Same}

-- Keys that are their own PEM blocks.
abbrev pub plain : Keys
plain = record {
  parse_private = λ t. some t;
  parse_public = λ t. some t;
  marshal_private = λ t. t;
  marshal_public = λ t. some t;
  public_of = λ t. t;
  verify = text_eq;
}

some_inj : (a b : Text) → some a ≡ some b → some b ≡ some a
some_inj a b e = cc

pub plain-KeyLaws : KeyLaws plain
plain-KeyLaws = record {
  private_round = λ k. refl;
  public_round = λ k pem e. some_inj k pem e;
  matches = λ k. text_eq_refl k;
}

abbrev pub empty_store : Store
empty_store = record { node_id_file = none; public_file = none; private_keys = λ id. none }

abbrev pub first_start : Machine
first_start = record {
  mkdir_ok = true;
  lock_ok = true;
  read_node_id_ok = true;
  read_private_ok = true;
  read_public_ok = true;
  torn = λ file. file;
  write_node_id_ok = true;
  save_key_ok = true;
  write_public_ok = true;
  fresh_id = lit "4f1c";
  generated = some (lit "key");
}

abbrev pub second_start : Machine
second_start = record first_start { fresh_id = lit "9a20"; generated = some (lit "other") }

abbrev pub created : Identity
created = record { node_id = lit "4f1c"; public_key = lit "key"; private_key = lit "key" }

pub fresh : IsFresh (lit "4f1c")
fresh = record { kept = (unfold trim_space lit in refl); filled = (unfold lit in refl) }

pub second_start-Opens : Opens second_start
second_start-Opens = record {
  made = refl;
  locked = refl;
  reads_node_id = refl;
  reads_private = refl;
  reads_public = refl;
}

pub creates : (load_or_create plain first_start empty_store).0 ≡ inr created
unfolding load_or_create read node_id_of take_node_id with_node_id load_pair finish generate
    save_public
creates = refl

second_fresh : IsFresh (lit "9a20")
second_fresh = record { kept = (unfold trim_space lit in refl); filled = (unfold lit in refl) }

-- The process 0 starts first; all others would make an identity of their own.
abbrev processes : ℕ → Machine
processes zero = first_start
processes (suc i) = second_start

processes-IsFresh : (i : ℕ) → IsFresh (processes i).fresh_id
processes-IsFresh zero = fresh
processes-IsFresh (suc i) = second_fresh

processes-Opens : (i : ℕ) → Opens (processes i)
processes-Opens zero = record {
  made = refl;
  locked = refl;
  reads_node_id = refl;
  reads_private = refl;
  reads_public = refl;
}
processes-Opens (suc i) = second_start-Opens

abbrev both_returned : Shared
both_returned = record {
  store = (load_or_create plain first_start empty_store).1;
  turn = free;
  returned = inr created ∷ inr created ∷ [];
}

both-Reach : Reach plain processes empty_store both_returned
unfolding load_or_create read node_id_of take_node_id with_node_id load_pair finish generate
    save_public save_private parsed text_eq trim_space lit
both-Reach =
    later
      (later
        (later
          (later (later (later begin (lock 0 refl refl refl)) (name 0 refl))
            (finish_and_unlock 0 refl))
          (lock 1 refl refl refl))
        (name 1 refl))
      (finish_and_unlock 1 refl)

Reach-Same_example : created ≡ created
Reach-Same_example =
    Reach-Same plain plain-KeyLaws processes processes-IsFresh processes-Opens empty_store
      both_returned both-Reach created created (inl refl) (inr (inl refl))

-- A start that cannot read node_id.txt makes an identity of its own.
abbrev unread : Machine
unread = record second_start { read_node_id_ok = false }

unread_replaces :
    (load_or_create plain unread (load_or_create plain first_start empty_store).1).0
    ≡ inr (record { node_id = lit "9a20"; public_key = lit "other"; private_key = lit "other" })
unfolding load_or_create read node_id_of take_node_id with_node_id load_pair finish generate
    save_public save_private parsed text_eq trim_space lit
unread_replaces = refl
