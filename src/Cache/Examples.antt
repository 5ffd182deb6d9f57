-- ===== src/Cache/Examples.antt =====
-- The theorems of the cache at a directory with one file of each kind.
use monitor_agent.Base.{
  ℕ, zero, suc, ◌≡◌, ◌≢◌, ◌≤◌, refl, true, false, none, some, [], ◌∷◌, Text, lit, take, drop, inl,
  inr, ◌+◌, text_eq, text_eq_iff, has_prefix, format_nat,
}
use monitor_agent.Base.Int.{pos, ◌+ℤ◌, ◌-ℤ◌}
use monitor_agent.Cache.{
  Entry, Cache, Kind, metrics, logs, new_file, push, pop_kind, out_of_fuel, make_room, store,
  drop_oldest, remove, write_file, save_index, pop_loop, taken, skipped, unlink, room_fuel,
}
use monitor_agent.Cache.Files.{weight, total}
use monitor_agent.Cache.Room.{IsAccounted}
use monitor_agent.Cache.Push.{push-IsAccounted}
use monitor_agent.Cache.Bodies.{bodies}
use monitor_agent.Cache.Pop.{pop_kind-takes}
use monitor_agent.Cache.Fuel.{push_terminates}
use monitor_agent.Base.{false}

abbrev pub two_files : Cache
two_files = record {
  files = new_file logs 5 40 (lit "a") ∷ new_file metrics 3 30 (lit "b") ∷ [];
  index = none;
  max_bytes = 100;
  written = pos 70;
  disk = record {
    list_ok = true;
    write_ok = true;
    index_ok = true;
    removes = λ name. true;
    torn_index = λ index. index;
    leftover = none;
  };
}

-- each entry is 60 bytes long
abbrev pub entry_size : Entry → ℕ
entry_size e = 60

other_name : (a b : Text) → text_eq a b ≡ false → a ≢ b
other_name a b h e = let y = (text_eq_iff a b).1 e in cc

pub two_files-IsAccounted : IsAccounted two_files
two_files-IsAccounted = record {
  distinct = ((other_name _ _ (unfold text_eq lit format_nat in refl), tt), (tt, tt));
  counted = (unfold total weight skipped text_eq lit format_nat in refl);
}

-- The push of a third entry leaves the accounts right.
push-IsAccounted_example :
    IsAccounted (push entry_size metrics 9 (some (lit "c")) two_files).0
    × (total two_files.files ≤ two_files.max_bytes
        → total (push entry_size metrics 9 (some (lit "c")) two_files).0.files
          ≤ (push entry_size metrics 9 (some (lit "c")) two_files).0.max_bytes)
push-IsAccounted_example =
    push-IsAccounted entry_size metrics 9 (lit "c") two_files two_files-IsAccounted (λ name. refl)
      (inl refl)
      (
        other_name _ _ (unfold text_eq lit format_nat in refl),
        (other_name _ _ (unfold text_eq lit format_nat in refl), tt),
      )

-- The oldest file goes to make room for the third entry.
push_evicts : total (push entry_size metrics 9 (some (lit "c")) two_files).0.files ≡ 100
unfolding push make_room store drop_oldest unlink remove write_file save_index total weight skipped
    text_eq lit format_nat ◌+ℤ◌ ◌-ℤ◌
push_evicts = refl

-- An entry that is longer than the bound empties the cache.
push_too_long : (push (λ e. 101) metrics 9 (some (lit "c")) two_files).0.files ≡ []
unfolding push make_room store drop_oldest unlink remove write_file save_index total weight skipped
    text_eq lit format_nat ◌+ℤ◌ ◌-ℤ◌
push_too_long = refl

-- One metric is popped.
pop_kind-takes_example :
    ((pop_kind metrics 1 two_files).0 ≡ some (take 1 (bodies metrics two_files.files)))
    × (bodies metrics (pop_kind metrics 1 two_files).1.files
        ≡ drop 1 (bodies metrics two_files.files))
    × ((other : Kind)
        → other ≢ metrics
        → bodies other (pop_kind metrics 1 two_files).1.files ≡ bodies other two_files.files)
    × IsAccounted (pop_kind metrics 1 two_files).1
pop_kind-takes_example =
    pop_kind-takes metrics 1 two_files two_files-IsAccounted (λ name. refl) refl

pop_kind_body : (pop_kind metrics 1 two_files).0 ≡ some (lit "b" ∷ [])
unfolding pop_kind pop_loop taken save_index unlink remove skipped text_eq has_prefix lit format_nat
pop_kind_body = refl

push_terminates_example :
    ((push entry_size metrics 9 (some (lit "c")) two_files).1 ≢ some out_of_fuel)
    × (make_room (room_fuel 60 two_files + 5) 60 two_files
        ≡ make_room (room_fuel 60 two_files) 60 two_files)
push_terminates_example =
    push_terminates entry_size metrics 9 60 5 (some (lit "c")) two_files
      (inr (inl refl), (inr (inl refl), tt))

-- An empty file that cannot be removed, in a cache that is full by its account.
abbrev stuck : Cache
stuck = record two_files {
  files = new_file logs 5 0 (lit "a") ∷ [];
  written = pos 100;
  disk = record two_files.disk { removes = λ name. false };
}

stuck_round : drop_oldest stuck ≡ some stuck
unfolding drop_oldest unlink skipped text_eq lit format_nat ◌-ℤ◌
stuck_round = refl

-- The loop of `Push` does not end there, whatever its fuel.
stuck_forever : (fuel : ℕ) → make_room fuel 1 stuck ≡ none
unfolding make_room ◌+ℤ◌
stuck_forever zero = refl
stuck_forever (suc fuel) = rw stuck_round (stuck_forever fuel)
