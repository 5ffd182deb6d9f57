-- ===== src/Cache/Room/Loop.antt =====
-- The loop of `Push` that calls `dropOldest`.
use monitor_agent.Base.{
  ℕ, zero, suc, ◌+◌, ◌≤◌, ◌<◌, ◌≡◌, refl, ◌∙◌, Bool, true, false, none, some, arith, length,
  Bool-cases, Option-cases, inl, inr,
}
use monitor_agent.Base.Int.{pos, ◌+ℤ◌, leb_ℤ, +ℤ_parts}
use monitor_agent.Cache.{Cache, drop_oldest, make_room}
use monitor_agent.Cache.Files.{total}
use monitor_agent.Cache.Room.{
  Removes, IsAccounted, drop_oldest-Dropped, Dropped-length, Dropped-total, Dropped-IsAccounted,
}

-- Where each removal succeeds, with more fuel than files the loop of `Push` ends, and it keeps the
-- accounts. It ends well just
-- where the new bytes fit.
pub record Roomy (size : ℕ) (c c' : Cache) (fits : Bool) : Type 0 where
  pub accounted : IsAccounted c'
  pub max_bytes : c'.max_bytes ≡ c.max_bytes
  pub disk : c'.disk ≡ c.disk
  pub less : total c'.files ≤ total c.files
  pub fit : fits ≡ true → total c'.files + size ≤ c'.max_bytes
  pub full : fits ≡ false → (drop_oldest c' ≡ none) × (c'.max_bytes < total c'.files + size)

pub make_room-Roomy :
    (fuel size : ℕ) (c : Cache)
    → Removes c.disk
    → IsAccounted c
    → length c.files < fuel
    → (c' : Cache) × (fits : Bool) × (make_room fuel size c ≡ some (c', fits))
      × Roomy size c c' fits
unfolding make_room
make_room-Roomy zero size c w a h = elim h [ ]
make_room-Roomy (suc fuel) size c w a h =
    elim (Bool-cases (leb_ℤ (c.written +ℤ pos size) (pos c.max_bytes))) [
      | inl yep ↦ (
        c,
        true,
        rw yep,
        record {
          accounted = a;
          max_bytes = refl;
          disk = refl;
          less = omega arith;
          fit = λ _. let p = a.counted in ground (arith, +ℤ_parts c.written (pos size));
          full = λ p. cc;
        },
      )
      | inr nope ↦ elim (Option-cases (drop_oldest c)) [
        | inl stuck ↦ (
          c,
          false,
          rw (nope, stuck),
          record {
            accounted = a;
            max_bytes = refl;
            disk = refl;
            less = omega arith;
            fit = λ p. cc;
            full = λ _. (stuck, ground (arith, +ℤ_parts c.written (pos size)));
          },
        )
        | inr (c1, e) ↦
            let d = drop_oldest-Dropped c c1 e in
            let smaller = Dropped-length c c1 w d in
            let (c', fits, eq, r) =
              make_room-Roomy fuel size c1 (rw d.disk w) (Dropped-IsAccounted c c1 w d a)
                (omega (arith, smaller)) in
            (
              c',
              fits,
              rw (nope, e) eq,
              record {
                accounted = r.accounted;
                max_bytes = r.max_bytes ∙ d.max_bytes;
                disk = r.disk ∙ d.disk;
                less = omega (arith, r.less, Dropped-total c c1 w d a);
                fit = r.fit;
                full = r.full;
              },
            )
      ]
    ]
