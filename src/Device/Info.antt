-- ===== src/Device/Info.antt =====
-- internal/device/info.go and internal/device/register.go: what the device reports of itself. What
-- gopsutil answers is a record; `none` is an error. A MAC address is taken to be ASCII. `fold` is
-- `unicode.ToLower` of a rune beyond ASCII.
use monitor_agent.Base.{
  ℕ, Bool, true, false, not, ◌&&◌, ◌||◌, Option, none, some, List, [], ◌∷◌, ◌++◌, length, take,
  keep, map, Text, lit, empty, is_empty, text_eq, trim_space, ltb, ◌==◌, if◌then◌else◌,
}
use monitor_agent.Base.Int.{ℤ, pos, leb_ℤ, ltb_ℤ}
use monitor_agent.Collector.Words.{is_digit, within, signed, to_lower}

-- `Info`
pub record Info : Type 0 where
  pub device_id : Text
  pub hostname : Text
  pub mac_address : Text
  pub os_version : Text
  pub cpu_model : Text
  pub cpu_cores : ℕ
  pub memory_total : ℤ
  pub disk_total : ℤ
  pub agent_version : Text

pub record HostInfo : Type 0 where
  pub hostname : Text
  pub platform : Text
  pub platform_version : Text

pub record Interface : Type 0 where
  pub hardware_addr : Text
  -- `none` is nil
  pub flags : Option (List Text)

pub record Machine : Type 0 where
  pub new_uuid : Text
  pub goos : Text
  pub num_cpu : ℕ
  pub host : Option HostInfo
  pub interfaces : Option (List Interface)
  -- the model names of `cpu.Info`
  pub cpus : Option (List Text)
  pub memory : Option ℕ
  -- the mount points, and `Total` of `disk.Usage`
  pub partitions : Option (List (Text × Option ℕ))

abbrev pub agent_version : Text
agent_version = lit "1.0.0"

-- `(r >= '0' && r <= '9') || (r >= 'a' && r <= 'f')`
abbrev pub is_hex : ℕ → Bool
is_hex c = is_digit c || within b'a' b'f' c

-- `fmt.Sprintf` of the twelve digits in pairs
unfoldable pub in_pairs : Text → Text
in_pairs (a ∷ b ∷ c ∷ s) = a ∷ b ∷ b':' ∷ in_pairs (c ∷ s)
in_pairs s = s

unfoldable pub mac_of : Text → Text
unfolding in_pairs
mac_of s =
    if (length (keep (λ c. c == b':') s) == 5) && (length s == 17)
    then s
    else if ltb (length (keep is_hex s)) 12
    then s
    else in_pairs (take 12 (keep is_hex s))

-- `iface.Flags == nil || len(iface.Flags) > 0`
abbrev pub has_flags : Option (List Text) → Bool
has_flags none = true
has_flags (some []) = false
has_flags (some (f ∷ fs)) = true

-- the first usable hardware address
unfoldable pub first_mac : List Interface → Text
first_mac [] = empty
first_mac (i ∷ is) =
    let rest = first_mac is in
    if not (is_empty i.hardware_addr) && has_flags i.flags then i.hardware_addr else rest

-- the loop over the partitions: `firstTotal`, and `DiskTotal`
unfoldable pub disk_totals : ℤ → List (Text × Option ℕ) → ℤ × ℤ
disk_totals first [] = (first, pos 0)
disk_totals first (p ∷ ps) = elim p.1 [
  | none ↦ disk_totals first ps
  | some n ↦
      let total = signed n in
      let first' = if leb_ℤ first (pos 0) && leb_ℤ (pos 0) first then total else first in
      let rest = disk_totals first' ps in if text_eq p.0 (lit "/") then (first', total) else rest
]

unfoldable pub disk_total : ℤ × ℤ → ℤ
disk_total (first, total) =
    if leb_ℤ total (pos 0) && leb_ℤ (pos 0) total && ltb_ℤ (pos 0) first then first else total

unfoldable pub os_version : Text → HostInfo → Text
os_version goos h =
    let v = h.platform ++ lit " " ++ h.platform_version in if text_eq v (lit " ") then goos else v

-- the model and the number of cores
unfoldable pub cpu_of : ℕ → Option (List Text) → Text × ℕ
cpu_of num_cpu (some (m ∷ ms)) = (m, length (m ∷ ms))
cpu_of num_cpu _ = (empty, num_cpu)

module _ (fold : ℕ → ℕ) where
  -- `normalizeMAC`
  unfoldable pub normalize_mac : Text → Text
  unfolding mac_of
  normalize_mac t =
      let s = trim_space t in
      if is_empty s
      then empty
      else mac_of (to_lower fold (map (λ c. if c == b'-' then b':' else c) s))

  unfoldable pub mac_or_zero : Option (List Interface) → Text
  unfolding normalize_mac first_mac
  mac_or_zero is =
      let mac = normalize_mac (elim is [ none ↦ empty | some l ↦ first_mac l ]) in
      if is_empty mac then lit "00:00:00:00:00:00" else mac

  -- `Collect`; `none` is the error of `host.Info`.
  unfoldable pub collect : Machine → Text → Option Info
  unfolding mac_or_zero os_version cpu_of disk_total disk_totals
  collect m device_id = elim m.host [
    | none ↦ none
    | some h ↦ some (record {
      device_id = if is_empty device_id then m.new_uuid else device_id;
      hostname = h.hostname;
      mac_address = mac_or_zero m.interfaces;
      os_version = os_version m.goos h;
      cpu_model = (cpu_of m.num_cpu m.cpus).0;
      cpu_cores = (cpu_of m.num_cpu m.cpus).1;
      memory_total = elim m.memory [ none ↦ pos 0 | some n ↦ signed n ];
      disk_total = elim m.partitions [
        | none ↦ pos 0
        | some ps ↦ disk_total (disk_totals (pos 0) ps)
      ];
      agent_version = agent_version;
    })
  ]
