-- ===== src/OpenclawCli.antt =====
-- internal/openclawcli/path.go: where the openclaw executable and its configuration are.
pub mod Config
pub mod Resolve
mod Examples
use monitor_agent.Base.{
  ℕ, Bool, true, false, not, ◌&&◌, ◌||◌, Option, none, some, List, [], ◌∷◌, ◌++◌, map, drop, Text,
  lit, empty, is_empty, text_eq, trim_space, has_prefix, contains, if◌then◌else◌,
}

-- What the module asks of the machine.
pub record Machine : Type 0 where
  -- `os.Getenv`
  pub getenv : Text → Text
  -- `exec.LookPath`
  pub look_path : Text → Option Text
  -- `os.UserHomeDir`
  pub home : Option Text
  -- `filepath.Join` of two parts
  pub join_path : Text → Text → Text
  -- `os.Stat` succeeds, and it is not a directory
  pub is_file : Text → Bool
  -- the line that `usesEnvNode` reads, if it reads one
  pub first_line : Text → Option Text
  -- the output of a program with its arguments, and whether it failed
  pub combined_output : Text → List Text → Text × Bool

module _ (m : Machine) where
  -- the candidate of the environment variable
  unfoldable pub from_env : Text → List Text
  from_env key = if is_empty (trim_space (m.getenv key)) then [] else trim_space (m.getenv key) ∷ []

  unfoldable pub from_path : Text → List Text
  from_path binary = elim (m.look_path binary) [
    | none ↦ []
    | some p ↦ if is_empty (trim_space p) then [] else p ∷ []
  ]

  unfoldable pub from_home : List Text → List Text
  from_home rels = elim m.home [
    | none ↦ []
    | some home ↦ if is_empty (trim_space home) then [] else map (m.join_path home) rels
  ]

  unfoldable pub candidates : Text → Text → List Text → List Text → List Text
  unfolding from_env from_path from_home
  candidates key binary rels fixed = from_env key ++ (from_path binary ++ (from_home rels ++ fixed))

  -- a candidate that is taken
  unfoldable pub is_usable : Text → Bool
  is_usable path = not (is_empty path) && m.is_file path

  unfoldable pub first_usable : List Text → Text → Text
  unfolding is_usable
  first_usable [] binary = binary
  first_usable (c ∷ cs) binary =
      let rest = first_usable cs binary in if is_usable c then c else rest

  -- `resolveExecutable`
  unfoldable pub resolve_executable : Text → Text → List Text → List Text → Text
  unfolding first_usable candidates
  resolve_executable key binary rels fixed = first_usable (candidates key binary rels fixed) binary

  -- `BinaryPath`
  unfoldable pub binary_path : Text
  unfolding resolve_executable
  binary_path =
      resolve_executable (lit "OPENCLAW_BIN") (lit "openclaw")
        (lit ".npm-global/bin/openclaw" ∷ lit ".local/bin/openclaw" ∷ [])
        (lit "/opt/homebrew/bin/openclaw"
          ∷ lit "/usr/local/bin/openclaw"
          ∷ lit "/usr/bin/openclaw"
          ∷ [])

  -- `NodePath`
  unfoldable pub node_path : Text
  unfolding resolve_executable
  node_path =
      resolve_executable (lit "OPENCLAW_NODE_BIN") (lit "node") []
        (lit "/opt/homebrew/bin/node" ∷ lit "/usr/local/bin/node" ∷ lit "/usr/bin/node" ∷ [])

  -- `usesEnvNode`
  unfoldable pub uses_env_node : Text → Bool
  uses_env_node path = elim (m.first_line path) [
    | none ↦ false
    | some line ↦
        has_prefix (trim_space line) (lit "#!")
        && contains (trim_space line) (lit "/usr/bin/env node")
  ]

  -- `CommandContext`: the program and its arguments
  unfoldable pub command_context : List Text → Text × List Text
  unfolding binary_path node_path uses_env_node
  command_context args =
      if uses_env_node binary_path then (node_path, binary_path ∷ args) else (binary_path, args)
