-- ===== src/Build/Circuit.antt =====
-- `processCircuit` of gen.js: the commands that it runs for one circuit, and the renaming of the
-- contract. The commands themselves are `circom`'s and `snarkjs`'s.
pub mod Steps
use zeto.Base.{ℕ, Bool, true, false, Option, none, some, List, [], ◌∷◌, ◌++◌, String, if◌then◌else◌}

-- What is run, in the order of the text; the last three are the write and the renaming of the file.
pub data Command : Type 0 where
  compile constraints print_constraints setup export_key export_verifier rename_contract : Command

-- How a command ends: it fails, or succeeds with or without text on its standard output.
pub data Exec : Type 0 where
  failed silent talked : Exec

pub data Ending : Type 0 where
  input_missing compiled_only without_verifier completed rejected : Ending

-- The commands that were started, and how it ended.
pub record Trace : Type 0 where
  pub commands : List Command
  pub ending : Ending

abbrev pub after : Command → Trace → Trace
after c t = record t { commands = c ∷ t.commands }

-- `await execAsync(…)`: a failure rejects the promise.
abbrev pub then_run : Exec → Command → Trace → Trace
then_run failed c t = record { commands = c ∷ []; ending = rejected }
then_run silent c t = after c t
then_run talked c t = after c t

module _ (exec : Command → Exec) (verbose compile_only skip_solidity : Bool) where
  write_verifier : Trace
  write_verifier = then_run (exec export_verifier) export_verifier (
      then_run (exec rename_contract) rename_contract
        (record { commands = []; ending = completed }))

  prove_setup : Trace
  unfolding write_verifier
  prove_setup = then_run (exec setup) setup (
      then_run (exec export_key) export_key (
        if skip_solidity
        then record { commands = []; ending = without_verifier }
        else write_verifier))

  -- With `verbose` and some output, the constraints are printed, by one more command.
  make_constraints : Trace
  unfolding prove_setup
  make_constraints = elim (exec constraints) [
    | failed ↦ record { commands = constraints ∷ []; ending = rejected }
    | silent ↦ after constraints prove_setup
    | talked ↦ after constraints (
        if verbose
        then then_run (exec print_constraints) print_constraints prove_setup
        else prove_setup)
  ]

  -- Of PTAU_DOWNLOAD_PATH and PROVING_KEYS_ROOT, and whether the circuit's source exists. `path.join`
  -- throws for a folder that is not set.
  pub process_circuit : Option String → Option String → Bool → Trace
  unfolding make_constraints
  process_circuit none keys exists = record { commands = []; ending = rejected }
  process_circuit (some folder) none exists = record { commands = []; ending = rejected }
  process_circuit (some folder) (some keys) false = record { commands = []; ending = input_missing }
  process_circuit (some folder) (some keys) true =
      then_run (exec compile) compile (
        if compile_only then record { commands = []; ending = compiled_only } else make_constraints)
