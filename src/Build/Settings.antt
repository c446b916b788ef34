-- ===== src/Build/Settings.antt =====
-- The settings of gen.js, its checks on them and the selection of circuits.
pub mod Laws
use zeto.Base.{
  ℕ, zero, suc, Bool, true, false, ◌&&◌, not, Option, none, some, List, [], ◌∷◌, String, str_eq,
  if◌then◌else◌, Result, ok, err,
}
use zeto.Base.Int.{ℤ, pos, negsuc}

-- An entry of gen-config.json's `circuits`.
pub record CircuitConfig : Type 0 where
  pub ptau : String
  pub batch_ptau : Option String
  pub skip_solidity_generation : Bool

-- `Object.entries(circuits)`: the names are different, in the order of the file.
abbrev pub Circuits : Type 0
Circuits = List (String × CircuitConfig)

-- What ends the process with exit code 1.
pub data Exit : Type 0 where
  no_circuits_root no_proving_keys_root no_ptau_download_path : Exit
  unknown_circuit : String → Exit
  version_mismatch : Exit
  snarkjs_version_unknown : Exit
  download_failed validation_failed : String → Exit

-- `env || argument`: an empty string counts as absent.
unfoldable pub setting : Option String → Option String → Option String
setting (some env) argument = if str_eq env "" then argument else some env
setting none argument = argument

unfoldable pub is_set : Option String → Bool
is_set none = false
is_set (some s) = not (str_eq s "")

-- `parseInt(GEN_CONCURRENCY, 10) || 8`, of what `parseInt` gives; `none` is NaN.
unfoldable pub parallel_limit : Option ℤ → ℤ
parallel_limit none = pos 8
parallel_limit (some (pos zero)) = pos 8
parallel_limit (some n) = n

pub record Settings : Type 0 where
  pub circuits_root : Option String
  pub proving_keys_root : Option String
  pub ptau_download : Option String
  pub compile_only : Bool
  -- `-c`, as the list that `run` makes of it.
  pub only : Option (List String)

-- The three checks before anything runs.
pub check_settings : Settings → Result Exit (Unit {0})
check_settings s =
    if not (is_set s.circuits_root)
    then err no_circuits_root
    else if not s.compile_only && not (is_set s.proving_keys_root)
    then err no_proving_keys_root
    else if not s.compile_only && not (is_set s.ptau_download)
    then err no_ptau_download_path
    else ok tt

pub find_circuit : String → Circuits → Option CircuitConfig
find_circuit name [] = none
find_circuit name ((n, c) ∷ cs) = if str_eq n name then some c else find_circuit name cs

-- `for (const circuit of onlyCircuits) if (!circuits[circuit]) …`
check_known : List String → Circuits → Result Exit (Unit {0})
check_known [] cs = ok tt
check_known (name ∷ names) cs = elim (find_circuit name cs) [
  | none ↦ err (unknown_circuit name)
  | some _ ↦ check_known names cs
]

pub check_only : Option (List String) → Circuits → Result Exit (Unit {0})
unfolding check_known
check_only none cs = ok tt
check_only (some names) cs = check_known names cs

unfoldable pub contains : List String → String → Bool
contains [] name = false
contains (n ∷ names) name = if str_eq n name then true else contains names name

-- `onlyCircuits && !onlyCircuits.includes(circuit)` skips a circuit.
unfoldable pub is_selected : Option (List String) → String → Bool
is_selected none name = true
is_selected (some names) name = contains names name

-- How `npx snarkjs --version` ends: it is expected to fail, with an output that the version is read
-- from, or not.
pub data Snarkjs : Type 0 where
  succeeded : Snarkjs
  failed : Option String → Snarkjs

-- The test of the installed versions: circom's against gen-config.json, snarkjs's against
-- package.json.
unfoldable pub check_versions : String → String → Snarkjs → String → Result Exit (Unit {0})
check_versions circom expected_circom succeeded expected_snarkjs = err version_mismatch
check_versions circom expected_circom (failed none) expected_snarkjs = err snarkjs_version_unknown
check_versions circom expected_circom (failed (some snarkjs)) expected_snarkjs =
    if str_eq circom expected_circom && str_eq snarkjs expected_snarkjs
    then ok tt
    else err version_mismatch
