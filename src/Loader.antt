-- ===== src/Loader.antt =====
-- Loading a compiled circuit and its keys: loadCircuit of zkp/js/index.js and
-- zkp/js/integration-test/utils.js.
pub mod Files
mod Tests
use Prim.Native.String.{◌++◌ as append}
use zeto.Base.{
  Bool, true, false, Option, none, some, String, str_eq, if◌then◌else◌, Result, ok, err, ◌>>=◌,
  ◌>>◌,
}

pub data LoadError : Type 0 where
  no_circuit_name no_circuits_root no_proving_keys_root : LoadError
  -- What `require`, `readFileSync` or `JSON.parse` throws for a file.
  unreadable : String → LoadError

-- A variable of the environment, where the empty one counts as missing.
unfoldable pub root_of : Option String → LoadError → Result LoadError String
root_of none e = err e
root_of (some root) e = if str_eq root "" then err e else ok root

unfoldable pub in_file : {A : Type 0} → (String → Option A) → String → Result LoadError A
in_file read name = elim (read name) [ none ↦ err (unreadable name) | some a ↦ ok a ]

-- `loadProvingKeys`: the result.
pub record ProvingKeys (Key : Type 0) : Type 0 where
  pub proving_key_file : String
  pub wasm_file : String
  pub verification_key : Key

-- `${type}_js/witness_calculator.js` and `${type}_js/${type}.wasm`
unfoldable pub calculator_name : String → String
calculator_name type = append type "_js/witness_calculator.js"

unfoldable pub wasm_name : String → String
wasm_name type = append type (append "_js/" (append type ".wasm"))

-- `path.join`, and what the files hold: modules, bytes and verification keys.
module _ {Bytes Calculator Key : Type 0} (join : String → String → String)
    (require : String → Option (Bytes → Calculator)) (read_file : String → Option Bytes)
    (parse : Bytes → Option Key) where
  -- `loadCircuit`, of CIRCUITS_ROOT.
  unfoldable pub load_circuit : Option String → String → Result LoadError Calculator
  unfolding root_of in_file calculator_name wasm_name
  load_circuit circuits_root type = if str_eq type "" then err no_circuit_name else do
    root ← root_of circuits_root no_circuits_root
    calculator ← in_file require (join root (calculator_name type))
    buffer ← in_file read_file (join root (wasm_name type))
    ok (calculator buffer)

  -- `loadProvingKeys`, of CIRCUITS_ROOT and PROVING_KEYS_ROOT.
  unfoldable pub load_proving_keys :
      Option String → Option String → String → Result LoadError (ProvingKeys Key)
  unfolding root_of in_file wasm_name
  load_proving_keys circuits_root proving_keys_root type = do
    keys ← root_of proving_keys_root no_proving_keys_root
    let key_name = join keys (append type "-vkey.json")
    buffer ← in_file read_file key_name
    key ← in_file (λ _. parse buffer) key_name
    root ← root_of circuits_root no_circuits_root
    ok (record {
      proving_key_file = join keys (append type ".zkey");
      wasm_file = join root (wasm_name type);
      verification_key = key;
    })
