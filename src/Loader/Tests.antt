-- ===== src/Loader/Tests.antt =====
-- Loading with concrete folders.
use Prim.Native.String.{◌++◌ as append}
use zeto.Base.{ℕ, ◌+◌, ◌≡◌, refl, Option, none, some, String, str_eq, if◌then◌else◌, ok, err}
use zeto.Loader.{ProvingKeys, no_circuits_root, unreadable, load_circuit, load_proving_keys}

abbrev join : String → String → String
join folder name = append folder (append "/" name)

abbrev require : String → Option (ℕ → ℕ)
require name =
    if str_eq name "/circuits/anon_js/witness_calculator.js" then some (λ b. b + 1) else none

abbrev read_file : String → Option ℕ
read_file name =
    if str_eq name "/circuits/anon_js/anon.wasm"
    then some 5
    else if str_eq name "/keys/anon-vkey.json"
    then some 6
    else none

loaded : load_circuit join require read_file some (some "/circuits") "anon" ≡ ok 6
unfolding load_circuit
loaded = refl

not_there :
    load_circuit join require read_file some (some "/circuits") "deposit"
    ≡ err (unreadable "/circuits/deposit_js/witness_calculator.js")
unfolding load_circuit
not_there = refl

no_root : load_circuit join require read_file some (some "") "anon" ≡ err no_circuits_root
unfolding load_circuit
no_root = refl

abbrev keys : ProvingKeys ℕ
keys = record {
  proving_key_file = "/keys/anon.zkey";
  wasm_file = "/circuits/anon_js/anon.wasm";
  verification_key = 6;
}

keys_loaded :
    load_proving_keys join require read_file some (some "/circuits") (some "/keys") "anon" ≡ ok keys
unfolding load_proving_keys
keys_loaded = refl
