-- ===== src/Loader/Files.antt =====
-- Which files are loaded.
use Prim.Native.String.{◌++◌ as append}
use zeto.Base.{
  ◌≡◌, sym, false, Bool-cases, inl, inr, Option, none, some, Option-cases, String, str_eq, ok,
  >>=-eq-ok, ok-injective, arith,
}
use zeto.Loader.{
  LoadError, no_circuits_root, no_proving_keys_root, root_of, in_file, ProvingKeys, calculator_name,
  wasm_name, load_circuit, load_proving_keys,
}

in_file-eq-ok :
    {A : Type 0} (read : String → Option A) (name : String) {a : A}
    → in_file read name ≡ ok a
    → read name ≡ some a
unfolding in_file
in_file-eq-ok read name h = elim (Option-cases (read name)) [
  | inl e ↦ absurd (ground arith)
  | inr (b, e) ↦ ground arith
]

root_of-eq-ok :
    (r : Option String) (e : LoadError) {root : String}
    → root_of r e ≡ ok root
    → (r ≡ some root) × (str_eq root "" ≡ false)
unfolding root_of
root_of-eq-ok none e h = absurd (ground arith)
root_of-eq-ok (some s) e h = (ground arith, ground arith)

module _ {Bytes Calculator Key : Type 0} (join : String → String → String)
    (require : String → Option (Bytes → Calculator)) (read_file : String → Option Bytes)
    (parse : Bytes → Option Key) where
  load_circuit_parts :
      (circuits_root : Option String) (type : String) (c : Calculator)
      → load_circuit join require read_file parse circuits_root type ≡ ok c
      → (str_eq type "" ≡ false)
        × (root : String) × (circuits_root ≡ some root)
        × (str_eq root "" ≡ false)
        × (w : Bytes → Calculator) × (b : Bytes) × (require (join root (calculator_name type))
            ≡ some w)
        × (read_file (join root (wasm_name type)) ≡ some b)
        × (c ≡ w b)
  unfolding load_circuit
  load_circuit_parts circuits_root type c h = elim (Bool-cases (str_eq type "")) [
    | inl e ↦ absurd (ground arith)
    | inr e ↦
        let (root, given, h₁) = >>=-eq-ok (root_of circuits_root no_circuits_root) _ (rw e at h) in
        let (w, found, h₂) = >>=-eq-ok (in_file require (join root (calculator_name type))) _ h₁ in
        let (b, read, h₃) = >>=-eq-ok (in_file read_file (join root (wasm_name type))) _ h₂ in
        let (same, full) = root_of-eq-ok circuits_root no_circuits_root given in
        (
          e,
          root,
          same,
          full,
          w,
          b,
          in_file-eq-ok require (join root (calculator_name type)) found,
          in_file-eq-ok read_file (join root (wasm_name type)) read,
          sym (ok-injective h₃),
        )
  ]

  -- Where both loadCircuit and loadProvingKeys succeed for a circuit in the same environment, the file
  -- that the keys name as the circuit's is the one that loadCircuit has read its calculator's input from,
  -- and the verification key is what the file of the circuit's name in the other folder holds.
  pub same_wasm :
      (circuits_root proving_keys_root : Option String) (type : String) (c : Calculator)
      (k : ProvingKeys Key)
      → load_circuit join require read_file parse circuits_root type ≡ ok c
      → load_proving_keys join require read_file parse circuits_root proving_keys_root type ≡ ok k
      → (w : Bytes → Calculator) × (b : Bytes) × (read_file k.wasm_file ≡ some b)
        × (c ≡ w b)
        × (keys : String) × (proving_keys_root ≡ some keys)
        × (v : Bytes) × (read_file (join keys (append type "-vkey.json")) ≡ some v)
        × (parse v ≡ some k.verification_key)
  unfolding load_proving_keys
  same_wasm circuits_root proving_keys_root type c k hc hk =
      let (named, root, given, full, w, b, found, read, made) =
        load_circuit_parts circuits_root type c hc in
      let (keys, given_keys, h₁) =
        >>=-eq-ok (root_of proving_keys_root no_proving_keys_root) _ hk in
      let key_name = join keys (append type "-vkey.json") in
      let (v, read_key, h₂) = >>=-eq-ok (in_file read_file key_name) _ h₁ in
      let (key, parsed, h₃) = >>=-eq-ok (in_file (λ n. parse v) key_name) _ h₂ in
      let (again, given_again, h₄) = >>=-eq-ok (root_of circuits_root no_circuits_root) _ h₃ in
      let same : again ≡ root =
        (let (e, _) = root_of-eq-ok circuits_root no_circuits_root given_again in cc) in
      let final = sym (ok-injective h₄) in
      (
        w,
        b,
        rw (final, same) read,
        made,
        keys,
        (root_of-eq-ok proving_keys_root no_proving_keys_root given_keys).0,
        v,
        in_file-eq-ok read_file key_name read_key,
        rw final (in_file-eq-ok (λ n. parse v) key_name parsed),
      )
