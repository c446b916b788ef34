-- ===== src/Token/Fungible/Deposit.antt =====
-- What a deposit mints.
use zeto.Base.{ℕ, ◌≡◌, ◌≢◌, refl, Bool, true, Option, some, List, [], ◌∷◌, ok, arith}
use zeto.Storage.{
  BaseStorage, unspent, spent, unknown, set_all, only_zeto, process_outputs, validate_outputs,
}
use zeto.Storage.Checked.{mem, validated_output}
use zeto.Storage.Forward.{process_outputs_lem}
use zeto.Token.Fungible.{
  Circuit, deposit_circuit, Ledger, with_storage, require_proof, require_erc20, verify_deposit,
  mint, deposit, base_storage,
}

process_outputs-own :
    (token : ℕ) (outputs : List ℕ) (s : BaseStorage)
    → s.zeto ≡ token
    → (t : BaseStorage) × (process_outputs token outputs s ≡ ok t)
unfolding process_outputs only_zeto
process_outputs-own token outputs s e =
    (record s { utxos = set_all outputs unspent s.utxos }, ground arith)

output_unspent :
    (token : ℕ) (outputs : List ℕ) (s t : BaseStorage) (x : ℕ)
    → process_outputs token outputs s ≡ ok t
    → x ≢ 0
    → mem x outputs ≡ true
    → spent s x ≡ unknown
    → spent t x ≡ unspent
unfolding spent
output_unspent token outputs s t x h nz m new =
    let (now, now_locked) = process_outputs_lem token outputs s t x h (ground arith) in
    ground (arith, now, now_locked, new)

module _ {Proof Erc20 : Type 0}
    (verify : BaseStorage → Circuit → ℕ → List ℕ → List ℕ → Proof → Bool)
    (safe_transfer_from safe_transfer : ℕ → ℕ → Erc20 → Option Erc20) (sort : List ℕ → List ℕ)
    (sort_keeps : (xs : List ℕ) (x : ℕ) → mem x (sort xs) ≡ mem x xs) (token : ℕ) where
  -- If the verifier accepts a deposit's proof for an amount and two outputs, and the ERC20 moves the
  -- amount, then a deposit of the same amount with the same proof and any further outputs, new to the
  -- storage, goes through, and makes each of those that is not zero an unspent UTXO. The storage is
  -- assumed to be owned by the token, and the sort to keep the elements.
  pub unproved_outputs_minted :
      (sender amount a b : ℕ) (further : List ℕ) (proof : Proof)
      (w : Ledger (base_storage sort token) Erc20) (e : Erc20)
      → verify w.store deposit_circuit amount [] (a ∷ b ∷ []) proof ≡ true
      → safe_transfer_from sender amount w.erc20 ≡ some e
      → validate_outputs sort (a ∷ b ∷ further) w.store ≡ ok tt
      → w.store.zeto ≡ token
      → (t : BaseStorage) × (deposit
            (base_storage sort token)
            verify
            safe_transfer_from
            safe_transfer
            sender
            amount
            (a ∷ b ∷ further)
            proof
            w
          ≡ ok (record { store = t; erc20 = e }))
        × ((x : ℕ) → x ≢ 0 → mem x further ≡ true → spent t x ≡ unspent)
  unfolding deposit verify_deposit mint with_storage require_proof require_erc20
  unproved_outputs_minted sender amount a b further proof w e accepted moved new own =
      let (t, done) = process_outputs-own token (a ∷ b ∷ further) w.store own in
      (
        t,
        rw (new, accepted, done, moved) refl,
        λ x nz m.
            let among : mem x (a ∷ b ∷ further) ≡ true = ground (arith, m) in
            output_unspent token (a ∷ b ∷ further) w.store t x done nz among
              (validated_output sort sort_keeps (a ∷ b ∷ further) w.store x new among nz),
      )
