-- ===== src/Locks/NonFungible.antt =====
-- The non-fungible token as the token under the locks: its hooks keep the promises that
-- ZetoLockableLib builds on.
use zeto.Base.{ℕ, ◌≡◌, ◌≢◌, Bool, true, false, ◌&&◌, List, [], ◌∷◌, Result, ok, arith}
use zeto.Storage.{BaseStorage, StorageError, unknown, spent, locked}
use zeto.Storage.Checked.{mem}
use zeto.Token.{mint, transfer, do_lock_transition, transfer_locked}
use zeto.Token.Moves.{
  Moved, mint-Moved, transfer-Moved, do_lock_transition-Moved, transfer_locked-Moved,
}
use zeto.Locks.{CreateLockArgs, LockHooks}
use zeto.Locks.Lost.{IsHeld, IsKnown, LockHooksLaws, IsHeld-IsKnown}

-- The calls of the token that are not about locks.
pub data TokenCall : Type 0 where
  mint_utxos : List ℕ → TokenCall
  move_utxo : ℕ → ℕ → Bool → TokenCall

module _ (sort : List ℕ → List ℕ) (token : ℕ) where
  abbrev pub own_token_call : TokenCall → BaseStorage → Result StorageError BaseStorage
  own_token_call (mint_utxos utxos) s = mint sort token utxos s
  own_token_call (move_utxo input output accepted) s = transfer sort token input output accepted s

  abbrev pub non_fungible_hooks : LockHooks
  non_fungible_hooks = record {
    OwnCall = TokenCall;
    own_call = own_token_call;
    do_lock_transition = λ args s.
        do_lock_transition sort token args.inputs args.outputs args.locked_outputs args.accepted s;
    transfer_locked = λ inputs locked_outputs outputs accepted s.
        transfer_locked sort token inputs locked_outputs outputs accepted s;
  }

module _ (o k i l : Bool) (s t : BaseStorage) (x : ℕ) (m : Moved o k i l s t x) where
  Moved-IsKnown : IsKnown s x → IsKnown t x
  unfolding spent
  Moved-IsKnown h e = ground (arith, m.now, m.now_locked, m.old, m.new, h, e)

  Moved-IsHeld : (i && l) ≡ false → IsHeld s x → IsHeld t x
  unfolding spent locked
  Moved-IsHeld n (u, h) = (
    ground (arith, m.now, m.now_locked, m.old, m.new, m.free, u, h, n),
    ground (arith, m.now, m.now_locked, m.old, m.new, m.free, u, h, n),
  )

  Moved-new : k ≡ true → (spent s x ≡ unknown) × IsHeld t x
  unfolding spent locked
  Moved-new n = (
    ground (arith, m.new, n),
    (ground (arith, m.now, m.now_locked, m.old, m.new, n), ground (arith, m.now_locked, n)),
  )

-- `Arrays.sort` keeps the elements.
module _ (sort : List ℕ → List ℕ) (sort_keeps : (xs : List ℕ) (x : ℕ) → mem x (sort xs) ≡ mem x xs)
    (token : ℕ) where
  own_token_call-Moved :
      (c : TokenCall) (s t : BaseStorage) (x : ℕ)
      → own_token_call sort token c s ≡ ok t
      → x ≢ 0
      → (o k i : Bool) × Moved o k i false s t x
  own_token_call-Moved (mint_utxos utxos) s t x h nz =
      (mem x utxos, false, false, mint-Moved sort sort_keeps token utxos s t x h nz)
  own_token_call-Moved (move_utxo input output accepted) s t x h nz = (
    mem x (output ∷ []),
    false,
    mem x (input ∷ []),
    transfer-Moved sort sort_keeps token input output accepted s t x h nz,
  )

  create_lock-Moved :
      (args : CreateLockArgs) (s t : BaseStorage) (x : ℕ)
      → do_lock_transition sort token args.inputs args.outputs args.locked_outputs args.accepted s
        ≡ ok t
      → x ≢ 0
      → Moved (mem x args.outputs) (mem x args.locked_outputs) (mem x args.inputs) false s t x
  create_lock-Moved args s t x h nz =
      do_lock_transition-Moved sort sort_keeps token args.inputs args.outputs args.locked_outputs
        args.accepted s t x h nz

  -- The hooks and the calls of the non-fungible token keep what the library for locks builds on: known
  -- UTXOs stay known, held ones are used by calls that move locked inputs only, and locked outputs are
  -- new. The sort is assumed to keep the elements.
  pub non_fungible_hooks-LockHooksLaws : LockHooksLaws (non_fungible_hooks sort token)
  non_fungible_hooks-LockHooksLaws = record {
    own_known = λ c s t x h nz.
        let (o, k, i, m) = own_token_call-Moved c s t x h nz in Moved-IsKnown o k i false s t x m;
    own_held = λ c s t x h nz.
        let (o, k, i, m) = own_token_call-Moved c s t x h nz in
        Moved-IsHeld o k i false s t x m (ground arith);
    create_known =
        λ args s t x h nz. Moved-IsKnown _ _ _ _ s t x (create_lock-Moved args s t x h nz);
    create_held = λ args s t x h nz.
        Moved-IsHeld _ _ _ _ s t x (create_lock-Moved args s t x h nz) (ground arith);
    create_new = λ args s t x h nz e.
        let (new, held) = Moved-new _ _ _ _ s t x (create_lock-Moved args s t x h nz) e in
        (new, IsHeld-IsKnown t x held);
    move_known = λ inputs locked_outputs outputs accepted s t x h nz. Moved-IsKnown _ _ _ _ s t x (
        transfer_locked-Moved sort sort_keeps token inputs locked_outputs outputs accepted s t x h
          nz);
    move_held = λ inputs locked_outputs outputs accepted s t x h nz n.
        Moved-IsHeld _ _ _ _ s t x
          (transfer_locked-Moved sort sort_keeps token inputs locked_outputs outputs accepted s t x
            h nz)
          (ground arith);
    move_new = λ inputs locked_outputs outputs accepted s t x h nz e.
        Moved-new _ _ _ _ s t x
          (transfer_locked-Moved sort sort_keeps token inputs locked_outputs outputs accepted s t x
            h nz)
          e;
  }
