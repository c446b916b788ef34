-- ===== src/Locks/Parts.antt =====
-- The successful calls of ZetoLockableLib, taken apart.
use zeto.Base.{
  ℕ, ◌≡◌, ◌≢◌, refl, sym, ap, Bool, true, false, ◌&&◌, not, Bool-cases, inl, inr, List, ◌==◌,
  if◌then◌else◌, Result, ok, err, >>=-eq-ok, ok-injective, arith,
}
use zeto.Storage.{BaseStorage, StorageError}
use zeto.Locks.{
  LockState, LockError, CreateLockArgs, SpendLockArgs, LockHooks, guard, in_storage, use_tx_id,
  require_lock_active, require_lock_owner, require_lock_spender, set_lock_delegates, write_lock,
  no_lock, duplicate_lock, lock_immutable, invalid_unlock_hash, create_lock, update_lock,
  delegate_lock, consume_lock, spend_lock, cancel_lock, lock_not_active, lock_unauthorized,
}

pub guard-eq-ok : (b : Bool) (e : LockError) {u : Unit} → guard b e ≡ ok u → b ≡ true
unfolding guard
guard-eq-ok true e h = refl
guard-eq-ok false e h = ground arith

pub record Used (sender tx : ℕ) (w u : LockState) : Type 0 where
  pub fresh : w.tx_ids sender tx ≡ false
  pub used : u.tx_ids sender tx ≡ true
  pub kept : (a i : ℕ) → w.tx_ids a i ≡ true → u.tx_ids a i ≡ true
  pub same_locks : u.locks ≡ w.locks
  pub same_storage : u.storage ≡ w.storage

pub use_tx_id-Used :
    (sender tx : ℕ) (w u : LockState) → use_tx_id sender tx w ≡ ok u → Used sender tx w u
unfolding use_tx_id guard
use_tx_id-Used sender tx w u h = elim (Bool-cases (w.tx_ids sender tx)) [
  | inl t ↦ absurd (ground arith)
  | inr f ↦
      let e : u
          ≡ record w { tx_ids = λ a i. if (a == sender) && (i == tx) then true else w.tx_ids a i } =
        cc in
      record {
        fresh = f;
        used = rw e (ground arith);
        kept = λ a i k. rw e (ground arith);
        same_locks = rw e refl;
        same_storage = rw e refl;
      }
]

pub in_storage-eq-ok :
    {A : Type 0} (r : Result StorageError A) {a : A} → in_storage r ≡ ok a → r ≡ ok a
unfolding in_storage
in_storage-eq-ok (ok b) h = cc
in_storage-eq-ok (err e) h = cc

not_zero : (n : ℕ) → not (n == 0) ≡ true → n ≢ 0
not_zero n h e = ground arith

equal : (m n : ℕ) → (m == n) ≡ true → m ≡ n
equal m n h = ground arith

active_lock :
    (lock_id : ℕ) (w : LockState) {x : Unit}
    → require_lock_active lock_id w ≡ ok x
    → (w.locks lock_id).owner ≢ 0
unfolding require_lock_active
active_lock lock_id w h =
    not_zero (w.locks lock_id).owner
      (guard-eq-ok (not ((w.locks lock_id).owner == 0)) (lock_not_active lock_id) h)

spender_of :
    (sender lock_id : ℕ) (w : LockState) {x : Unit}
    → require_lock_spender sender lock_id w ≡ ok x
    → (w.locks lock_id).spender ≡ sender
unfolding require_lock_spender
spender_of sender lock_id w h =
    let spender = (w.locks lock_id).spender in
    equal spender sender
      (guard-eq-ok (spender == sender) (lock_unauthorized lock_id spender sender) h)

owner_of :
    (sender lock_id : ℕ) (w : LockState) {x : Unit}
    → require_lock_owner sender lock_id w ≡ ok x
    → (w.locks lock_id).owner ≡ sender
unfolding require_lock_owner
owner_of sender lock_id w h =
    let owner = (w.locks lock_id).owner in
    equal owner sender (guard-eq-ok (owner == sender) (lock_unauthorized lock_id owner sender) h)

module _ (hooks : LockHooks) (lock_id_of : ℕ → ℕ → ℕ)
    (unlock_hash : ℕ → List ℕ → List ℕ → List ℕ → ℕ → ℕ) (spend_domain cancel_domain : ℕ) where
  pub create_lock_parts :
      (sender : ℕ) (args : CreateLockArgs) (sc kc : ℕ) (w v : LockState)
      → create_lock hooks lock_id_of unlock_hash spend_domain cancel_domain sender args sc kc w
        ≡ ok v
      → ((w.locks (lock_id_of sender args.tx_id)).owner ≡ 0)
        × (u : LockState) × (use_tx_id sender args.tx_id w ≡ ok u)
        × (s : BaseStorage) × (hooks.do_lock_transition args u.storage ≡ ok s)
        × (v ≡ record u {
          storage = s;
          locks =
              write_lock
                (lock_id_of sender args.tx_id)
                (record {
                  owner = sender;
                  spender = sender;
                  spend_commitment = sc;
                  cancel_commitment = kc;
                  locked_inputs = args.locked_outputs;
                })
                u.locks;
          utxo_delegates = set_lock_delegates args.locked_outputs sender u.utxo_delegates;
        })
  unfolding create_lock
  create_lock_parts sender args sc kc w v h =
      let lock_id = lock_id_of sender args.tx_id in
      let (_, free, h₁) =
        >>=-eq-ok (guard ((w.locks lock_id).owner == 0) (duplicate_lock lock_id)) _ h in
      let (u, tx, h₂) = >>=-eq-ok (use_tx_id sender args.tx_id w) _ h₁ in
      let (s, moved, h₃) = >>=-eq-ok (in_storage (hooks.do_lock_transition args u.storage)) _ h₂ in
      (
        equal (w.locks lock_id).owner 0
            (guard-eq-ok ((w.locks lock_id).owner == 0) (duplicate_lock lock_id) free),
        u,
        tx,
        s,
        in_storage-eq-ok (hooks.do_lock_transition args u.storage) moved,
        sym (ok-injective h₃),
      )

  pub update_lock_parts :
      (sender lock_id tx sc kc : ℕ) (w v : LockState)
      → update_lock hooks lock_id_of unlock_hash spend_domain cancel_domain sender lock_id tx sc kc
          w
        ≡ ok v
      → ((w.locks lock_id).owner ≢ 0)
        × ((w.locks lock_id).owner ≡ sender)
        × ((w.locks lock_id).spender ≡ (w.locks lock_id).owner)
        × (u : LockState) × (use_tx_id sender tx w ≡ ok u)
        × (v ≡ record u {
          locks =
              write_lock lock_id
                (record (u.locks lock_id) { spend_commitment = sc; cancel_commitment = kc })
                u.locks;
        })
  unfolding update_lock
  update_lock_parts sender lock_id tx sc kc w v h =
      let lock = w.locks lock_id in
      let (_, active, h₁) = >>=-eq-ok (require_lock_active lock_id w) _ h in
      let (_, owned, h₂) = >>=-eq-ok (require_lock_owner sender lock_id w) _ h₁ in
      let (_, mutable, h₃) =
        >>=-eq-ok (guard (lock.spender == lock.owner) (lock_immutable lock_id)) _ h₂ in
      let (u, used, h₄) = >>=-eq-ok (use_tx_id sender tx w) _ h₃ in
      (
        active_lock lock_id w active,
        owner_of sender lock_id w owned,
        equal lock.spender lock.owner
            (guard-eq-ok (lock.spender == lock.owner) (lock_immutable lock_id) mutable),
        u,
        used,
        sym (ok-injective h₄),
      )

  pub delegate_lock_parts :
      (sender lock_id tx new_spender : ℕ) (w v : LockState)
      → delegate_lock hooks lock_id_of unlock_hash spend_domain cancel_domain sender lock_id tx
          new_spender w
        ≡ ok v
      → ((w.locks lock_id).owner ≢ 0)
        × ((w.locks lock_id).spender ≡ sender)
        × (u : LockState) × (use_tx_id sender tx w ≡ ok u)
        × (v ≡ record u {
          locks = write_lock lock_id (record (u.locks lock_id) { spender = new_spender }) u.locks;
          utxo_delegates =
              set_lock_delegates (u.locks lock_id).locked_inputs new_spender u.utxo_delegates;
        })
  unfolding delegate_lock
  delegate_lock_parts sender lock_id tx new_spender w v h =
      let (_, active, h₁) = >>=-eq-ok (require_lock_active lock_id w) _ h in
      let (_, mine, h₂) = >>=-eq-ok (require_lock_spender sender lock_id w) _ h₁ in
      let (u, used, h₃) = >>=-eq-ok (use_tx_id sender tx w) _ h₂ in
      (
        active_lock lock_id w active,
        spender_of sender lock_id w mine,
        u,
        used,
        sym (ok-injective h₃),
      )

  -- What an unlocking call has done, from the lock that it names and the commitment that it is held to.
  abbrev pub Consumed : ℕ → ℕ → ℕ → ℕ → SpendLockArgs → LockState → LockState → Type 0
  Consumed sender lock_id expected_hash domain args w v =
      ((w.locks lock_id).owner ≢ 0)
      × ((w.locks lock_id).spender ≡ sender)
      × (expected_hash ≢ 0
          → unlock_hash domain (w.locks lock_id).locked_inputs args.locked_outputs args.outputs
              args.data_hash
            ≡ expected_hash)
      × (u : LockState) × (use_tx_id sender args.tx_id w ≡ ok u)
      × (s : BaseStorage) × (hooks.transfer_locked (w.locks lock_id).locked_inputs
            args.locked_outputs args.outputs args.accepted u.storage
          ≡ ok s)
      × (v.storage ≡ s)
      × (v.locks ≡ write_lock lock_id no_lock u.locks)
      × (v.tx_ids ≡ u.tx_ids)

  consume_lock_parts :
      (sender lock_id : ℕ) (locked_inputs : List ℕ) (expected_hash domain : ℕ)
      (args : SpendLockArgs) (w v : LockState)
      → consume_lock hooks lock_id_of unlock_hash spend_domain cancel_domain sender lock_id
          locked_inputs expected_hash domain args w
        ≡ ok v
      → (expected_hash ≢ 0
          → unlock_hash domain locked_inputs args.locked_outputs args.outputs args.data_hash
            ≡ expected_hash)
        × (u : LockState) × (use_tx_id sender args.tx_id w ≡ ok u)
        × (s : BaseStorage) × (hooks.transfer_locked locked_inputs args.locked_outputs args.outputs
              args.accepted u.storage
            ≡ ok s)
        × (v.storage ≡ s)
        × (v.locks ≡ write_lock lock_id no_lock u.locks)
        × (v.tx_ids ≡ u.tx_ids)
  unfolding consume_lock
  consume_lock_parts sender lock_id locked_inputs expected_hash domain args w v h =
      let actual =
        unlock_hash domain locked_inputs args.locked_outputs args.outputs args.data_hash in
      let (u, used, h₁) = >>=-eq-ok (use_tx_id sender args.tx_id w) _ h in
      let (_, matched, h₂) =
        >>=-eq-ok
          (guard (if expected_hash == 0 then true else actual == expected_hash)
            (invalid_unlock_hash expected_hash actual))
          _ h₁ in
      let (s, moved, h₃) =
        >>=-eq-ok
          (in_storage (
            hooks.transfer_locked locked_inputs args.locked_outputs args.outputs args.accepted
              u.storage))
          _ h₂ in
      let final = sym (ok-injective h₃) in
      let test =
        guard-eq-ok (if expected_hash == 0 then true else actual == expected_hash)
          (invalid_unlock_hash expected_hash actual) matched in
      (
        λ nz. ground (arith, test),
        u,
        used,
        s,
        in_storage-eq-ok
            (hooks.transfer_locked locked_inputs args.locked_outputs args.outputs args.accepted
              u.storage)
            moved,
        ap (λ (x : LockState). x.storage) final,
        ap (λ (x : LockState). x.locks) final,
        ap (λ (x : LockState). x.tx_ids) final,
      )

  pub spend_lock_parts :
      (sender lock_id : ℕ) (args : SpendLockArgs) (w v : LockState)
      → spend_lock hooks lock_id_of unlock_hash spend_domain cancel_domain sender lock_id args w
        ≡ ok v
      → Consumed sender lock_id (w.locks lock_id).spend_commitment spend_domain args w v
  unfolding spend_lock
  spend_lock_parts sender lock_id args w v h =
      let lock = w.locks lock_id in
      let (_, active, h₁) = >>=-eq-ok (require_lock_active lock_id w) _ h in
      let (_, mine, h₂) = >>=-eq-ok (require_lock_spender sender lock_id w) _ h₁ in
      let (matched, u, used, s, moved, st, lk, ids) =
        consume_lock_parts sender lock_id lock.locked_inputs lock.spend_commitment spend_domain args
          w v h₂ in
      (
        active_lock lock_id w active,
        spender_of sender lock_id w mine,
        matched,
        u,
        used,
        s,
        moved,
        st,
        lk,
        ids,
      )

  pub cancel_lock_parts :
      (sender lock_id : ℕ) (args : SpendLockArgs) (w v : LockState)
      → cancel_lock hooks lock_id_of unlock_hash spend_domain cancel_domain sender lock_id args w
        ≡ ok v
      → Consumed sender lock_id (w.locks lock_id).cancel_commitment cancel_domain args w v
  unfolding cancel_lock
  cancel_lock_parts sender lock_id args w v h =
      let lock = w.locks lock_id in
      let (_, active, h₁) = >>=-eq-ok (require_lock_active lock_id w) _ h in
      let (_, mine, h₂) = >>=-eq-ok (require_lock_spender sender lock_id w) _ h₁ in
      let (matched, u, used, s, moved, st, lk, ids) =
        consume_lock_parts sender lock_id lock.locked_inputs lock.cancel_commitment cancel_domain
          args w v h₂ in
      (
        active_lock lock_id w active,
        spender_of sender lock_id w mine,
        matched,
        u,
        used,
        s,
        moved,
        st,
        lk,
        ids,
      )
