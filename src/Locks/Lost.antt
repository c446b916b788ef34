-- ===== src/Locks/Lost.antt =====
-- What becomes of the locked outputs of a call that unlocks.
use zeto.Base.{
  ℕ, ◌≡◌, ◌≢◌, refl, sym, ap, ◌∙◌, Bool, true, false, Bool-cases, inl, inr, List, [], ◌∷◌, ◌==◌,
  Result-cases, ok, >>=-eq-ok, ok-injective, arith,
}
use zeto.Storage.{BaseStorage, unknown, unspent, spent, locked}
use zeto.Storage.Checked.{mem}
use zeto.Locks.{
  LockInfo, LockState, CreateLockArgs, SpendLockArgs, LockHooks, in_storage, write_lock, no_lock,
  LockCall, own, create, update, delegate, spend, cancel, run, history,
}
use zeto.Locks.Parts.{
  in_storage-eq-ok, use_tx_id-Used, create_lock_parts, update_lock_parts, delegate_lock_parts,
  Consumed, spend_lock_parts, cancel_lock_parts,
}

-- A UTXO that is not spent and is locked.
abbrev pub IsHeld : BaseStorage → ℕ → Type 0
IsHeld s x = (spent s x ≡ unspent) × (locked s x ≡ true)

abbrev pub IsKnown : BaseStorage → ℕ → Type 0
IsKnown s x = spent s x ≢ unknown

-- What a token promises of its calls, for each UTXO but zero: what is known stays known, what is held
-- can only be used by a call that moves locked inputs, and new locked outputs were unknown.
pub record LockHooksLaws (hooks : LockHooks) : Type 0 where
  pub own_known :
      (c : hooks.OwnCall) (s t : BaseStorage) (x : ℕ)
      → hooks.own_call c s ≡ ok t
      → x ≢ 0
      → IsKnown s x
      → IsKnown t x
  pub own_held :
      (c : hooks.OwnCall) (s t : BaseStorage) (x : ℕ)
      → hooks.own_call c s ≡ ok t
      → x ≢ 0
      → IsHeld s x
      → IsHeld t x
  pub create_known :
      (args : CreateLockArgs) (s t : BaseStorage) (x : ℕ)
      → hooks.do_lock_transition args s ≡ ok t
      → x ≢ 0
      → IsKnown s x
      → IsKnown t x
  pub create_held :
      (args : CreateLockArgs) (s t : BaseStorage) (x : ℕ)
      → hooks.do_lock_transition args s ≡ ok t
      → x ≢ 0
      → IsHeld s x
      → IsHeld t x
  pub create_new :
      (args : CreateLockArgs) (s t : BaseStorage) (x : ℕ)
      → hooks.do_lock_transition args s ≡ ok t
      → x ≢ 0
      → mem x args.locked_outputs ≡ true
      → (spent s x ≡ unknown) × IsKnown t x
  pub move_known :
      (inputs locked_outputs outputs : List ℕ) (accepted : Bool) (s t : BaseStorage) (x : ℕ)
      → hooks.transfer_locked inputs locked_outputs outputs accepted s ≡ ok t
      → x ≢ 0
      → IsKnown s x
      → IsKnown t x
  pub move_held :
      (inputs locked_outputs outputs : List ℕ) (accepted : Bool) (s t : BaseStorage) (x : ℕ)
      → hooks.transfer_locked inputs locked_outputs outputs accepted s ≡ ok t
      → x ≢ 0
      → mem x inputs ≡ false
      → IsHeld s x
      → IsHeld t x
  pub move_new :
      (inputs locked_outputs outputs : List ℕ) (accepted : Bool) (s t : BaseStorage) (x : ℕ)
      → hooks.transfer_locked inputs locked_outputs outputs accepted s ≡ ok t
      → x ≢ 0
      → mem x locked_outputs ≡ true
      → (spent s x ≡ unknown) × IsHeld t x

-- The inputs of every lock are known.
abbrev LocksKnown : ℕ → LockState → Type 0
LocksKnown x w = (lock_id : ℕ) → mem x (w.locks lock_id).locked_inputs ≡ true → IsKnown w.storage x

-- A UTXO that is held, and that no lock has as an input.
record Lost (x : ℕ) (w : LockState) : Type 0 where
  held : IsHeld w.storage x
  in_no_lock : (lock_id : ℕ) → mem x (w.locks lock_id).locked_inputs ≡ false

-- The state before the first call.
abbrev pub fresh_locks : BaseStorage → LockState
fresh_locks s = record {
  storage = s;
  locks = λ i. no_lock;
  tx_ids = λ a i. false;
  utxo_delegates = λ x. 0;
}

-- The lock of a call of createLock.
abbrev new_lock : ℕ → CreateLockArgs → ℕ → ℕ → LockInfo
new_lock sender args sc kc = record {
  owner = sender;
  spender = sender;
  spend_commitment = sc;
  cancel_commitment = kc;
  locked_inputs = args.locked_outputs;
}

pub IsHeld-IsKnown : (s : BaseStorage) (x : ℕ) → IsHeld s x → IsKnown s x
IsHeld-IsKnown s x (u, l) e = ground (arith, u, e)

-- A claim on every lock, after one has been written.
write_lock_all :
    (P : LockInfo → Type 0) (lock_id : ℕ) (lock : LockInfo) (locks : ℕ → LockInfo)
    → P lock
    → ((k : ℕ) → P (locks k))
    → (k : ℕ) → P (write_lock lock_id lock locks k)
unfolding write_lock
write_lock_all P lock_id lock locks h hs k = elim (Bool-cases (k == lock_id)) [
  | inl e ↦ rw e h
  | inr e ↦ rw e (hs k)
]

module _ (hooks : LockHooks) (laws : LockHooksLaws hooks) (lock_id_of : ℕ → ℕ → ℕ)
    (unlock_hash : ℕ → List ℕ → List ℕ → List ℕ → ℕ → ℕ) (spend_domain cancel_domain : ℕ) where
  Consumed-known :
      (sender lock_id expected domain : ℕ) (args : SpendLockArgs) (w v : LockState) (x : ℕ)
      → x ≢ 0
      → Consumed hooks lock_id_of unlock_hash spend_domain cancel_domain sender lock_id expected
          domain args w v
      → LocksKnown x w
      → LocksKnown x v
  Consumed-known sender lock_id expected domain args w v x nz
        (active, mine, matched, u, used, s, moved, st, lk, ids) all =
      let done = use_tx_id-Used sender args.tx_id w u used in
      rw (st, lk, done.same_locks)
        (write_lock_all (λ l. mem x l.locked_inputs ≡ true → IsKnown s x) lock_id no_lock w.locks
          (λ m. absurd (ground arith))
          (λ k m.
            laws.move_known (w.locks lock_id).locked_inputs args.locked_outputs args.outputs
              args.accepted w.storage s x (rw done.same_storage at moved) nz (all k m)))

  run-known :
      (sender : ℕ) (c : LockCall hooks.OwnCall) (w v : LockState) (x : ℕ)
      → x ≢ 0
      → run hooks lock_id_of unlock_hash spend_domain cancel_domain sender c w ≡ ok v
      → LocksKnown x w
      → LocksKnown x v
  unfolding run
  run-known sender (own c) w v x nz h all =
      let (s, moved, e) = >>=-eq-ok (in_storage (hooks.own_call c w.storage)) _ h in
      rw (sym (ok-injective e)) (λ k m.
        laws.own_known c w.storage s x (in_storage-eq-ok (hooks.own_call c w.storage) moved) nz
          (all k m))
  run-known sender (create args sc kc) w v x nz h all =
      let (free, u, used, s, moved, eq) =
        create_lock_parts hooks lock_id_of unlock_hash spend_domain cancel_domain sender args sc kc
          w v h in
      let done = use_tx_id-Used sender args.tx_id w u used in
      let moved' = rw done.same_storage at moved in
      rw (eq, done.same_locks)
        (write_lock_all (λ l. mem x l.locked_inputs ≡ true → IsKnown s x)
          (lock_id_of sender args.tx_id) (new_lock sender args sc kc) w.locks
          (λ m. (laws.create_new args w.storage s x moved' nz m).1)
          (λ k m. laws.create_known args w.storage s x moved' nz (all k m)))
  run-known sender (update lock_id tx sc kc) w v x nz h all =
      let (active, mine, mutable, u, used, eq) =
        update_lock_parts hooks lock_id_of unlock_hash spend_domain cancel_domain sender lock_id tx
          sc kc w v h in
      let done = use_tx_id-Used sender tx w u used in
      rw (eq, done.same_locks, done.same_storage)
        (write_lock_all (λ l. mem x l.locked_inputs ≡ true → IsKnown w.storage x) lock_id
          (record (w.locks lock_id) { spend_commitment = sc; cancel_commitment = kc }) w.locks
          (all lock_id) all)
  run-known sender (delegate lock_id tx new_spender) w v x nz h all =
      let (active, mine, u, used, eq) =
        delegate_lock_parts hooks lock_id_of unlock_hash spend_domain cancel_domain sender lock_id
          tx new_spender w v h in
      let done = use_tx_id-Used sender tx w u used in
      rw (eq, done.same_locks, done.same_storage)
        (write_lock_all (λ l. mem x l.locked_inputs ≡ true → IsKnown w.storage x) lock_id
          (record (w.locks lock_id) { spender = new_spender }) w.locks (all lock_id) all)
  run-known sender (spend lock_id args) w v x nz h all =
      Consumed-known sender lock_id _ _ args w v x nz
        (spend_lock_parts hooks lock_id_of unlock_hash spend_domain cancel_domain sender lock_id
          args w v h)
        all
  run-known sender (cancel lock_id args) w v x nz h all =
      Consumed-known sender lock_id _ _ args w v x nz
        (cancel_lock_parts hooks lock_id_of unlock_hash spend_domain cancel_domain sender lock_id
          args w v h)
        all

  Lost-write :
      (lock_id x : ℕ) (lock : LockInfo) (w v : LockState)
      → IsHeld v.storage x
      → v.locks ≡ write_lock lock_id lock w.locks
      → mem x lock.locked_inputs ≡ false
      → Lost x w
      → Lost x v
  Lost-write lock_id x lock w v held eq none lost = record {
    held = held;
    in_no_lock = rw eq (
        write_lock_all (λ l. mem x l.locked_inputs ≡ false) lock_id lock w.locks none
          lost.in_no_lock);
  }

  Consumed-Lost :
      (sender lock_id expected domain : ℕ) (args : SpendLockArgs) (w v : LockState) (x : ℕ)
      → x ≢ 0
      → Consumed hooks lock_id_of unlock_hash spend_domain cancel_domain sender lock_id expected
          domain args w v
      → Lost x w
      → Lost x v
  Consumed-Lost sender lock_id expected domain args w v x nz
        (active, mine, matched, u, used, s, moved, st, lk, ids) lost =
      let done = use_tx_id-Used sender args.tx_id w u used in
      Lost-write lock_id x no_lock w v
        (rw st (
          laws.move_held (w.locks lock_id).locked_inputs args.locked_outputs args.outputs
            args.accepted w.storage s x (rw done.same_storage at moved) nz (lost.in_no_lock lock_id)
            lost.held))
        (lk ∙ ap (write_lock lock_id no_lock) done.same_locks) refl lost

  run-Lost :
      (sender : ℕ) (c : LockCall hooks.OwnCall) (w v : LockState) (x : ℕ)
      → x ≢ 0
      → run hooks lock_id_of unlock_hash spend_domain cancel_domain sender c w ≡ ok v
      → Lost x w
      → Lost x v
  unfolding run
  run-Lost sender (own c) w v x nz h lost =
      let (s, moved, e) = >>=-eq-ok (in_storage (hooks.own_call c w.storage)) _ h in
      rw (sym (ok-injective e)) (record {
        held =
            laws.own_held c w.storage s x (in_storage-eq-ok (hooks.own_call c w.storage) moved) nz
              lost.held;
        in_no_lock = lost.in_no_lock;
      })
  run-Lost sender (create args sc kc) w v x nz h lost =
      let (free, u, used, s, moved, eq) =
        create_lock_parts hooks lock_id_of unlock_hash spend_domain cancel_domain sender args sc kc
          w v h in
      let done = use_tx_id-Used sender args.tx_id w u used in
      let moved' = rw done.same_storage at moved in
      Lost-write (lock_id_of sender args.tx_id) x (new_lock sender args sc kc) w v
        (rw eq (laws.create_held args w.storage s x moved' nz lost.held))
        (rw (eq, done.same_locks) refl)
        (elim (Bool-cases (mem x args.locked_outputs)) [
          | inl m ↦
              let (new, known) = laws.create_new args w.storage s x moved' nz m in
              absurd (IsHeld-IsKnown w.storage x lost.held new)
          | inr m ↦ m
        ])
        lost
  run-Lost sender (update lock_id tx sc kc) w v x nz h lost =
      let (active, mine, mutable, u, used, eq) =
        update_lock_parts hooks lock_id_of unlock_hash spend_domain cancel_domain sender lock_id tx
          sc kc w v h in
      let done = use_tx_id-Used sender tx w u used in
      Lost-write lock_id x
        (record (w.locks lock_id) { spend_commitment = sc; cancel_commitment = kc }) w v
        (rw (eq, done.same_storage) lost.held) (rw (eq, done.same_locks) refl)
        (lost.in_no_lock lock_id) lost
  run-Lost sender (delegate lock_id tx new_spender) w v x nz h lost =
      let (active, mine, u, used, eq) =
        delegate_lock_parts hooks lock_id_of unlock_hash spend_domain cancel_domain sender lock_id
          tx new_spender w v h in
      let done = use_tx_id-Used sender tx w u used in
      Lost-write lock_id x (record (w.locks lock_id) { spender = new_spender }) w v
        (rw (eq, done.same_storage) lost.held) (rw (eq, done.same_locks) refl)
        (lost.in_no_lock lock_id) lost
  run-Lost sender (spend lock_id args) w v x nz h lost =
      Consumed-Lost sender lock_id _ _ args w v x nz
        (spend_lock_parts hooks lock_id_of unlock_hash spend_domain cancel_domain sender lock_id
          args w v h)
        lost
  run-Lost sender (cancel lock_id args) w v x nz h lost =
      Consumed-Lost sender lock_id _ _ args w v x nz
        (cancel_lock_parts hooks lock_id_of unlock_hash spend_domain cancel_domain sender lock_id
          args w v h)
        lost

  -- What every call keeps, every history keeps.
  history-keeps :
      (P : LockState → Type 0)
      → ((sender : ℕ) (c : LockCall hooks.OwnCall) (w v : LockState)
          → run hooks lock_id_of unlock_hash spend_domain cancel_domain sender c w ≡ ok v
          → P w
          → P v)
      → (cs : List (ℕ × LockCall hooks.OwnCall)) (w : LockState) → P w
      → P (history hooks lock_id_of unlock_hash spend_domain cancel_domain cs w)
  unfolding history
  history-keeps P keep [] w p = p
  history-keeps P keep ((sender, c) ∷ cs) w p =
      elim (Result-cases (run hooks lock_id_of unlock_hash spend_domain cancel_domain sender c w)) [
        | inl (v, h) ↦ rw (history, h) (history-keeps P keep cs v (keep sender c w v h p))
        | inr (e, h) ↦ rw (history, h) (history-keeps P keep cs w p)
      ]

  -- An unlocking call that goes through makes its locked outputs lost.
  Consumed-outputs-Lost :
      (sender lock_id expected domain : ℕ) (args : SpendLockArgs) (w v : LockState) (x : ℕ)
      → x ≢ 0
      → mem x args.locked_outputs ≡ true
      → LocksKnown x w
      → Consumed hooks lock_id_of unlock_hash spend_domain cancel_domain sender lock_id expected
          domain args w v
      → Lost x v
  Consumed-outputs-Lost sender lock_id expected domain args w v x nz out all
        (active, mine, matched, u, used, s, moved, st, lk, ids) =
      let done = use_tx_id-Used sender args.tx_id w u used in
      let (new, held) =
        laws.move_new (w.locks lock_id).locked_inputs args.locked_outputs args.outputs args.accepted
          w.storage s x (rw done.same_storage at moved) nz out in
      record {
        held = rw st held;
        in_no_lock =
            rw (lk, done.same_locks)
              (write_lock_all (λ l. mem x l.locked_inputs ≡ false) lock_id no_lock w.locks refl
                (λ k. elim (Bool-cases (mem x (w.locks k).locked_inputs)) [
                  | inl m ↦ absurd (all k m new)
                  | inr m ↦ m
                ]));
      }

  -- For a token that keeps the laws of the hooks, from a storage without locks, after any calls: a UTXO
  -- other than zero that a call of spendLock puts out as locked is never spent. After any further calls
  -- it is still locked and not spent.
  pub relocked_lost :
      (start : BaseStorage) (before : List (ℕ × LockCall hooks.OwnCall)) (sender lock_id : ℕ)
      (args : SpendLockArgs) (v : LockState) (x : ℕ) (after : List (ℕ × LockCall hooks.OwnCall))
      → run hooks lock_id_of unlock_hash spend_domain cancel_domain sender (spend lock_id args) (
          history hooks lock_id_of unlock_hash spend_domain cancel_domain before
            (fresh_locks start))
        ≡ ok v
      → x ≢ 0
      → mem x args.locked_outputs ≡ true
      → IsHeld (history hooks lock_id_of unlock_hash spend_domain cancel_domain after v).storage x
  unfolding run
  relocked_lost start before sender lock_id args v x after h nz out =
      let w =
        history hooks lock_id_of unlock_hash spend_domain cancel_domain before
          (fresh_locks start) in
      let all : LocksKnown x w =
        history-keeps (LocksKnown x) (λ a c w v r p. run-known a c w v x nz r p) before
          (fresh_locks start) (λ k m. absurd (ground arith)) in
      let lost = Consumed-outputs-Lost sender lock_id _ _ args w v x nz out all (
        spend_lock_parts hooks lock_id_of unlock_hash spend_domain cancel_domain sender lock_id args
          w v h) in
      (history-keeps (Lost x) (λ a c w v r p. run-Lost a c w v x nz r p) after v lost).held
