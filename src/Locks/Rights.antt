-- ===== src/Locks/Rights.antt =====
-- Who may change a lock, and that each transaction id is used once.
use zeto.Base.{
  ℕ, ◌≡◌, ◌≢◌, ◌⊎◌, refl, sym, ap, ◌∙◌, true, false, not, Option, none, some, Bool-cases, inl, inr,
  List, [], ◌∷◌, ◌==◌, Result-cases, ok, >>=-eq-ok, ok-injective, arith,
}
use zeto.Locks.Parts.{
  Used, use_tx_id-Used, create_lock_parts, update_lock_parts, delegate_lock_parts, Consumed,
  spend_lock_parts, cancel_lock_parts,
}
use zeto.Locks.{
  LockInfo, LockState, SpendLockArgs, LockHooks, in_storage, write_lock, no_lock, LockCall, own,
  create, update, delegate, spend, cancel, run, history,
}

-- What a call may do with a lock: leave it; make it for the sender, where there is none; or change it
-- without its owner, or delete it, for the sender who is its spender.
abbrev pub Allowed : ℕ → LockInfo → LockInfo → Type 0
Allowed sender l m =
    (m ≡ l)
    ⊎ (((l.owner ≡ 0) × (m.owner ≡ sender) × (m.spender ≡ sender))
        ⊎ ((l.owner ≢ 0) × (l.spender ≡ sender) × ((m.owner ≡ l.owner) ⊎ (m ≡ no_lock))))

-- What a call that carries a transaction id does with the ids and the locks.
pub record Change (sender tx : ℕ) (w v : LockState) : Type 0 where
  pub fresh : w.tx_ids sender tx ≡ false
  pub used : v.tx_ids sender tx ≡ true
  pub kept : (a i : ℕ) → w.tx_ids a i ≡ true → v.tx_ids a i ≡ true
  pub allowed : (lock_id : ℕ) → Allowed sender (w.locks lock_id) (v.locks lock_id)

write_lock-Allowed :
    (sender lock_id : ℕ) (lock : LockInfo) (locks : ℕ → LockInfo)
    → Allowed sender (locks lock_id) lock
    → (k : ℕ) → Allowed sender (locks k) (write_lock lock_id lock locks k)
unfolding write_lock
write_lock-Allowed sender lock_id lock locks h k = elim (Bool-cases (k == lock_id)) [
  | inl e ↦ let same : k ≡ lock_id = ground arith in rw (e, same) h
  | inr e ↦ rw e (inl refl)
]

-- A call that uses an id and writes one lock.
Change-write :
    (sender tx lock_id : ℕ) (lock : LockInfo) (w u v : LockState)
    → Used sender tx w u
    → v.tx_ids ≡ u.tx_ids
    → v.locks ≡ write_lock lock_id lock u.locks
    → Allowed sender (w.locks lock_id) lock
    → Change sender tx w v
Change-write sender tx lock_id lock w u v used_tx ids written h = record {
  fresh = used_tx.fresh;
  used = rw ids used_tx.used;
  kept = λ a i k. rw ids (used_tx.kept a i k);
  allowed =
      λ k. rw (written, used_tx.same_locks) (write_lock-Allowed sender lock_id lock w.locks h k);
}

not_zero : (n : ℕ) → not (n == 0) ≡ true → n ≢ 0
not_zero n h e = ground arith

equal : (m n : ℕ) → (m == n) ≡ true → m ≡ n
equal m n h = ground arith

module _ (hooks : LockHooks) (lock_id_of : ℕ → ℕ → ℕ)
    (unlock_hash : ℕ → List ℕ → List ℕ → List ℕ → ℕ → ℕ) (spend_domain cancel_domain : ℕ) where
  Consumed-Change :
      (sender lock_id expected_hash domain : ℕ) (args : SpendLockArgs) (w v : LockState)
      → Consumed hooks lock_id_of unlock_hash spend_domain cancel_domain sender lock_id
          expected_hash domain args w v
      → Change sender args.tx_id w v
  Consumed-Change sender lock_id expected_hash domain args w v
        (active, mine, matched, u, used, s, moved, st, lk, ids) =
      Change-write sender args.tx_id lock_id no_lock w u v
        (use_tx_id-Used sender args.tx_id w u used) ids lk (inr (inr (active, mine, inr refl)))

  -- The transaction id of a call, for the calls that have one.
  abbrev pub tx_of : LockCall hooks.OwnCall → Option ℕ
  tx_of (own c) = none
  tx_of (create args sc kc) = some args.tx_id
  tx_of (update lock_id tx sc kc) = some tx
  tx_of (delegate lock_id tx new_spender) = some tx
  tx_of (spend lock_id args) = some args.tx_id
  tx_of (cancel lock_id args) = some args.tx_id

  pub run-Change :
      (sender tx : ℕ) (c : LockCall hooks.OwnCall) (w v : LockState)
      → tx_of c ≡ some tx
      → run hooks lock_id_of unlock_hash spend_domain cancel_domain sender c w ≡ ok v
      → Change sender tx w v
  unfolding run
  run-Change sender tx (own c) w v e h = cc
  run-Change sender tx (create args sc kc) w v e h =
      let (free, u, used, s, moved, eq) =
        create_lock_parts hooks lock_id_of unlock_hash spend_domain cancel_domain sender args sc kc
          w v h in
      let same : args.tx_id ≡ tx = cc in
      rw (← same) (
        rw eq (
          Change-write sender args.tx_id (lock_id_of sender args.tx_id) _ w u _
            (use_tx_id-Used sender args.tx_id w u used) refl refl (inr (inl (free, refl, refl)))))
  run-Change sender tx (update lock_id tx' sc kc) w v e h =
      let (active, mine, mutable, u, used, eq) =
        update_lock_parts hooks lock_id_of unlock_hash spend_domain cancel_domain sender lock_id tx'
          sc kc w v h in
      let same : tx' ≡ tx = cc in
      let done = use_tx_id-Used sender tx' w u used in
      rw (← same) (
        rw eq (
          Change-write sender tx' lock_id _ w u _ done refl refl (
            inr
              (inr (active, mutable ∙ mine, inl (ap (λ ls. (ls lock_id).owner) done.same_locks))))))
  run-Change sender tx (delegate lock_id tx' new_spender) w v e h =
      let (active, mine, u, used, eq) =
        delegate_lock_parts hooks lock_id_of unlock_hash spend_domain cancel_domain sender lock_id
          tx' new_spender w v h in
      let same : tx' ≡ tx = cc in
      let done = use_tx_id-Used sender tx' w u used in
      rw (← same) (
        rw eq (
          Change-write sender tx' lock_id _ w u _ done refl refl
            (inr (inr (active, mine, inl (ap (λ ls. (ls lock_id).owner) done.same_locks))))))
  run-Change sender tx (spend lock_id args) w v e h =
      let same : args.tx_id ≡ tx = cc in
      rw (← same) (
        Consumed-Change sender lock_id _ _ args w v (
          spend_lock_parts hooks lock_id_of unlock_hash spend_domain cancel_domain sender lock_id
            args w v h))
  run-Change sender tx (cancel lock_id args) w v e h =
      let same : args.tx_id ≡ tx = cc in
      rw (← same) (
        Consumed-Change sender lock_id _ _ args w v (
          cancel_lock_parts hooks lock_id_of unlock_hash spend_domain cancel_domain sender lock_id
            args w v h))

  -- A call that goes through leaves each lock as it is, or makes it for the sender where there was
  -- none, or was sent by the lock's spender and deletes it or leaves its owner.
  pub run-Allowed :
      (sender : ℕ) (c : LockCall hooks.OwnCall) (w v : LockState) (lock_id : ℕ)
      → run hooks lock_id_of unlock_hash spend_domain cancel_domain sender c w ≡ ok v
      → Allowed sender (w.locks lock_id) (v.locks lock_id)
  unfolding run
  run-Allowed sender (own c) w v lock_id h =
      let (s, moved, e) = >>=-eq-ok (in_storage (hooks.own_call c w.storage)) _ h in
      rw (sym (ok-injective e)) (inl refl)
  run-Allowed sender (create args sc kc) w v lock_id h =
      (run-Change sender args.tx_id (create args sc kc) w v refl h).allowed lock_id
  run-Allowed sender (update id tx sc kc) w v lock_id h =
      (run-Change sender tx (update id tx sc kc) w v refl h).allowed lock_id
  run-Allowed sender (delegate id tx new_spender) w v lock_id h =
      (run-Change sender tx (delegate id tx new_spender) w v refl h).allowed lock_id
  run-Allowed sender (spend id args) w v lock_id h =
      (run-Change sender args.tx_id (spend id args) w v refl h).allowed lock_id
  run-Allowed sender (cancel id args) w v lock_id h =
      (run-Change sender args.tx_id (cancel id args) w v refl h).allowed lock_id

  run-kept :
      (sender : ℕ) (c : LockCall hooks.OwnCall) (w v : LockState) (a i : ℕ)
      → run hooks lock_id_of unlock_hash spend_domain cancel_domain sender c w ≡ ok v
      → w.tx_ids a i ≡ true
      → v.tx_ids a i ≡ true
  unfolding run
  run-kept sender (own c) w v a i h t =
      let (s, moved, e) = >>=-eq-ok (in_storage (hooks.own_call c w.storage)) _ h in
      rw (sym (ok-injective e)) t
  run-kept sender (create args sc kc) w v a i h t =
      (run-Change sender args.tx_id (create args sc kc) w v refl h).kept a i t
  run-kept sender (update id tx sc kc) w v a i h t =
      (run-Change sender tx (update id tx sc kc) w v refl h).kept a i t
  run-kept sender (delegate id tx new_spender) w v a i h t =
      (run-Change sender tx (delegate id tx new_spender) w v refl h).kept a i t
  run-kept sender (spend id args) w v a i h t =
      (run-Change sender args.tx_id (spend id args) w v refl h).kept a i t
  run-kept sender (cancel id args) w v a i h t =
      (run-Change sender args.tx_id (cancel id args) w v refl h).kept a i t

  history-kept :
      (cs : List (ℕ × LockCall hooks.OwnCall)) (w : LockState) (a i : ℕ)
      → w.tx_ids a i ≡ true
      → (history hooks lock_id_of unlock_hash spend_domain cancel_domain cs w).tx_ids a i ≡ true
  unfolding history
  history-kept [] w a i t = t
  history-kept ((sender, c) ∷ cs) w a i t =
      elim (Result-cases (run hooks lock_id_of unlock_hash spend_domain cancel_domain sender c w)) [
        | inl (v, h) ↦ rw (history, h) (history-kept cs v a i (run-kept sender c w v a i h t))
        | inr (e, h) ↦ rw (history, h) (history-kept cs w a i t)
      ]

  -- A transaction id that a sender has used in a call that went through is refused in every later call of
  -- that sender that carries it, whatever calls come in between.
  pub tx_id_once :
      (sender tx : ℕ) (c d : LockCall hooks.OwnCall) (w v : LockState)
      (cs : List (ℕ × LockCall hooks.OwnCall))
      → tx_of c ≡ some tx
      → tx_of d ≡ some tx
      → run hooks lock_id_of unlock_hash spend_domain cancel_domain sender c w ≡ ok v
      → (x : LockState)
      → run hooks lock_id_of unlock_hash spend_domain cancel_domain sender d
          (history hooks lock_id_of unlock_hash spend_domain cancel_domain cs v)
        ≢ ok x
  tx_id_once sender tx c d w v cs ec ed h x again =
      let later = history hooks lock_id_of unlock_hash spend_domain cancel_domain cs v in
      let gone = history-kept cs v sender tx (run-Change sender tx c w v ec h).used in
      let fresh = (run-Change sender tx d later x ed again).fresh in
      absurd (ground (arith, gone, fresh))
