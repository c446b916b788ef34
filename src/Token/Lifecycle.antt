-- ===== src/Token/Lifecycle.antt =====
-- The life of a UTXO, as a machine of four statuses that the storage implements.
use zeto.Base.{
  ℕ, ◌≡◌, ◌≢◌, ◌⊎◌, refl, Bool-cases, Bool, true, false, ◌||◌, List, [], ◌∷◌, if◌then◌else◌,
  Result-cases, inl, inr, ok, err, arith,
}
use zeto.Storage.{BaseStorage, unknown, unspent, spent_utxo, spent, locked}
use zeto.Storage.Checked.{mem}
use zeto.Token.{Call, call_mint, call_transfer, call_lock, call_transfer_locked, run, history}
use zeto.Token.Moves.{
  Moved, mint-Moved, transfer-Moved, do_lock_transition-Moved, transfer_locked-Moved,
}

pub data Status : Type 0 where
  absent free held gone : Status

-- What the storage's two mappings come to for a UTXO.
abbrev pub status_of : BaseStorage → ℕ → Status
status_of s x = elim (spent s x) [
  | unknown ↦ absent
  | unspent ↦ if locked s x then held else free
  | spent_utxo ↦ gone
]

-- What a call does with a UTXO: it puts it out, puts it out as locked, or takes it in.
pub record Role : Type 0 where
  pub is_output : Bool
  pub is_locked_output : Bool
  pub is_input : Bool

abbrev pub role_of : Call → ℕ → Role
role_of (call_mint utxos) x = record {
  is_output = mem x utxos;
  is_locked_output = false;
  is_input = false;
}
role_of (call_transfer input output accepted) x = record {
  is_output = mem x (output ∷ []);
  is_locked_output = false;
  is_input = mem x (input ∷ []);
}
role_of (call_lock inputs outputs locked_outputs accepted) x = record {
  is_output = mem x outputs;
  is_locked_output = mem x locked_outputs;
  is_input = mem x inputs;
}
role_of (call_transfer_locked locked_inputs locked_outputs outputs accepted) x = record {
  is_output = mem x outputs;
  is_locked_output = mem x locked_outputs;
  is_input = mem x locked_inputs;
}

abbrev pub moves_locked : Call → Bool
moves_locked (call_transfer_locked locked_inputs locked_outputs outputs accepted) = true
moves_locked c = false

-- The machine: a UTXO comes out free or held, is used once, and a held one by a call that moves locked
-- inputs only.
pub data Lives (c : Call) (x : ℕ) : Status → Status → Type 0 where
  comes_free :
      (role_of c x).is_output ≡ true
      → (role_of c x).is_locked_output ≡ false
      → (role_of c x).is_input ≡ false
      → Lives c x absent free
  comes_held :
      (role_of c x).is_locked_output ≡ true → (role_of c x).is_input ≡ false → Lives c x absent held
  free_goes :
      (role_of c x).is_input ≡ true
      → (role_of c x).is_output ≡ false
      → (role_of c x).is_locked_output ≡ false
      → Lives c x free gone
  held_goes :
      (role_of c x).is_input ≡ true
      → (role_of c x).is_output ≡ false
      → (role_of c x).is_locked_output ≡ false
      → moves_locked c ≡ true
      → Lives c x held gone
  stays :
      {a : Status}
      → (role_of c x).is_input ≡ false
      → (role_of c x).is_output ≡ false
      → (role_of c x).is_locked_output ≡ false
      → Lives c x a a

-- A life over several calls, each with whether it went through: one that did takes a step of the
-- machine, and one that did not leaves the status.
pub data Life (x : ℕ) : List (Call × Bool) → Status → Status → Type 0 where
  ended : {a : Status} → Life x [] a a
  refused :
      {c : Call} {cs : List (Call × Bool)} {a b : Status}
      → Life x cs a b
      → Life x ((c, false) ∷ cs) a b
  lived :
      {c : Call} {cs : List (Call × Bool)} {a b d : Status}
      → Lives c x a b
      → Life x cs b d
      → Life x ((c, true) ∷ cs) a d

module _ (o k i l : Bool) (s t : BaseStorage) (x : ℕ) (m : Moved o k i l s t x) where
  input_only : i ≡ true → (o ≡ false) × (k ≡ false)
  input_only e = (ground (arith, m.old, m.new, e), ground (arith, m.old, m.new, e))

  input_gone : i ≡ true → status_of t x ≡ gone
  unfolding spent locked
  input_gone e = let (out, nk) = input_only e in ground (arith, m.now, m.now_locked, e, out, nk)

  input_status : i ≡ true → (status_of s x ≡ free) ⊎ ((status_of s x ≡ held) × (l ≡ true))
  unfolding locked
  input_status e = elim (Bool-cases (locked s x)) [
    | inl h ↦ inr (ground (arith, m.old, e, h), ground (arith, m.free, e, h))
    | inr h ↦ inl (ground (arith, m.old, e, h))
  ]

  output_absent : (o || k) ≡ true → status_of s x ≡ absent
  output_absent e = rw (status_of, m.new e) refl

  locked_output_held : i ≡ false → k ≡ true → status_of t x ≡ held
  unfolding spent locked
  locked_output_held n e = ground (arith, m.now, m.now_locked, m.new, n, e)

  output_free : i ≡ false → k ≡ false → o ≡ true → status_of t x ≡ free
  unfolding spent locked
  output_free n nk e = ground (arith, m.now, m.now_locked, m.new, n, nk, e)

  other_status : i ≡ false → k ≡ false → o ≡ false → status_of t x ≡ status_of s x
  unfolding spent locked
  other_status n nk out = ground (arith, m.now, m.now_locked, n, nk, out)

Moved-Lives :
    (c : Call) (s t : BaseStorage) (x : ℕ)
    → Moved
        (role_of c x).is_output
        (role_of c x).is_locked_output
        (role_of c x).is_input
        (moves_locked c)
        s
        t
        x
    → Lives c x (status_of s x) (status_of t x)
Moved-Lives c s t x m =
    let r = role_of c x in
    elim (Bool-cases r.is_input) [
      | inl e ↦
          let (out, lout) = input_only _ _ _ _ s t x m e in
          elim (input_status _ _ _ _ s t x m e) [
            | inl f ↦ rw (f, input_gone _ _ _ _ s t x m e) (free_goes e out lout)
            | inr (h, l) ↦ rw (h, input_gone _ _ _ _ s t x m e) (held_goes e out lout l)
          ]
      | inr n ↦ elim (Bool-cases r.is_locked_output) [
        | inl e ↦
            rw
              (
                output_absent _ _ _ _ s t x m (ground (arith, e)),
                locked_output_held _ _ _ _ s t x m n e,
              )
              (comes_held e n)
        | inr lout ↦ elim (Bool-cases r.is_output) [
          | inl e ↦
              rw
                (
                  output_absent _ _ _ _ s t x m (ground (arith, e)),
                  output_free _ _ _ _ s t x m n lout e,
                )
                (comes_free e lout n)
          | inr out ↦ rw (other_status _ _ _ _ s t x m n lout out) (stays n out lout)
        ]
      ]
    ]

-- `Arrays.sort` and the token's own address.
module _ (sort : List ℕ → List ℕ) (token : ℕ) where
  -- The calls of a history, each with whether it goes through.
  abbrev pub outcomes : List Call → BaseStorage → List (Call × Bool)
  outcomes [] s = []
  outcomes (c ∷ cs) s = elim (run sort token c s) [
    | ok t ↦ (c, true) ∷ outcomes cs t
    | err e ↦ (c, false) ∷ outcomes cs s
  ]

-- `Arrays.sort` keeps the elements.
module _ (sort : List ℕ → List ℕ) (sort_keeps : (xs : List ℕ) (x : ℕ) → mem x (sort xs) ≡ mem x xs)
    (token : ℕ) where
  run-Moved :
      (c : Call) (s t : BaseStorage) (x : ℕ)
      → run sort token c s ≡ ok t
      → x ≢ 0
      → Moved
          (role_of c x).is_output
          (role_of c x).is_locked_output
          (role_of c x).is_input
          (moves_locked c)
          s
          t
          x
  unfolding run
  run-Moved (call_mint utxos) s t x h nz = mint-Moved sort sort_keeps token utxos s t x h nz
  run-Moved (call_transfer input output accepted) s t x h nz =
      transfer-Moved sort sort_keeps token input output accepted s t x h nz
  run-Moved (call_lock inputs outputs locked_outputs accepted) s t x h nz =
      do_lock_transition-Moved sort sort_keeps token inputs outputs locked_outputs accepted s t x h
        nz
  run-Moved (call_transfer_locked inputs locked_outputs outputs accepted) s t x h nz =
      transfer_locked-Moved sort sort_keeps token inputs locked_outputs outputs accepted s t x h nz

  -- The storage and the calls of a non-fungible token implement the machine: over any history, each
  -- UTXO other than zero lives a life of it, from its status before to its status after, in which each
  -- call that goes through takes a step of the machine and each call that reverts leaves the status.
  -- The sort is assumed to keep the elements.
  pub history-Life :
      (cs : List Call) (s : BaseStorage) (x : ℕ)
      → x ≢ 0
      → Life x (outcomes sort token cs s) (status_of s x) (status_of (history sort token cs s) x)
  unfolding history
  history-Life [] s x nz = ended
  history-Life (c ∷ cs) s x nz = elim (Result-cases (run sort token c s)) [
    | inl (t, h) ↦
        rw (h, outcomes)
          (lived (Moved-Lives c s t x (run-Moved c s t x h nz)) (history-Life cs t x nz))
    | inr (e, h) ↦ rw (h, outcomes) (refused (history-Life cs s x nz))
  ]
