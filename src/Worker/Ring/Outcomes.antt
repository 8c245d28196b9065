-- ===== src/Worker/Ring/Outcomes.antt =====
-- How the reading of a file in a slot ends.
use bc_duplicate.Prelude.{
  ℕ, ◌<◌, ◌≡◌, ◌≢◌, refl, sym, true, false, Bool-cases, inl, inr, ◌⊎◌, List, arith, take, ltb, ◌==◌,
}
use mathlib.Core.Path.{subst}
use bc_duplicate.Worker.{eio, ecanceled, Consumer}
use bc_duplicate.Worker.Ring.{
  Item, Result, handle_openat, handle_read, handle_probe, handle_operation, with_error,
  canceled_to_eio, consume_buffer, op_openat, op_read, op_probe,
}

-- An errno of a completion is not 0.
abbrev pub IsErrno : Result → Type 0
IsErrno (Result.failed e) = 0 < e
IsErrno (Result.transferred n) = Unit {0}

canceled_to_eio-pos : (e : ℕ) → 0 < e → canceled_to_eio e ≢ 0
canceled_to_eio-pos e h = elim (Bool-cases (e == ecanceled)) [
  | inl same ↦ rw same (λ k. omega (arith, k))
  | inr other ↦ rw other (λ k. omega (arith, h, k))
]

module _ {ℓ} {S : Type ℓ} (consumer_function : Consumer S) where
  -- The three completions of a slot that count, from a fresh item on.
  abbrev pub in_slot : (opened read probed : Result) (buffer : List ℕ) → Item S → Item S × ℕ
  in_slot opened read probed buffer item =
      handle_operation consumer_function op_probe probed buffer (
        handle_operation consumer_function op_read read buffer
          (handle_operation consumer_function op_openat opened buffer (item, 0)))

  abbrev pub Failed : Item S → Type 0
  Failed item = (item.success ≡ false) × (item.errno_value ≢ 0)

  -- The file was read whole, it had not grown, and the consumer took it.
  abbrev pub Succeeded : (read probed : Result) (buffer : List ℕ) → Item S → Item S → Type ℓ
  Succeeded read probed buffer item r =
      (read ≡ Result.transferred item.file_size)
      × (probed ≡ Result.transferred 0)
      × (r.consumer ≡ (consumer_function item.consumer (take item.file_size buffer)).0)
      × ((consumer_function item.consumer (take item.file_size buffer)).1 ≡ true)
      × (r.success ≡ true)
      × (r.errno_value ≡ 0)

  -- With an error a later probe changes nothing.
  probe-keeps :
      (probed : Result) (buffer : List ℕ) (item : Item S) (n : ℕ)
      → (item.errno_value == 0) ≡ false
      → handle_probe consumer_function probed buffer (item, n) ≡ item
  unfolding handle_probe
  probe-keeps (Result.failed e) buffer item n h = rw h refl
  probe-keeps (Result.transferred k) buffer item n h = rw h refl

  consume_buffer-ends :
      (read : Result) (buffer : List ℕ) (item : Item S)
      → read ≡ Result.transferred item.file_size
      → (let r = consume_buffer consumer_function buffer (item, item.file_size) in
          Succeeded read (Result.transferred 0) buffer item r ⊎ Failed r)
  unfolding consume_buffer
  consume_buffer-ends read buffer item h =
      elim (Bool-cases (consumer_function item.consumer (take item.file_size buffer)).1) [
        | inl taken ↦ rw taken (inl (h, refl, refl, refl, refl, refl))
        | inr refused ↦ rw refused (inr (refl, λ k. omega (arith, k)))
      ]

  -- The probe, behind an open and a read that left no error.
  probe-ends :
      (probed : Result) (buffer : List ℕ) (item : Item S)
      → IsErrno probed
      → 0 < item.file_size
      → item.errno_value ≡ 0
      → item.success ≡ false
      → (let r = handle_probe consumer_function probed buffer (item, item.file_size) in
          Succeeded (Result.transferred item.file_size) probed buffer item r ⊎ Failed r)
  unfolding handle_probe
  probe-ends (Result.failed e) buffer item errno size clean fresh =
      let no_error : (item.errno_value == 0) ≡ true = ground (arith, clean) in
      rw no_error (inr (refl, canceled_to_eio-pos e errno))
  probe-ends (Result.transferred k) buffer item errno size clean fresh =
      let no_error : (item.errno_value == 0) ≡ true = ground (arith, clean) in
      let holds : (item.file_size == 0) ≡ false = ground (arith, size) in
      elim (Bool-cases (ltb 0 k)) [
        | inl grown ↦ rw (no_error, grown) (inr (refl, λ e. omega (arith, e)))
        | inr whole ↦
            let none_left : 0 ≡ k = ground (arith, whole) in
            subst
              (λ j.
                let r =
                  handle_probe consumer_function (Result.transferred j) buffer
                    (item, item.file_size) in
                Succeeded (Result.transferred item.file_size) (Result.transferred j) buffer item r
                ⊎ Failed r)
              none_left
              (rw (no_error, holds)
                (consume_buffer-ends (Result.transferred item.file_size) buffer item refl))
      ]

  -- The read and the probe, behind an open that succeeded.
  read-ends :
      (read probed : Result) (buffer : List ℕ) (item : Item S)
      → IsErrno read
      → IsErrno probed
      → 0 < item.file_size
      → item.errno_value ≡ 0
      → item.success ≡ false
      → (let r = handle_probe consumer_function probed buffer (handle_read read (item, 0)) in
          Succeeded read probed buffer item r ⊎ Failed r)
  unfolding handle_read
  read-ends (Result.failed e) probed buffer item he hp size clean fresh =
      let bad = canceled_to_eio-pos e he in
      let stuck : (canceled_to_eio e == 0) ≡ false = ground (arith, bad) in
      let no_error : (item.errno_value == 0) ≡ true = ground (arith, clean) in
      rw no_error (
        rw (probe-keeps probed buffer (with_error item (canceled_to_eio e)) 0 stuck)
          (inr (refl, bad)))
  read-ends (Result.transferred k) probed buffer item he hp size clean fresh =
      elim (Bool-cases (k == item.file_size)) [
        | inl whole ↦
            let here : item.file_size ≡ k = ground (arith, whole) in
            rw whole (
              subst
                (λ j.
                  let r = handle_probe consumer_function probed buffer (item, j) in
                  Succeeded (Result.transferred j) probed buffer item r ⊎ Failed r)
                here (probe-ends probed buffer item hp size clean fresh))
        | inr short ↦ rw short (
            rw (probe-keeps probed buffer (with_error item eio) 0 refl)
              (inr (refl, λ e. omega (arith, e))))
      ]

  -- An error stays an error.
  handle_read-Failed :
      (read : Result) (item : Item S) (n : ℕ) → Failed item → Failed (handle_read read (item, n)).0
  unfolding handle_read
  handle_read-Failed (Result.failed e) item n h =
      let stuck : (item.errno_value == 0) ≡ false = ground (arith, h.1) in rw stuck h
  handle_read-Failed (Result.transferred k) item n h = elim (Bool-cases (k == item.file_size)) [
    | inl whole ↦ rw whole h
    | inr short ↦ rw short (refl, λ e. omega (arith, e))
  ]

  handle_probe-Failed :
      (probed : Result) (buffer : List ℕ) (p : Item S × ℕ)
      → Failed p.0
      → Failed (handle_probe consumer_function probed buffer p)
  handle_probe-Failed probed buffer (item, n) h =
      let stuck : (item.errno_value == 0) ≡ false = ground (arith, h.1) in
      subst Failed (sym (probe-keeps probed buffer item n stuck)) h

  -- The completions of the open, the read and the probe of a slot, from an item with no result
  -- yet, end in one of two ways: the read brought as many bytes as the file had, the probe behind
  -- them found nothing, the consumer took those bytes and the item stands as a success; or the item
  -- stands as no success, with an errno that is not 0.
  pub in_slot-ends :
      (opened read probed : Result) (buffer : List ℕ) (item : Item S)
      → IsErrno opened
      → IsErrno read
      → IsErrno probed
      → 0 < item.file_size
      → item.errno_value ≡ 0
      → item.success ≡ false
      → (let r = (in_slot opened read probed buffer item).0 in
          Succeeded read probed buffer item r ⊎ Failed r)
  unfolding handle_operation handle_openat
  in_slot-ends (Result.failed e) read probed buffer item ho hr hp size clean fresh =
      let bad : Failed (with_error item e) = (refl, λ k. omega (arith, ho, k)) in
      inr (handle_probe-Failed probed buffer _ (handle_read-Failed read (with_error item e) 0 bad))
  in_slot-ends (Result.transferred k) read probed buffer item ho hr hp size clean fresh =
      read-ends read probed buffer item hr hp size clean fresh
