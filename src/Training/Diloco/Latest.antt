-- ===== src/Training/Diloco/Latest.antt =====
-- The file of a `SolProbeDiLoCoCallback` after any calls: it holds the latest of each value.
use solprobe.Prelude.{
  ℕ, ◌+◌, ◌≤◌, ◌<◌, ◌≡◌, refl, ap, ◌∙◌, sym, subst, arith, String, Bool, true, false, not, some,
  List, [], ◌∷◌, length, drop, ltb, ltb→lt, false≢true, ◌⊎◌, inl, inr, ◌==◌, nat_eq,
}
use solprobe.Prelude.Int.{ℤ, pos, negsuc}
use solprobe.Prelude.Result.{ok, err, OnOk, Result-cases}
use solprobe.Training.Struct.{
  Machine, uint8, int64, uint64, le_bytes, two_63, two_64, file_size, write_record,
}
use solprobe.Training.Struct.Fits.{
  fits, fits_all, fits-within, stored, record_bytes, write_record-Packs, write_record-length,
}
use solprobe.Training.Callback.Delivered.{and_true, if-false}
use solprobe.Training.Diloco.{
  Values, DilocoCallback, flag_of, diloco_items, noted, outcome, flush, on_inner_step,
  on_outer_step,
}
use solprobe.Sidecar.{DilocoRecord, from_le, is_stale, read_diloco}
use solprobe.Sidecar.Layout.{from_le-le_bytes}

-- A call of `on_inner_step` or `on_outer_step`.
pub data Step (F : Type 0) : Type 0 where
  inner : ℤ → ℤ → F → Step F
  outer : ℤ → F → F → F → F → Bool → Step F

-- The abstract view of a history, the newest call first: what was last reported of each value, or
-- what a callback starts with.
module _ {F : Type 0} where
  abbrev pub latest : Values F → List (ℕ × Step F) → Values F
  latest v [] = v
  latest v ((now, inner i o loss) ∷ older) = record {
    inner_step = i;
    outer_step = o;
    inner_loss = loss;
    outer_loss = (latest v older).outer_loss;
    pseudo_grad_norm = (latest v older).pseudo_grad_norm;
    sync_duration_ms = (latest v older).sync_duration_ms;
    worker_speed_ratio = (latest v older).worker_speed_ratio;
    is_straggler = (latest v older).is_straggler;
  }
  latest v ((now, outer o loss norm duration ratio straggler) ∷ older) = record {
    inner_step = (latest v older).inner_step;
    outer_step = o;
    inner_loss = (latest v older).inner_loss;
    outer_loss = loss;
    pseudo_grad_norm = norm;
    sync_duration_ms = duration;
    worker_speed_ratio = ratio;
    is_straggler = straggler;
  }

flag_lem : (b : Bool) → not (flag_of b == 0) ≡ b
flag_lem true = refl
flag_lem false = refl

module _ {F : Type 0} (m : Machine F) where
  abbrev pub handed_on : String → ℕ → ℕ → ℕ → Values F → DilocoRecord F
  handed_on node_id now i o v = record {
    node_id = node_id;
    job_id = "";
    timestamp_ms = pos now;
    inner_step = i;
    outer_step = o;
    inner_loss = stored m v.inner_loss;
    outer_loss = stored m v.outer_loss;
    pseudo_grad_norm = stored m v.pseudo_grad_norm;
    sync_duration_ms = stored m v.sync_duration_ms;
    worker_speed_ratio = stored m v.worker_speed_ratio;
    is_straggler = v.is_straggler;
  }

  read-record :
      (node_id : String) (read_at now i o : ℕ) (v : Values F)
      → read_at ≤ now + 5000
      → ltb now two_63 ≡ true
      → i < two_64
      → o < two_64
      → read_diloco m read_at node_id (
          some (
            record_bytes m
              (diloco_items m now (record v { inner_step = pos i; outer_step = pos o }))))
        ≡ some (handed_on node_id now i o v)
  unfolding read_diloco
  read-record node_id read_at now i o v age small_now small_i small_o =
      let time : from_le (le_bytes 8 now) ≡ now =
        from_le-le_bytes 8 now (omega (arith, ltb→lt now two_63 small_now)) in
      let inner_lem : from_le (le_bytes 8 i) ≡ i = from_le-le_bytes 8 i small_i in
      let outer_lem : from_le (le_bytes 8 o) ≡ o = from_le-le_bytes 8 o small_o in
      let fresh : is_stale read_at (pos now) ≡ false = ground arith in
      rw (time, inner_lem, outer_lem, small_now, fresh, flag_lem v.is_straggler) refl

  -- A flush: a value did not fit and the exception leaves the file, or the sidecar reads the values.
  abbrev pub Shown : Values F → String → List ℕ → ℕ → ℕ → Bool × DilocoCallback F → Type 0
  Shown v node_id before read_at now (went, cb) =
      ((fits_all m (diloco_items m now v) ≡ false) × (went ≡ false) × (cb.file ≡ before))
      ⊎ ((went ≡ true)
          × (i : ℕ) × (o : ℕ) × (v.inner_step ≡ pos i)
          × (v.outer_step ≡ pos o)
          × (read_diloco m read_at node_id (some cb.file) ≡ some (handed_on node_id now i o v)))

  fits-pos : (z : ℤ) → fits m (uint64 z) ≡ true → (n : ℕ) × (z ≡ pos n) × (n < two_64)
  fits-pos (pos n) h = (n, refl, ltb→lt n two_64 h)
  fits-pos (negsuc n) h = absurd (false≢true h)

  -- Every record fills the file.
  filled :
      (now : ℕ) (v : Values F) (i o : ℤ)
      → length (record_bytes m (diloco_items m now (record v { inner_step = i; outer_step = o })))
        ≡ file_size
  filled now v (pos i) (pos o) = refl
  filled now v (pos i) (negsuc o) = refl
  filled now v (negsuc i) (pos o) = refl
  filled now v (negsuc i) (negsuc o) = refl

  items_at :
      (now : ℕ) (v : Values F) {i o : ℤ}
      → v.inner_step ≡ i
      → v.outer_step ≡ o
      → diloco_items m now v ≡ diloco_items m now (record v { inner_step = i; outer_step = o })
  items_at now v {i} {o} hi ho =
      ap (λ z. diloco_items m now (record v { inner_step = z })) hi
      ∙ ap (λ z. diloco_items m now (record v { inner_step = i; outer_step = z })) ho

  shown :
      (cb : DilocoCallback F) (read_at now : ℕ)
      → length cb.file ≡ file_size
      → read_at ≤ now + 5000
      → Shown cb.values cb.node_id cb.file read_at now (noted m now cb)
  unfolding flush
  shown cb read_at now full age =
      let v = cb.values in
      let items = diloco_items m now v in
      elim (write_record-Packs m cb.file items
        (full ∙ sym (filled now v v.inner_step v.outer_step))) [
          | inl (no_fit, e, raised) ↦
              let failed : flush m now cb ≡ err e = rw raised refl in
              subst (Shown v cb.node_id cb.file read_at now) (sym (ap (outcome cb) failed))
                (inl (no_fit, refl, refl))
          | inr (fit, written) ↦
              let small_now = (and_true fit).0 in
              let (i, ei, small_i) = fits-pos v.inner_step (
                fits-within m (uint8 1 ∷ int64 (pos now) ∷ []) (drop 3 items) (uint64 v.inner_step)
                  fit) in
              let (o, eo, small_o) = fits-pos v.outer_step (
                fits-within m (uint8 1 ∷ int64 (pos now) ∷ uint64 v.inner_step ∷ []) (drop 4 items)
                  (uint64 v.outer_step) fit) in
              let cb' = record cb { file = record_bytes m items } in
              let went : flush m now cb ≡ ok cb' = rw written refl in
              subst (Shown v cb.node_id cb.file read_at now) (sym (ap (outcome cb) went)) (
                inr (
                  refl,
                  i,
                  o,
                  ei,
                  eo,
                  ap (λ is. read_diloco m read_at cb.node_id (some (record_bytes m is)))
                        (items_at now v ei eo)
                      ∙ read-record cb.node_id read_at now i o v age small_now small_i small_o,
                ))
        ]

  -- The callback after a history of calls, and whether the newest went through.
  abbrev pub call : DilocoCallback F → ℕ × Step F → Bool × DilocoCallback F
  call cb (now, inner i o loss) = on_inner_step m now cb i o loss
  call cb (now, outer o loss norm duration ratio straggler) =
      on_outer_step m now cb o loss norm duration ratio straggler

  abbrev pub after : DilocoCallback F → List (ℕ × Step F) → DilocoCallback F
  after cb [] = cb
  after cb (c ∷ older) = (call (after cb older) c).1

  -- What calls keep: the callback is open, its file is mapped, and it holds the values.
  abbrev Follows : Values F → String → DilocoCallback F → Type 0
  Follows v node_id cb =
      (cb.closed ≡ false) × (length cb.file ≡ file_size) × (cb.values ≡ v) × (cb.node_id ≡ node_id)

  noted-Follows :
      (cb : DilocoCallback F) (now : ℕ)
      → cb.closed ≡ false
      → length cb.file ≡ file_size
      → Follows cb.values cb.node_id (noted m now cb).1
  unfolding flush
  noted-Follows cb now is_open full =
      let items = diloco_items m now cb.values in
      let size = write_record-length m cb.file items in
      elim (Result-cases (write_record m cb.file items)) [
        | inl (f, written) ↦
            let went : flush m now cb ≡ ok (record cb { file = f }) = rw written refl in
            let same = subst (OnOk (λ f. length f ≡ length cb.file)) written size in
            subst (λ r. Follows cb.values cb.node_id r.1) (sym (ap (outcome cb) went))
              (is_open, same ∙ full, refl, refl)
        | inr (e, raised) ↦
            let failed : flush m now cb ≡ err e = rw raised refl in
            subst (λ r. Follows cb.values cb.node_id r.1) (sym (ap (outcome cb) failed))
              (is_open, full, refl, refl)
      ]

  -- The callback as a call has noted its values.
  abbrev noting : DilocoCallback F → ℕ × Step F → DilocoCallback F
  noting cb c = record cb { values = latest cb.values (c ∷ []) }

  call-eq-noted :
      (cb : DilocoCallback F) (c : ℕ × Step F)
      → cb.closed ≡ false
      → call cb c ≡ noted m c.0 (noting cb c)
  unfolding on_inner_step on_outer_step
  call-eq-noted cb (now, inner i o loss) is_open = if-false cb.closed _ _ is_open
  call-eq-noted cb (now, outer o loss norm duration ratio straggler) is_open =
      if-false cb.closed _ _ is_open

  latest-cons :
      (v w : Values F) (c : ℕ × Step F) (older : List (ℕ × Step F))
      → w ≡ latest v older
      → latest w (c ∷ []) ≡ latest v (c ∷ older)
  latest-cons v w (now, inner i o loss) older h = ap (λ u. latest u ((now, inner i o loss) ∷ [])) h
  latest-cons v w (now, outer o loss norm duration ratio straggler) older h =
      ap (λ u. latest u ((now, outer o loss norm duration ratio straggler) ∷ [])) h

  after-Follows :
      (cb : DilocoCallback F) (history : List (ℕ × Step F))
      → cb.closed ≡ false
      → length cb.file ≡ file_size
      → Follows (latest cb.values history) cb.node_id (after cb history)
  after-Follows cb [] is_open full = (is_open, full, refl, refl)
  after-Follows cb (c ∷ older) is_open full =
      let (open_yet, full_yet, values, node) = after-Follows cb older is_open full in
      let now_open = call-eq-noted (after cb older) c open_yet in
      let (o', f', v', n') = noted-Follows (noting (after cb older) c) c.0 open_yet full_yet in
      subst (λ r. Follows (latest cb.values (c ∷ older)) cb.node_id r.1) (sym now_open)
        (o', f', v' ∙ latest-cons cb.values (after cb older).values c older values, n' ∙ node)

  -- Whatever calls went before, failed ones included: after a call at a callback that was not
  -- closed, one of the latest values does not fit into the record, the call fails and the file is
  -- as before; or the sidecar, which reads at most five seconds later, gets the latest values.
  pub call-latest :
      (cb : DilocoCallback F) (c : ℕ × Step F) (older : List (ℕ × Step F)) (read_at : ℕ)
      → cb.closed ≡ false
      → length cb.file ≡ file_size
      → read_at ≤ c.0 + 5000
      → Shown
          (latest cb.values (c ∷ older))
          cb.node_id
          (after cb older).file
          read_at
          c.0
          (call (after cb older) c)
  call-latest cb c older read_at is_open full age =
      let last = after cb older in
      let (open_yet, full_yet, values, node) = after-Follows cb older is_open full in
      let seen = shown (noting last c) read_at c.0 full_yet age in
      let at_node =
        subst
          (λ n.
            Shown (latest last.values (c ∷ [])) n last.file read_at c.0
              (noted m c.0 (noting last c)))
          node seen in
      let as_latest =
        subst (λ v. Shown v cb.node_id last.file read_at c.0 (noted m c.0 (noting last c)))
          (latest-cons cb.values last.values c older values) at_node in
      subst (Shown (latest cb.values (c ∷ older)) cb.node_id last.file read_at c.0)
        (sym (call-eq-noted last c open_yet)) as_latest
