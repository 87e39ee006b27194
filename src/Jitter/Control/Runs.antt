-- ===== src/Jitter/Control/Runs.antt =====
-- The invariant of the runs of osjitter.c's control thread and workers.
use osjitter.Prelude.{
  ℕ, ◌+◌, ◌<◌, ◌≡◌, inl, inr, refl, sym, Bool, true, false, arith, ltb, ◌==◌, ==→≡, Bool-cases,
}
use mathlib.Core.Path.{subst}
use osjitter.Jitter.CpuSet.{CpuSet}
use osjitter.Jitter.Control.{
  Status, allocating, publishing, returned_null, returned, worker_step, Pc, creating, starting,
  sleeping, reading, quitting, joining, printing, failed, System, update, join, control_step,
  control, worker, Reach, started, stepped,
}
use osjitter.Jitter.Control.Order.{
  IsIdle, IsUnpublished, IsCreated, IsJoined, IsIdle-step, IsUnpublished-step, IsCreated-step,
  IsJoined-step, update-at,
}

module _ (cpus : ℕ) (cpu_set : CpuSet) where
  -- of the selected CPUs below k
  abbrev pub Below : ℕ → (Status → Type 0) → (ℕ → Status) → Type 0
  Below k P ws = (j : ℕ) → j < k → cpu_set j ≡ true → P (ws j)

  abbrev pub Inv : Pc → Bool → Bool → (ℕ → Status) → Type 0
  Inv (creating k) start quit ws =
      (start ≡ false) × (quit ≡ false) × ((j : ℕ) → IsIdle (ws j)) × Below k IsCreated ws
  Inv starting start quit ws =
      (start ≡ false) × (quit ≡ false) × ((j : ℕ) → IsIdle (ws j)) × Below cpus IsCreated ws
  Inv sleeping start quit ws =
      (quit ≡ false) × ((j : ℕ) → IsUnpublished (ws j)) × Below cpus IsCreated ws
  Inv (reading k) start quit ws =
      (quit ≡ false) × ((j : ℕ) → IsUnpublished (ws j)) × Below cpus IsCreated ws
  Inv quitting start quit ws =
      (quit ≡ false) × ((j : ℕ) → IsUnpublished (ws j)) × Below cpus IsCreated ws
  Inv (joining k bad) start quit ws = Below k (IsJoined bad) ws
  Inv printing start quit ws = Below cpus (IsJoined false) ws
  Inv failed start quit ws = Unit

  module _ (ok start quit : Bool) (k : ℕ) (ws : ℕ → Status) where
    -- a property that a worker's step keeps holds of all workers behind it
    step-at :
        (P : Status → Type 0)
        → ((st : Status) → P st → P (worker_step ok start quit st))
        → (j : ℕ) → P (ws j)
        → P (update ws k (worker_step ok start quit (ws k)) j)
    step-at P keeps j h =
        update-at P ws k (worker_step ok start quit (ws k)) j
          (λ e. keeps (ws k) (subst (λ i. P (ws i)) e h)) (λ ne. h)

    Below-step :
        (n : ℕ) (P : Status → Type 0)
        → ((st : Status) → P st → P (worker_step ok start quit st))
        → Below n P ws
        → Below n P (update ws k (worker_step ok start quit (ws k)))
    Below-step n P keeps h j lt on = step-at P keeps j (h j lt on)

  unpublished :
      (ok start quit : Bool) (k : ℕ) (ws : ℕ → Status)
      → Inv sleeping start quit ws
      → Inv sleeping start quit (update ws k (worker_step ok start quit (ws k)))
  unpublished ok start quit k ws (e, none_out, made) = (
    e,
    λ j.
        step-at ok start quit k ws IsUnpublished
          (λ st h.
            subst (λ b. IsUnpublished (worker_step ok start b st)) (sym e)
              (IsUnpublished-step ok start st h))
          j (none_out j),
    Below-step ok start quit k ws cpus IsCreated (IsCreated-step ok start quit) made,
  )

  worker-Inv :
      (ok : Bool) (pc : Pc) (start quit : Bool) (k : ℕ) (ws : ℕ → Status)
      → Inv pc start quit ws
      → Inv pc start quit (update ws k (worker_step ok start quit (ws k)))
  worker-Inv ok (creating n) start quit k ws (e1, e2, idle, made) = (
    e1,
    e2,
    λ j.
        step-at ok start quit k ws IsIdle
          (λ st h.
            subst (λ b. IsIdle (worker_step ok b quit st)) (sym e1) (IsIdle-step ok quit st h))
          j (idle j),
    Below-step ok start quit k ws n IsCreated (IsCreated-step ok start quit) made,
  )
  worker-Inv ok starting start quit k ws (e1, e2, idle, made) = (
    e1,
    e2,
    λ j.
        step-at ok start quit k ws IsIdle
          (λ st h.
            subst (λ b. IsIdle (worker_step ok b quit st)) (sym e1) (IsIdle-step ok quit st h))
          j (idle j),
    Below-step ok start quit k ws cpus IsCreated (IsCreated-step ok start quit) made,
  )
  worker-Inv ok sleeping start quit k ws h = unpublished ok start quit k ws h
  worker-Inv ok (reading n) start quit k ws h = unpublished ok start quit k ws h
  worker-Inv ok quitting start quit k ws h = unpublished ok start quit k ws h
  worker-Inv ok (joining n bad) start quit k ws h =
      Below-step ok start quit k ws n (IsJoined bad) (IsJoined-step ok start quit bad) h
  worker-Inv ok printing start quit k ws h =
      Below-step ok start quit k ws cpus (IsJoined false) (IsJoined-step ok start quit false) h
  worker-Inv ok failed start quit k ws h = tt

  IsIdle-IsUnpublished : (st : Status) → IsIdle st → IsUnpublished st
  IsIdle-IsUnpublished publishing h = h
  IsIdle-IsUnpublished returned h = h
  IsIdle-IsUnpublished _ h = tt

  -- a step past the CPU k, which satisfies the property or is not selected
  Below-next :
      (k : ℕ) (P : Status → Type 0) (ws : ℕ → Status)
      → Below k P ws
      → (cpu_set k ≡ true → P (ws k))
      → Below (k + 1) P ws
  Below-next k P ws h here j lt on = elim (Bool-cases (j == k)) [
    | inl e ↦
        let j-k : j ≡ k = ==→≡ j k e in
        subst (λ i. P (ws i)) (sym j-k) (here (subst (λ i. cpu_set i ≡ true) j-k on))
    | inr ne ↦ h j (ground (arith, ne)) on
  ]

  IsJoined-error : (bad : Bool) (st : Status) → IsJoined bad st → IsJoined true st
  IsJoined-error bad returned h = h
  IsJoined-error bad returned_null h = refl
  IsJoined-error bad _ h = ground arith

  join-Inv :
      (start quit bad : Bool) (k : ℕ) (ws : ℕ → Status) (st : Status)
      → ws k ≡ st
      → Below k (IsJoined bad) ws
      → Inv (join bad k st) start quit ws
  join-Inv start quit bad k ws returned e h =
      Below-next k (IsJoined bad) ws h (λ on. subst (IsJoined bad) (sym e) tt)
  join-Inv start quit bad k ws returned_null e h =
      Below-next k (IsJoined true) ws (λ j lt on. IsJoined-error bad (ws j) (h j lt on))
        (λ on. subst (IsJoined true) (sym e) refl)
  join-Inv start quit bad k ws _ e h = h

  control-Inv :
      (ok : Bool) (pc : Pc) (s : System)
      → Inv pc s.start_work s.quit_thread s.workers
      → let s' = control_step cpus cpu_set ok pc s in
        Inv s'.pc s'.start_work s'.quit_thread s'.workers
  unfolding control_step
  control-Inv ok (creating k) s (e1, e2, idle, made) = elim (Bool-cases (ltb k cpus)) [
    | inl more ↦ elim (Bool-cases (cpu_set k)) [
      | inl on ↦ elim (Bool-cases ok) [
        | inl fine ↦
            let ws' = update s.workers k allocating in
            rw (more, on, fine)
              (
                e1,
                e2,
                λ j. update-at IsIdle s.workers k allocating j (λ e. tt) (λ ne. idle j),
                λ j lt sel.
                    update-at IsCreated s.workers k allocating j (λ e. tt)
                      (λ ne. made j (omega arith) sel),
              )
        | inr bad ↦ rw (more, on, bad) tt
      ]
      | inr off ↦ rw (more, off) (e1, e2, idle, Below-next k IsCreated s.workers made (λ on. cc))
    ]
    | inr end ↦ rw end (e1, e2, idle, λ j lt on. made j (ground (arith, end)) on)
  ]
  control-Inv ok starting s (e1, e2, idle, made) =
      (e2, λ j. IsIdle-IsUnpublished (s.workers j) (idle j), made)
  control-Inv true sleeping s h = h
  control-Inv false sleeping s h = tt
  control-Inv ok (reading k) s h = elim (Bool-cases (ltb k cpus)) [
    | inl more ↦ elim (Bool-cases (cpu_set k)) [
      | inl on ↦ elim (Bool-cases ok) [
        | inl fine ↦ rw (more, on, fine) h
        | inr bad ↦ rw (more, on, bad) tt
      ]
      | inr off ↦ rw (more, off) h
    ]
    | inr end ↦ rw end h
  ]
  control-Inv ok quitting s h = λ j lt on. absurd (omega arith)
  control-Inv ok (joining k bad) s h = elim (Bool-cases (ltb k cpus)) [
    | inl more ↦ elim (Bool-cases (cpu_set k)) [
      | inl on ↦ elim (Bool-cases ok) [
        | inl fine ↦
            rw (more, on, fine)
              (join-Inv s.start_work s.quit_thread bad k s.workers (s.workers k) refl h)
        | inr wrong ↦ rw (more, on, wrong) tt
      ]
      | inr off ↦ rw (more, off) (Below-next k (IsJoined bad) s.workers h (λ on. cc))
    ]
    | inr end ↦ elim (Bool-cases bad) [
      | inl error ↦ rw (end, error) tt
      | inr no_error ↦
          rw (end, no_error)
            (λ j lt on.
              subst (λ b. IsJoined b (s.workers j)) no_error (h j (ground (arith, end)) on))
    ]
  ]
  control-Inv ok printing s h = h
  control-Inv ok failed s h = tt

  pub Reach-Inv :
      (s : System) → Reach cpus cpu_set s → Inv s.pc s.start_work s.quit_thread s.workers
  Reach-Inv _ started = (refl, refl, λ j. tt, λ j lt on. absurd (omega arith))
  Reach-Inv _ (stepped {s} r (control ok)) = control-Inv ok s.pc s (Reach-Inv s r)
  Reach-Inv _ (stepped {s} r (worker ok k)) =
      worker-Inv ok s.pc s.start_work s.quit_thread k s.workers (Reach-Inv s r)
