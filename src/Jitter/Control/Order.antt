-- ===== src/Jitter/Control/Order.antt =====
-- The order of the control thread of osjitter.c and of its workers.
use osjitter.Prelude.{ℕ, ◌≡◌, ◌≢◌, inl, inr, Bool, true, false, arith, ◌==◌, ==→≡, Bool-cases}
use osjitter.Jitter.Control.{
  Status, absent, allocating, spinning, holding, publishing, returned_null, returned, worker_step,
  update,
}

-- before the store of `start_work`: no measurement has begun
abbrev pub IsIdle : Status → Type 0
IsIdle absent = Unit
IsIdle allocating = Unit
IsIdle spinning = Unit
IsIdle returned_null = Unit
IsIdle _ = ⊥

-- before the store of `quit_thread`: a worker that had its memory has neither stored results nor
-- returned
abbrev pub IsUnpublished : Status → Type 0
IsUnpublished publishing = ⊥
IsUnpublished returned = ⊥
IsUnpublished _ = Unit

abbrev pub IsCreated : Status → Type 0
IsCreated absent = ⊥
IsCreated _ = Unit

-- behind its join, with `error_in_thread`
abbrev pub IsJoined : Bool → Status → Type 0
IsJoined bad returned = Unit
IsJoined bad returned_null = bad ≡ true
IsJoined bad _ = ⊥

pub IsIdle-step : (ok quit : Bool) (st : Status) → IsIdle st → IsIdle (worker_step ok false quit st)
unfolding worker_step
IsIdle-step true quit allocating h = tt
IsIdle-step false quit allocating h = tt
IsIdle-step ok quit absent h = tt
IsIdle-step ok quit spinning h = tt
IsIdle-step ok quit returned_null h = tt
IsIdle-step ok quit _ h = ground arith

pub IsUnpublished-step :
    (ok start : Bool) (st : Status)
    → IsUnpublished st
    → IsUnpublished (worker_step ok start false st)
unfolding worker_step
IsUnpublished-step true start allocating h = tt
IsUnpublished-step false start allocating h = tt
IsUnpublished-step ok true spinning h = tt
IsUnpublished-step ok false spinning h = tt
IsUnpublished-step ok start publishing h = elim h [ ]
IsUnpublished-step ok start returned h = elim h [ ]
IsUnpublished-step ok start _ h = tt

pub IsCreated-step :
    (ok start quit : Bool) (st : Status) → IsCreated st → IsCreated (worker_step ok start quit st)
unfolding worker_step
IsCreated-step true start quit allocating h = tt
IsCreated-step false start quit allocating h = tt
IsCreated-step ok true quit spinning h = tt
IsCreated-step ok false quit spinning h = tt
IsCreated-step ok start true holding h = tt
IsCreated-step ok start false holding h = tt
IsCreated-step ok start quit absent h = elim h [ ]
IsCreated-step ok start quit _ h = tt

pub IsJoined-step :
    (ok start quit bad : Bool) (st : Status)
    → IsJoined bad st
    → IsJoined bad (worker_step ok start quit st)
unfolding worker_step
IsJoined-step ok start quit bad returned h = tt
IsJoined-step ok start quit bad returned_null h = h
IsJoined-step ok start quit bad _ h = ground arith

-- what holds of the new status and of the others holds behind the update
pub update-at :
    (P : Status → Type 0) (ws : ℕ → Status) (k : ℕ) (st : Status) (j : ℕ)
    → (j ≡ k → P st)
    → (j ≢ k → P (ws j))
    → P (update ws k st j)
update-at P ws k st j same other = elim (Bool-cases (j == k)) [
  | inl e ↦ rw e (same (==→≡ j k e))
  | inr ne ↦ rw ne (other (ground (arith, ne)))
]
