-- ===== src/Ptp/Ids.antt =====
-- The clock ids of `Ptp.Clock`: FD_TO_CLOCKID.
use osjitter.Prelude.{ℕ, ◌+◌, ◌*◌, ◌^◌, ◌<◌, ◌≡◌, ap, sym, ◌∙◌, arith}
use osjitter.Prelude.Int.{negsuc, neg_part}
use osjitter.Ptp.Clock.{fd_to_clockid}

-- -8 * (fd + 1) + 3
fd_to_clockid_value : (fd : ℕ) → fd < 2 ^ 28 → fd_to_clockid fd ≡ negsuc (8 * fd + 4)
unfolding fd_to_clockid
fd_to_clockid_value fd small = ground arith

-- The clock ids of different descriptors below 2 ^ 28 differ, and are negative, unlike the ids of the
-- system's clocks.
pub fd_to_clockid_injective :
    (fd fd' : ℕ)
    → fd < 2 ^ 28
    → fd' < 2 ^ 28
    → (0 < neg_part (fd_to_clockid fd)) × (fd_to_clockid fd ≡ fd_to_clockid fd' → fd ≡ fd')
fd_to_clockid_injective fd fd' small small' = (
  rw (fd_to_clockid_value fd small) (omega arith),
  λ same.
      let parts =
        ap neg_part (sym (fd_to_clockid_value fd small) ∙ same ∙ fd_to_clockid_value fd' small') in
      omega arith,
)
