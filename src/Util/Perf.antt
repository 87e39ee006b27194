-- ===== src/Util/Perf.antt =====
-- `get_tsc_perf` of util.c: the kernel's own scaling factors. The system calls' results are arguments.
use osjitter.Prelude.{ℕ, ◌≡◌, ◌↔◌, refl, Bool, true, false, arith, not, ◌==◌, if◌then◌else◌}

-- What `mmap` returns: MAP_FAILED, which is not the null pointer, or the page of the counter.
pub data Mapped : Type 0 where
  map_failed : Mapped
  null_page : Mapped
  page : (cap_user_time time_mult time_shift : ℕ) → Mapped

-- `segfault` is a read through MAP_FAILED.
pub data PerfRun : Type 0 where
  segfault : PerfRun
  failed : PerfRun
  scaled_by : (mult shift : ℕ) → PerfRun

-- what follows `if (!addr)`
unfoldable pub read_page : Mapped → Bool → PerfRun
read_page map_failed unmaps = segfault
read_page null_page unmaps = failed
read_page (page cap mult shift) unmaps =
    if not (cap == 1) then failed else if unmaps then scaled_by mult shift else failed

unfoldable pub get_tsc_perf : Bool → Mapped → Bool → PerfRun
get_tsc_perf opens mapped unmaps = if opens then read_page mapped unmaps else failed

-- The test for a null pointer does not catch a failure of `mmap`: exactly then the function reads
-- through MAP_FAILED.
pub get_tsc_perf-segfault_iff :
    (opens : Bool) (mapped : Mapped) (unmaps : Bool)
    → (get_tsc_perf opens mapped unmaps ≡ segfault) ↔ ((opens ≡ true) × (mapped ≡ map_failed))
unfolding get_tsc_perf read_page
get_tsc_perf-segfault_iff false mapped unmaps = (λ h. cc, λ h. cc (h.0))
get_tsc_perf-segfault_iff true map_failed unmaps = (λ h. (refl, refl), λ h. refl)
get_tsc_perf-segfault_iff true null_page unmaps = (λ h. cc, λ h. cc (h.1))
get_tsc_perf-segfault_iff true (page cap mult shift) unmaps = (λ h. ground arith, λ h. cc (h.1))
