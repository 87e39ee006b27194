-- ===== src/Lib.antt =====
-- OSjitter, pingpong and ptp-clock-offset: three C programs that measure latencies with the time-
-- stamp counter (TSC) of the processor.
--
-- The program's parts. `util.c` and `util.h` hold what the programs share: statistics over arrays
-- of 32-bit deltas, the scaling of ticks to nanoseconds, and ways to learn the frequency of the
-- TSC. `osjitter.c` reads its arguments, asks the system for its CPUs and the frequency, starts a
-- measuring thread on each selected CPU, waits, reads the scheduler's counters, joins the threads
-- and prints a row for each. `pingpong.c` starts two threads that notify each other in turns by
-- one of eight methods, and prints statistics of the times between a notification and its arrival.
-- `ptp-clock-offset.c` measures in several ways how far the clock of a network card is from the
-- system's clock.
--
-- Files. Prelude: shared names, lists, integers, words, texts. Util/Sort: `cmp_u32`, and the C
-- library's `qsort` as a sort by a comparator. Util/Percentile: `is_sorted`, `percentile_u32`; its
-- children say where the result lies (Rank) and when the sum of two elements wraps (Wrap).
-- Util/Mad: `mad_u32`, with Spread. Util/Scale: `mul_u64_u32_shr` and `clocks_calc_mult_shift`;
-- Best is about the two loops, Range about the conversion range, Error about the programs' calls.
-- Util/Atoi: the C library's `atoi`. Util/Khz: `get_tsc_khz_proc`, `get_tsc_khz_cmd`,
-- `get_tsc_khz`, with Parse about the line of the kernel's log and Sources about the order of the
-- sources. Util/Perf: `get_tsc_perf`.
--
-- Jitter/CpuSet: `cpu_set_t`. Jitter/Args: `struct Args` and `parse_args` of osjitter.c.
-- Jitter/Probe: `is_cpu_online`, `check_cpuinfo`, `get_tid_off`, `pthread_to_tid`. Jitter/Params:
-- `set_params`; Laws is about the CPUs, Calibrated about the frequency. Jitter/Sched:
-- `read_proc_sched`, with Line about the line it reads. Jitter/Start: `main` up to the array of
-- workers. Jitter/Control: `create_workers`, `join_workers` and the rest of `main`, and the waits
-- of `worker_main`, as a step relation on the control thread and its workers; Order has the steps
-- of a worker, Runs the invariant, Phases what follows. Jitter/Results: `pp_results`, its rows as
-- records, with Ordered about the percentiles and Rows about the table. Jitter/Measure:
-- `worker_main` of osjitter.c with its rounds, its loop and what it publishes; Log and Account
-- relate the loop's variables to the readings, Result says what the worker reports, Sum and Long
-- are about the reported sum and about long interruptions.
--
-- Pingpong/Args: `struct Args` and `parse_args` of pingpong.c. Pingpong/Worker: what its threads
-- share, with Room about the array of deltas and Finalize about `spin_main_finalize`.
-- Pingpong/Spin: `spin_main`, `spin_pause_main` and `spin_pause_more_main` as a step relation on
-- two threads, two cells and the counter; Turns has an iteration's states and steps, Order the
-- invariant of every run, Room the array, Refines the refinement of the rally. Pingpong/Futex:
-- `futex_main` with `futex_lock` and `futex_unlock` in the same way, with the kernel's wait and
-- wake; Phases has an iteration's states, Waiting what a step leaves as it is, Sender and Receiver
-- the steps, Order the invariant, Refines the refinement of the rally, Locks what follows for the
-- words and for sleeping threads, Room the array. Pingpong/Semaphore: `semaphore_main` in the same
-- way; Phases has an iteration's states, Steps the steps, Order the invariant and the accesses of
-- shared memory, Refines the refinement of the rally, Progress the deadlocks. Pingpong/Rally: the
-- abstract specification of a ping pong, on the events of a run. Pingpong/Pipe: `pipe_main` in the
-- same way; Phases has an iteration's states and steps, Refines the invariant and the refinement
-- of the rally, Progress the deadlocks, Effort and Ends the number of steps to the end of a run.
-- Pingpong/Condvar: `cv_main` in the same way, with Sender and Receiver for the steps and Races
-- for the accesses of shared memory. Pingpong/Null: `spin_null_main`, with Deltas about what it
-- reports. Pingpong/Results: `pp_results` and `print_json`, with Ordered about the rows and lists.
-- Pingpong/Control: `spin_pingpong` and `main`; Laws is about every answer of the calls, Main
-- about the frequency, Whole goes from the threads to the table.
--
-- Ptp/Clock: times, their conversions and FD_TO_CLOCKID; Error is about the error of an offset,
-- Range about the times without an overflow, Ids about the clock ids. Ptp/Offsets:
-- `read_clock_offset`, `read_ptp_offset`, `read_ptp_offset_extended`, `read_ptp_offset_precise`,
-- `read_sfc_offset`; Samples and Rounds are about their loops, Truth relates what they print to
-- the true offset. Ptp/Device: `mk_if_fd`, `get_ptp_dev` and `main`, with Laws about how they end,
-- Names about the device's name and Perf about the build with PCO_READ_PERF. Files named Examples
-- or ArgsExamples apply the theorems at concrete inputs.
--
-- Conventions. An array with its length is the list of its elements. Machine integers are natural
-- numbers, with wrap-around written out as a remainder. A failed assertion, a fault, a signed
-- overflow or an exhausted input is `none` or a constructor of its own. What a system call or a
-- library function returns is an argument. The readings of the TSC of one thread are an input: a
-- list with one element for each call; where two threads run, the counter is part of their state
-- and may grow between any two steps. The first loop of `clocks_calc_mult_shift` runs on fuel 33,
-- which `calc_total` shows to be enough for every 32-bit input; the loop of `read_ptp_offset` runs
-- on one more than its number of samples, which `ptp_loop-rows` shows to be enough; the digits of
-- an `int` are written on fuel 10, one for each digit; the other loops recur on their data, or are
-- steps of a relation. The arithmetic of `double` is the record `Double` with the laws of exact
-- integers.
--
-- Not modelled. Output formatting and the help texts, memory fences and the assembler of tsc.h,
-- pauses, which change no variable; the attributes of a thread at its creation, which count as one
-- call; the Google-benchmark file bench_syscalls.cc, the Python helpers and the tuned profiles,
-- which are not part of the C programs.
pub mod Prelude
pub mod Util
pub mod Jitter
pub mod Pingpong
pub mod Ptp
