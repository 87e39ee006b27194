-- ===== src/Jitter/Sched/Line.antt =====
-- What `read_proc_sched` of osjitter.c reads from the line of the involuntary switches.
