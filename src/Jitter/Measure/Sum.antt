-- ===== src/Jitter/Measure/Sum.antt =====
-- `sum_intr_ns` and the recorded interruptions of osjitter.c: when nothing overflows, the sum that a
-- worker reports is the sum of the deltas that it keeps.
