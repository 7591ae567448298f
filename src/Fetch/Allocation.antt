-- ===== src/Fetch/Allocation.antt =====
-- The memory that `rrd_fetch_fn` of rrdtool-1.4.5/src/rrd_fetch.c allocates is enough for what its
-- loop writes.
