-- ===== src/Lib.antt =====
-- RRDtool 1.4.5, the round-robin database of this repository (rrdtool-1.4.5/src), and its caching
-- daemon `rrdcached`.
--
-- A database file holds archives of consolidated values. An update turns readings into primary data
-- points, consolidates them, and writes rows into each archive, which is a ring of rows. A fetch
-- chooses an archive and copies rows out. The daemon collects updates from clients, keeps the files
-- with values to write in a queue, and writes them from its queue threads; what a client sends it
-- are lines with commands, which it checks and answers. Computed data sources are expressions in
-- reverse Polish notation, and some archives hold forecasts by the method of Holt and Winters.
--
-- Files and what they model:
-- - Prelude, Prelude/Tests, Prelude/Lists, Prelude/Slices, Prelude/Int: tests, lists and integers on
--   native numbers.
-- - Double: the values of C's `double`, a record of operations without laws; Double/Sample: integers
--   with NaN and infinities, to run the model on.
-- - Protocol: `buffer_add_string` of rrdtool-1.4.5/src/rrd_client.c and `buffer_get_field` of
--   rrdtool-1.4.5/src/rrd_daemon.c. A buffer is the list of its bytes. The loop of the daemon runs
--   on fuel, one round more than there are bytes, which is enough since a round reads a byte.
-- - Rrd: the records of rrdtool-1.4.5/src/rrd_format.h; Rrd/Names: `dst_conv` and `cf_conv` of
--   rrdtool-1.4.5/src/rrd_format.c; Rrd/File: seek, read and write of
--   rrdtool-1.4.5/src/rrd_open.c as built with HAVE_MMAP, positions counted in values.
-- - Update/Arguments: `parse_template`, `parse_ds` and `get_time_from_reading`, with `ds_match` of
--   rrdtool-1.4.5/src/rrd_format.c; Update/Steps: `calculate_elapsed_steps`, and the count of rows
--   in `update_all_cdp_prep`; Update/Readings: `update_pdp_prep`; Update/Pdp: `simple_update`,
--   `process_pdp_st`; Update/Prep: `update_all_cdp_prep`, with `lookup_seasonal` of
--   rrdtool-1.4.5/src/rrd_hw.c; Update/Cdp: `update_cdp` with its parts, `reset_cdp`,
--   `do_schedule_smooth`; Update/Rows: `write_to_rras` and `write_RRA_row`; all of
--   rrdtool-1.4.5/src/rrd_update.c.
-- - Diff: `rrd_diff` of rrdtool-1.4.5/src/rrd_diff.c, on the digits from the last one on.
-- - Rpn: the nodes of expressions, rrdtool-1.4.5/src/rrd_rpncalc.h; Rpn/Stack, Rpn/Series, Rpn/Calc:
--   `rpn_calc` of rrdtool-1.4.5/src/rrd_rpncalc.c; Rpn/Zone: its `tzoffset`; Rpn/Compact:
--   `rpn_compact`, `rpn_expand` and the checks of `parseCDEF_DS`. The stack is a list with its top
--   first. The loop of TREND runs on fuel, the duration and one, since a round takes a second or
--   more; conversions to machine integers are a parameter.
-- - Forecast: the formulas of rrdtool-1.4.5/src/rrd_hw_math.c; Forecast/Update: the functions of
--   rrdtool-1.4.5/src/rrd_hw_update.c and `update_aberrant_CF` of rrdtool-1.4.5/src/rrd_hw.c, for
--   one data source, whose `cdp_prep` is a function of the index of the archive; Forecast/Fifo: the
--   queue of its smoother; Forecast/Wrap: its `MyMod`.
-- - ParseTime: the words and the scanner of rrdtool-1.4.5/src/rrd_parsetime.c; ParseTime/Offset:
--   `plus_minus`; ParseTime/Day: `tod`, `assign_date`, `day`; ParseTime/Whole: `rrd_parsetime`, whose
--   loop runs on fuel, two rounds more than the text has bytes, which is enough since a round reads
--   a byte and the last one none, and `rrd_proc_start_end`. The calendar is a parameter, and its
--   `localtime` may give NULL; where that is read, or an `int` overflows, the result is `undefined`.
-- - Fetch: `rrd_fetch_fn` of rrdtool-1.4.5/src/rrd_fetch.c. Its times are not negative, and offsets
--   are integers.
-- - Resize: the checks and the copying of `rrd_resize`, rrdtool-1.4.5/src/rrd_resize.c.
-- - Daemon/Queue: `remove_from_queue` and `enqueue_cache_item` of rrdtool-1.4.5/src/rrd_daemon.c.
--   Items live in one store under numbers that stand for addresses, so that the links alias.
--   Daemon/Threads: the sections under `cache_lock`, in any order. Daemon/Connection: `next_cmd`
--   and the loops of `connection_thread_main`, whose inner one runs on fuel, one round more than
--   there are bytes, which is enough since a round uses one up; Daemon/Response: `send_response`
--   and batches; Daemon/Command: the table of commands, permissions and `handle_request`;
--   Daemon/Access: `get_abs_path` and `check_file_access`; Daemon/Cache: the handlers of UPDATE,
--   FORGET, PENDING and WROTE on the items of the cache, the two parts of a write-out and the removal
--   of an idle file by `flush_old_values`, the journal and its replay. The loop over values runs on fuel for the bytes of the buffer, which is enough since a round uses one up.
--
-- Each theorem stands in a file below its component, named for what it proves (Update/Rows/Ring,
-- Fetch/Window, Daemon/Queue/Refine, Daemon/Threads/Safety), and runs at concrete inputs in Tests.
--
-- Unsigned 64-bit subtraction wraps in `sub_word`; other numbers are unbounded, with bounds as
-- hypotheses where they matter. A failed `assert` or an error return is `none`.
--
-- Not modelled: the flow of a whole update, the smoothing of seasonal archives, the text of
-- expressions, creation and tuning of databases, dump and restore, graphs, and
-- of the daemon the other handlers, the files of the journal and the start-up. Much of these is input and
-- output, drawing and the calendar of the system.
pub mod Prelude
pub mod Protocol
pub mod Double
pub mod Rrd
pub mod Update
pub mod Fetch
pub mod Daemon
pub mod Diff
pub mod Rpn
pub mod Forecast
pub mod ParseTime
pub mod Resize
