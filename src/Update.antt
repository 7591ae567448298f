-- ===== src/Update.antt =====
-- The update of a database, rrdtool-1.4.5/src/rrd_update.c, a module for each stage of
-- `process_arg`: the arguments (`Arguments`), how many steps have elapsed (`Steps`), the primary data points (`Pdp`), their
-- consolidation (`Cdp`), and the rows of the archives (`Rows`).
pub mod Rows
pub mod Steps
pub mod Cdp
pub mod Readings
pub mod Pdp
pub mod Prep
pub mod Arguments
