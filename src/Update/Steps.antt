-- ===== src/Update/Steps.antt =====
-- `calculate_elapsed_steps` of rrdtool-1.4.5/src/rrd_update.c, and the part of
-- `update_all_cdp_prep` that counts the rows which an update adds to an archive.
pub mod Count
mod Tests
use administracion_servicios.Prelude.{ℕ, ◌+◌, ◌-◌, ◌*◌, ◌/◌, ◌%◌, ◌^◌, ltb, leb, if◌then◌else◌}
use administracion_servicios.Double.{Double}
use administracion_servicios.Rrd.{LiveHead}
use administracion_servicios.Update.Rows.{sub_word}

module _ (F : Double) where
  open F use {V, add, sub, div, of_ℕ}

  -- what the function returns, and what goes through its pointers
  pub record Elapsed : Type 0 where
    pub elapsed_pdp_st : ℕ
    pub pre_int : V
    pub post_int : V
    pub proc_pdp_cnt : ℕ

  -- a number of microseconds, as seconds
  abbrev pub usecs : ℕ → V
  usecs n = div (of_ℕ n) (of_ℕ 1_000_000)

  unfoldable pub calculate_elapsed_steps : LiveHead → ℕ → ℕ → ℕ → V → Elapsed
  calculate_elapsed_steps live pdp_step current_time current_time_usec interval =
      let proc_pdp_age = live.last_up % pdp_step in
      let proc_pdp_st = sub_word live.last_up proc_pdp_age in
      let occu_pdp_age = current_time % pdp_step in
      let occu_pdp_st = sub_word current_time occu_pdp_age in
      let passed = ltb proc_pdp_st occu_pdp_st in
      record {
        elapsed_pdp_st = sub_word occu_pdp_st proc_pdp_st / pdp_step;
        pre_int =
            if passed
            then sub (of_ℕ (occu_pdp_st - live.last_up)) (usecs live.last_up_usec)
            else interval;
        post_int = if passed then add (of_ℕ occu_pdp_age) (usecs current_time_usec) else of_ℕ 0;
        proc_pdp_cnt = proc_pdp_st / pdp_step;
      }

-- `start_pdp_offset`: how many steps the consolidation that is under way still wants
abbrev pub start_pdp_offset : ℕ → ℕ → ℕ
start_pdp_offset pdp_cnt proc_pdp_cnt = pdp_cnt - proc_pdp_cnt % pdp_cnt

-- `rra_step_cnt[rra_idx]`
unfoldable pub rra_step_cnt : ℕ → ℕ → ℕ → ℕ
rra_step_cnt pdp_cnt proc_pdp_cnt elapsed_pdp_st =
    let offset = start_pdp_offset pdp_cnt proc_pdp_cnt in
    if leb offset elapsed_pdp_st then (elapsed_pdp_st - offset) / pdp_cnt + 1 else 0
