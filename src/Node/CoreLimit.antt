-- ===== src/Node/CoreLimit.antt =====
-- The limit on core dumps: `ServerLimitResource` of NodeServer/ServerLimitResource.cpp. `now` is
-- TNOW, in seconds.
pub mod Stops
use tars_framework.Base.{Bool, true, false, ◌&&◌, not, if◌then◌else◌}
use tars_framework.Base.Int.{ℤ, pos, ◌+ℤ◌, ◌-ℤ◌, ◌*ℤ◌, ltb_ℤ, leb_ℤ}

pub record ServerLimitResource : Type 0 where
  pub close_core : Bool
  pub cur_exc_stop_count : ℤ
  pub max_exc_stop_count : ℤ
  pub exc_stop_record_time : ℤ
  pub core_limit_time_interval : ℤ
  pub enable_core_limit_time : ℤ
  pub core_limit_expired_time : ℤ

unfoldable pub reset_run_time_data : ℤ → ServerLimitResource → ServerLimitResource
reset_run_time_data now r = record r {
  close_core = false;
  cur_exc_stop_count = pos 0;
  exc_stop_record_time = now;
  enable_core_limit_time = pos 0;
}

-- `n > 0 ? n : 1`.
unfoldable pub or_one : ℤ → ℤ
or_one n = if ltb_ℤ (pos 0) n then n else pos 1

-- The intervals are given in minutes.
unfoldable pub set_limit_check_info : ℤ → ℤ → ℤ → ServerLimitResource → ServerLimitResource
set_limit_check_info max_count time_interval expired_time r = record r {
  max_exc_stop_count = or_one max_count;
  core_limit_time_interval = or_one time_interval *ℤ pos 60;
  core_limit_expired_time = or_one expired_time *ℤ pos 60;
}

-- The core is closed when the count reaches its maximum.
unfoldable pub close_at_maximum : ℤ → ServerLimitResource → ServerLimitResource
close_at_maximum now r =
    if not r.close_core && leb_ℤ r.max_exc_stop_count r.cur_exc_stop_count
    then record r { close_core = true; enable_core_limit_time = now }
    else r

unfoldable pub add_exc_stop_record : ℤ → ServerLimitResource → ServerLimitResource
add_exc_stop_record now r =
    if ltb_ℤ (now -ℤ r.exc_stop_record_time) r.core_limit_time_interval
    then close_at_maximum now (record r { cur_exc_stop_count = r.cur_exc_stop_count +ℤ pos 1 })
    else record r { cur_exc_stop_count = pos 1; exc_stop_record_time = now }

-- The return value, the answer `bClose`, and the state after the call.
unfoldable pub is_core_limit_need_close : ℤ → ServerLimitResource → ℤ × Bool × ServerLimitResource
is_core_limit_need_close now r =
    if r.close_core
    then (if ltb_ℤ (now -ℤ r.enable_core_limit_time) r.core_limit_expired_time
        then (pos 1, true, r)
        else (
          pos 2,
          false,
          record r {
            close_core = false;
            cur_exc_stop_count = pos 0;
            exc_stop_record_time = pos 0;
            enable_core_limit_time = pos 0;
          },
        ))
    else (pos 1, false, r)
