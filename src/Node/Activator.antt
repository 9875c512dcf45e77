-- ===== src/Node/Activator.antt =====
-- The limit on restarts: `isActivatingLimited`, `addActivatingRecord`, `clearRunntimeData` and
-- `setLimitInfo` of NodeServer/Activator.cpp and .h. `now` is TNOW.
pub mod Bursts
use tars_framework.Base.{Bool, true, false, ◌&&◌, List, [], ◌∷◌, if◌then◌else◌}
use tars_framework.Base.Int.{ℤ, pos, ◌+ℤ◌, ◌-ℤ◌, ◌*ℤ◌, ltb_ℤ}

-- The head of `activing_record` is the back of the vector.
pub record Activator : Type 0 where
  pub activing_record : List ℤ
  pub limited : Bool
  pub cur_count : ℤ
  pub max_count : ℤ
  pub time_interval : ℤ
  pub punish_interval : ℤ

unfoldable pub clear_runtime_data : Activator → Activator
clear_runtime_data a = record a { activing_record = []; limited = false; cur_count = pos 0 }

unfoldable pub set_limit_info : ℤ → ℤ → ℤ → Activator → Activator
set_limit_info time_interval max_count punish_interval a = clear_runtime_data (record a {
  time_interval = time_interval;
  max_count = max_count;
  punish_interval = punish_interval;
})

unfoldable pub is_activating_limited : ℤ → Activator → Bool
is_activating_limited now a = elim a.activing_record [
  | [] ↦ false
  | last ∷ rest ↦ a.limited && ltb_ℤ (now -ℤ last) a.punish_interval
]

-- A start soon after the last one counts.
unfoldable pub count_start : ℤ → Activator → Activator
count_start gap a =
    if ltb_ℤ gap a.time_interval then record a { cur_count = a.cur_count +ℤ pos 1 } else a

-- `gap > _punishInterval * 1.5`, doubled.
unfoldable pub lift_punishment : ℤ → Activator → Activator
lift_punishment gap a =
    if a.limited && ltb_ℤ (pos 3 *ℤ a.punish_interval) (pos 2 *ℤ gap)
    then record a { cur_count = pos 0; limited = false; activing_record = [] }
    else a

unfoldable pub limit_starts : Activator → Activator
limit_starts a = if ltb_ℤ a.max_count a.cur_count then record a { limited = true } else a

unfoldable pub push_record : ℤ → Activator → Activator
push_record now a = record a { activing_record = now ∷ a.activing_record }

unfoldable pub add_activating_record : ℤ → Activator → Activator
add_activating_record now a = elim a.activing_record [
  | [] ↦ push_record now a
  | last ∷ rest ↦
      push_record now (limit_starts (lift_punishment (now -ℤ last) (count_start (now -ℤ last) a)))
]
