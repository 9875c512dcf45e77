-- ===== src/Node/Commands/Guards.antt =====
-- When a service may be stopped (NodeServer/CommandStop.cpp), and what the stop then excludes.
use tars_framework.Base.{
  Bool, true, false, ◌&&◌, ◌≡◌, refl, ap, ◌∙◌, if◌then◌else◌, arith, ◌↔◌, Bool-cases, inl, inr,
}
use tars_framework.Base.Int.{ℤ, pos, ◌-ℤ◌, ◌<ℤ◌, ◌≤ℤ◌, leb_ℤ}
use tars_framework.Node.Server.{
  InternalServerState, ServerObject, RegistryProxy, inactive, activating, active, deactivating,
  destroying, destroyed, loading, add_filesing, patching, batch_patching, is_ing, eq_state,
  set_state, syn_state, to_string_state,
}
use tars_framework.Node.Server.Keeps.{syn_state_keeps}
use tars_framework.Node.Commands.{
  executable, dis_executable, is_auto_start, set_patch_percent, get_patch_percent,
  is_patching_state, patch_patience, stop_can_execute, Disk, start_can_execute, refuse_stop,
  refuse_start,
}

-- Whether a service may be stopped whose patch was last seen `idle` seconds ago.
abbrev pub may_stop : InternalServerState → ℤ → Bool
may_stop inactive idle = false
may_stop activating idle = true
may_stop active idle = true
may_stop deactivating idle = true
may_stop destroying idle = false
may_stop destroyed idle = true
may_stop loading idle = true
may_stop patching idle = leb_ℤ (pos 10) idle
may_stop batch_patching idle = leb_ℤ (pos 600) idle
may_stop add_filesing idle = true

pub set_state-state :
    (registry : RegistryProxy) (e d : InternalServerState) (told : Bool) (s : ServerObject)
    → s.state ≡ d
    → eq_state d e ≡ false
    → (set_state registry e told s).state ≡ e
unfolding set_state
set_state-state registry e d told s h k =
    rw (h, k)
      (elim (Bool-cases told) [
        | inl t ↦ rw t (ap (λ u. u.state) (syn_state_keeps registry (record s { state = e })))
        | inr t ↦ rw t refl
      ])

pub syn_state-state :
    (registry : RegistryProxy) (s : ServerObject) → (syn_state registry s).state ≡ s.state
syn_state-state registry s = ap (λ u. u.state) (syn_state_keeps registry s)

pub set_state-same :
    (registry : RegistryProxy) (e : InternalServerState) (told : Bool) (s : ServerObject)
    → s.state ≡ e
    → (set_state registry e told s).state ≡ e
unfolding set_state
set_state-same registry e told s h = elim (Bool-cases (eq_state s.state e && s.noticed)) [
  | inl t ↦ rw t h
  | inr t ↦ rw t (elim (Bool-cases told) [
    | inl u ↦ rw u (syn_state-state registry (record s { state = e }))
    | inr u ↦ rw u refl
  ])
]

stop_from :
    (registry : RegistryProxy) (now : ℤ) (s : ServerObject) (e : InternalServerState)
    → s.state ≡ e
    → ((refuse_stop registry now s).1.state
        ≡ (if may_stop e (now -ℤ s.patch_info.modify_time) then deactivating else e))
      × (((refuse_stop registry now s).0 ≡ executable)
          ↔ (may_stop e (now -ℤ s.patch_info.modify_time) ≡ true))
unfolding refuse_stop to_string_state patch_patience
stop_from registry now s inactive h =
    rw h ground (arith, syn_state-state registry (record s { state = inactive }))
stop_from registry now s activating h = rw h ground (
  arith,
  set_state-state registry deactivating activating true (record s { state = activating }) refl refl,
)
stop_from registry now s active h = rw h ground (
  arith,
  set_state-state registry deactivating active true (record s { state = active }) refl refl,
)
stop_from registry now s deactivating h =
    rw h ground
      (arith, set_state-same registry deactivating true (record s { state = deactivating }) refl)
stop_from registry now s destroying h = rw h ground arith
stop_from registry now s destroyed h = rw h ground (
  arith,
  set_state-state registry deactivating destroyed true (record s { state = destroyed }) refl refl,
)
stop_from registry now s loading h = rw h ground (
  arith,
  set_state-state registry deactivating loading true (record s { state = loading }) refl refl,
)
stop_from registry now s patching h = rw h ground (
  arith,
  set_state-state registry deactivating patching true (record s { state = patching }) refl refl,
)
stop_from registry now s batch_patching h = rw h ground (
  arith,
  set_state-state registry deactivating batch_patching true (record s { state = batch_patching })
      refl refl,
)
stop_from registry now s add_filesing h = rw h ground (
  arith,
  set_state-state registry deactivating add_filesing true (record s { state = add_filesing }) refl
      refl,
)

-- The service with its switch for automatic starts set by the node.
abbrev switched : Bool → Bool → ServerObject → ServerObject
switched by_node on s = if by_node then record s { enabled = on } else s

switched_keeps :
    (by_node on : Bool) (s : ServerObject)
    → ((switched by_node on s).state ≡ s.state)
      × ((switched by_node on s).patch_info ≡ s.patch_info)
switched_keeps true on s = (refl, refl)
switched_keeps false on s = (refl, refl)

-- A stop is executed exactly in the states that `may_stop` allows, which for a patch depend on the
-- time since its last progress, and it then leaves the service deactivating; otherwise the state
-- stays as it was.
pub stop_permitted :
    (registry : RegistryProxy) (now : ℤ) (by_node : Bool) (s : ServerObject)
    → ((stop_can_execute registry now by_node s).1.state
        ≡ (if may_stop s.state (now -ℤ s.patch_info.modify_time) then deactivating else s.state))
      × (((stop_can_execute registry now by_node s).0 ≡ executable)
          ↔ (may_stop s.state (now -ℤ s.patch_info.modify_time) ≡ true))
unfolding stop_can_execute
stop_permitted registry now true s =
    stop_from registry now (record s { enabled = false }) s.state refl
stop_permitted registry now false s = stop_from registry now s s.state refl

refuse_start-deactivating :
    (registry : RegistryProxy) (disk : Disk) (s : ServerObject)
    → s.state ≡ deactivating
    → (refuse_start registry disk s).0 ≡ dis_executable
unfolding refuse_start to_string_state
refuse_start-deactivating registry disk s h = rw h ground arith

start-refused :
    (registry : RegistryProxy) (disk : Disk) (by_node : Bool) (s : ServerObject)
    → s.state ≡ deactivating
    → (start_can_execute registry disk by_node s).0 ≡ dis_executable
unfolding start_can_execute
start-refused registry disk true s h =
    refuse_start-deactivating registry disk (record s { enabled = true }) h
start-refused registry disk false s h = refuse_start-deactivating registry disk s h

deactivating_ing : is_ing deactivating ≡ true
unfolding is_ing to_string_state
deactivating_ing = refl

pub activating_ing : is_ing activating ≡ true
unfolding is_ing to_string_state
activating_ing = refl

pub auto-refused :
    (now : ℤ) (s : ServerObject) (e : InternalServerState)
    → s.state ≡ e
    → is_ing e ≡ true
    → is_auto_start now s ≡ false
unfolding is_auto_start
auto-refused now s e h k = rw (h, k) refl

-- A stop that is executed keeps the service from being started, by anyone and automatically.
pub stop-start :
    (registry later : RegistryProxy) (disk : Disk) (now next : ℤ) (by_node by_user : Bool)
    (s : ServerObject)
    → (stop_can_execute registry now by_node s).0 ≡ executable
    → ((start_can_execute later disk by_user (stop_can_execute registry now by_node s).1).0
        ≡ dis_executable)
      × (is_auto_start next (stop_can_execute registry now by_node s).1 ≡ false)
stop-start registry later disk now next by_node by_user s h =
    let permitted = stop_permitted registry now by_node s in
    let stopped : (stop_can_execute registry now by_node s).1.state ≡ deactivating =
      permitted.0 ∙ ap (λ b. if b then deactivating else s.state) (permitted.1.0 h) in
    (
      start-refused later disk by_user (stop_can_execute registry now by_node s).1 stopped,
      auto-refused next (stop_can_execute registry now by_node s).1 deactivating stopped
          deactivating_ing,
    )

refused_patching :
    (registry : RegistryProxy) (now : ℤ) (s : ServerObject) (e : InternalServerState)
    → s.state ≡ e
    → is_patching_state e ≡ true
    → now -ℤ s.patch_info.modify_time <ℤ patch_patience e
    → (refuse_stop registry now s).0 ≡ dis_executable
unfolding refuse_stop to_string_state patch_patience
refused_patching registry now s inactive e h l = ground arith
refused_patching registry now s activating e h l = ground arith
refused_patching registry now s active e h l = ground arith
refused_patching registry now s deactivating e h l = ground arith
refused_patching registry now s destroying e h l = ground arith
refused_patching registry now s destroyed e h l = ground arith
refused_patching registry now s loading e h l = ground arith
refused_patching registry now s patching e h l = rw e ground arith
refused_patching registry now s batch_patching e h l = rw e ground arith
refused_patching registry now s add_filesing e h l = ground arith

progress_refuses :
    (registry : RegistryProxy) (now later percent : ℤ) (by_node : Bool) (s : ServerObject)
    → is_patching_state s.state ≡ true
    → later -ℤ now <ℤ patch_patience s.state
    → (stop_can_execute registry later by_node (set_patch_percent now percent s)).0 ≡ dis_executable
unfolding stop_can_execute set_patch_percent
progress_refuses registry now later percent true s h l =
    refused_patching registry later _ s.state refl h l
progress_refuses registry now later percent false s h l =
    refused_patching registry later _ s.state refl h l

-- Progress of a patch that is reported at the second `now` is capped at 99 percent, and keeps the
-- service, in its state of patching, from being stopped for 10 seconds, and for 600 in a batch.
pub progress_blocks_stop :
    (registry : RegistryProxy) (now later percent : ℤ) (by_node : Bool) (s : ServerObject)
    → is_patching_state s.state ≡ true
    → later -ℤ now <ℤ patch_patience s.state
    → ((get_patch_percent (set_patch_percent now percent s)).1.percent ≤ℤ pos 99)
      × ((get_patch_percent (set_patch_percent now percent s)).0 ≡ true)
      × ((stop_can_execute registry later by_node (set_patch_percent now percent s)).0
          ≡ dis_executable)
unfolding get_patch_percent set_patch_percent
progress_blocks_stop registry now later percent by_node s h l =
    (ground arith, ground arith, progress_refuses registry now later percent by_node s h l)
