-- ===== src/Node/Commands/Changes/Exclusion.antt =====
-- What a command that holds a service in a state excludes (NodeServer/ServerCommand.h).
use tars_framework.Base.{
  Bool, true, false, ◌&&◌, ◌||◌, not, ◌≡◌, ◌≢◌, refl, sym, ap, ◌∙◌, String, str_eq, eq_iff, arith,
  Bool-cases, inl, inr,
}
use tars_framework.Base.Int.{ℤ}
use tars_framework.Node.Server.{
  InternalServerState, ServerObject, RegistryProxy, inactive, activating, active, deactivating,
  destroying, destroyed, loading, patching, add_filesing, batch_patching, is_ing, eq_state,
  to_string_state, contains,
}
use tars_framework.Node.Commands.{
  executable, dis_executable, is_auto_start, set_patch_percent, set_patch_result, Disk,
  start_can_execute, refuse_start,
}
use tars_framework.Node.Commands.Guards.{set_state-state, set_state-same, auto-refused}
use tars_framework.Node.Commands.Changes.{
  is_blocked, change_state, load_can_execute, add_file_can_execute, patch_can_execute,
  destroy_can_execute, service_state_err, parameter_err, queued, patch_pro,
}

-- Nobody may start, load, patch or destroy the service, nor does the node start it by itself.
pub record Refuses (registry : RegistryProxy) (disk : Disk) (now : ℤ) (s : ServerObject)
    : Type 0 where
  pub no_start : (by_node : Bool) → (start_can_execute registry disk by_node s).0 ≡ dis_executable
  pub no_load :
      (application server_name : String)
      → load_can_execute registry application server_name s ≡ (dis_executable, s)
  pub no_patch :
      (md5 : String) (other_os : Bool)
      → patch_pro registry now md5 other_os s ≡ (service_state_err, s)
  pub no_destroy : destroy_can_execute s ≡ dis_executable
  pub no_auto_start : is_auto_start now s ≡ false

ing_of_blocked : (e : InternalServerState) → is_blocked e ≡ true → is_ing e ≡ true
unfolding is_blocked
ing_of_blocked e h = ground arith

not_startable :
    (e : InternalServerState)
    → is_blocked e ≡ true
    → (eq_state e active ≡ false) × (eq_state e activating ≡ false) × (eq_state e inactive ≡ false)
unfolding is_blocked is_ing to_string_state
not_startable inactive h = absurd cc
not_startable activating h = absurd cc
not_startable active h = absurd cc
not_startable deactivating h = (refl, refl, refl)
not_startable destroying h = (refl, refl, refl)
not_startable destroyed h = absurd cc
not_startable loading h = (refl, refl, refl)
not_startable patching h = (refl, refl, refl)
not_startable batch_patching h = (refl, refl, refl)
not_startable add_filesing h = (refl, refl, refl)

start_refused :
    (registry : RegistryProxy) (disk : Disk) (s : ServerObject)
    → is_blocked s.state ≡ true
    → (refuse_start registry disk s).0 ≡ dis_executable
unfolding refuse_start
start_refused registry disk s h =
    let n = not_startable s.state h in
    elim (Bool-cases s.enabled) [
      | inl e ↦ rw (refuse_start, e, n.0, n.1, n.2) refl
      | inr e ↦ rw (refuse_start, e) refl
    ]

blocked-Refuses :
    (registry : RegistryProxy) (disk : Disk) (now : ℤ) (s : ServerObject)
    → is_blocked s.state ≡ true
    → Refuses registry disk now s
unfolding start_can_execute load_can_execute patch_pro destroy_can_execute
blocked-Refuses registry disk now s h = record {
  no_start = λ by_node. elim (Bool-cases by_node) [
    | inl b ↦ rw b (start_refused registry disk (record s { enabled = true }) h)
    | inr b ↦ rw b (start_refused registry disk s h)
  ];
  no_load = λ application server_name.
      elim (Bool-cases (str_eq application "" || str_eq server_name "")) [
        | inl e ↦ rw (load_can_execute, e) refl
        | inr e ↦ rw (load_can_execute, e, h) refl
      ];
  no_patch = λ md5 other_os. rw (patch_pro, h) refl;
  no_destroy = rw (destroy_can_execute, (not_startable s.state h).2) refl;
  no_auto_start = auto-refused now s s.state refl (ing_of_blocked s.state h);
}

-- A state in which commands are refused is no other one.
apart : (d e : InternalServerState) → is_blocked d ≢ is_blocked e → eq_state d e ≡ false
unfolding is_blocked is_ing
apart d e h = elim (Bool-cases (eq_state d e)) [
  | inl t ↦
      let same : to_string_state d ≡ to_string_state e =
        (eq_iff (to_string_state d) (to_string_state e)).0 t in
      absurd (h (ap (λ t. contains "ing" t && not (str_eq t (to_string_state activating))) same))
  | inr t ↦ t
]

state-change_state :
    (registry : RegistryProxy) (e d : InternalServerState) (s : ServerObject)
    → s.state ≡ d
    → is_blocked d ≢ is_blocked e
    → (change_state registry e s).state ≡ e
unfolding change_state
state-change_state registry e d s h k = set_state-state registry e d true s h (apart d e k)

batch_blocked : is_blocked batch_patching ≡ true
unfolding is_blocked is_ing to_string_state
batch_blocked = refl

add_blocked : is_blocked add_filesing ≡ true
unfolding is_blocked is_ing to_string_state
add_blocked = refl

batch_is_not_add : eq_state batch_patching add_filesing ≡ false
unfolding to_string_state
batch_is_not_add = refl

differs :
    (d e : InternalServerState)
    → is_blocked d ≡ true
    → is_blocked e ≡ false
    → is_blocked d ≢ is_blocked e
differs d e h k q = absurd (let x : true ≡ false = sym h ∙ q ∙ k in cc)

differs_back :
    (d e : InternalServerState)
    → is_blocked d ≡ false
    → is_blocked e ≡ true
    → is_blocked d ≢ is_blocked e
differs_back d e h k q = absurd (let x : true ≡ false = sym k ∙ sym q ∙ h in cc)

-- A patch is queued only for a service that is not blocked, which the patch then holds.
queued_patch :
    (registry : RegistryProxy) (now : ℤ) (md5 : String) (other_os : Bool) (s : ServerObject)
    (last : InternalServerState)
    → (patch_pro registry now md5 other_os s).0 ≡ queued last
    → (last ≡ s.state)
      × (is_blocked s.state ≡ false)
      × ((patch_pro registry now md5 other_os s).1.state ≡ batch_patching)
unfolding patch_pro set_patch_percent
queued_patch registry now md5 other_os s last e = elim (Bool-cases (is_blocked s.state)) [
  | inl h ↦ absurd (let x : service_state_err ≡ queued last = rw (patch_pro, h) at e in cc)
  | inr h ↦ elim (Bool-cases (str_eq md5 "")) [
    | inl k ↦ absurd (let x : parameter_err ≡ queued last = rw (patch_pro, h, k) at e in cc)
    | inr k ↦ elim (Bool-cases other_os) [
      | inl o ↦ absurd (let x : parameter_err ≡ queued last = rw (patch_pro, h, k, o) at e in cc)
      | inr o ↦
          let x : queued s.state ≡ queued last = rw (patch_pro, h, k, o) at e in
          let same : last ≡ s.state = cc in
          (
            same,
            h,
            rw (patch_pro, h, k, o)
                (state-change_state registry batch_patching s.state s refl
                  (differs_back s.state batch_patching h batch_blocked)),
          )
    ]
  ]
]

patch_holds :
    (registry : RegistryProxy) (now : ℤ) (s : ServerObject)
    → s.state ≡ batch_patching
    → (patch_can_execute registry now s).1.state ≡ batch_patching
unfolding patch_can_execute set_patch_percent set_patch_result change_state
patch_holds registry now s h = set_state-same registry batch_patching true s h

-- A patch that is queued, and one that has begun, keeps the service from being started, by anyone and
-- automatically, loaded, destroyed or patched again; and at its end the service is in the state from
-- before.
pub patch_excludes :
    (registry : RegistryProxy) (disk : Disk) (now later : ℤ) (md5 : String) (other_os : Bool)
    (s : ServerObject) (last : InternalServerState)
    → (patch_pro registry now md5 other_os s).0 ≡ queued last
    → Refuses registry disk later (patch_pro registry now md5 other_os s).1
      × Refuses registry disk later
          (patch_can_execute registry later (patch_pro registry now md5 other_os s).1).1
      × ((change_state registry last
            (patch_can_execute registry later (patch_pro registry now md5 other_os s).1).1).state
          ≡ s.state)
patch_excludes registry disk now later md5 other_os s last e =
    let q = queued_patch registry now md5 other_os s last e in
    let t = (patch_pro registry now md5 other_os s).1 in
    let u = (patch_can_execute registry later t).1 in
    let held : u.state ≡ batch_patching = patch_holds registry later t q.2 in
    (
      blocked-Refuses registry disk later t (ap is_blocked q.2 ∙ batch_blocked),
      blocked-Refuses registry disk later u (ap is_blocked held ∙ batch_blocked),
      rw (q.0) (
          state-change_state registry s.state batch_patching u held
            (differs batch_patching s.state batch_blocked q.1)),
    )

-- If files are added while a patch runs and the adding ends after the patch, the service is left as
-- if it were still patched: no one can start, load, patch or destroy it, and the node does not start
-- it by itself.
pub overlap_sticks :
    (registry : RegistryProxy) (disk : Disk) (now : ℤ) (application server_name file : String)
    (s : ServerObject) (last : InternalServerState)
    → s.state ≡ batch_patching
    → is_blocked last ≡ false
    → (add_file_can_execute registry application server_name file s).0 ≡ executable
    → ((change_state registry s.state (
          change_state registry last
            (add_file_can_execute registry application server_name file s).1)).state
        ≡ batch_patching)
      × Refuses registry disk now (
          change_state registry s.state (
            change_state registry last
              (add_file_can_execute registry application server_name file s).1))
unfolding add_file_can_execute change_state
overlap_sticks registry disk now application server_name file s last h k e =
    let a = (add_file_can_execute registry application server_name file s).1 in
    let p = change_state registry last a in
    let z = change_state registry s.state p in
    let adding : a.state ≡ add_filesing = added in
    let patched : p.state ≡ last =
      state-change_state registry last add_filesing a adding
        (differs add_filesing last add_blocked k) in
    let blocked : is_blocked s.state ≡ true = ap is_blocked h ∙ batch_blocked in
    let stuck : z.state ≡ s.state =
      state-change_state registry s.state last p patched (differs_back last s.state k blocked) in
    (stuck ∙ h, blocked-Refuses registry disk now z (ap is_blocked stuck ∙ blocked))
  where
    added : (add_file_can_execute registry application server_name file s).1.state ≡ add_filesing
    added = elim (Bool-cases (str_eq application "" || str_eq server_name "")) [
      | inl x ↦
          absurd (let y : dis_executable ≡ executable = rw (add_file_can_execute, x) at e in cc)
      | inr x ↦ elim (Bool-cases (str_eq file "")) [
        | inl w ↦
            absurd
              (let y : dis_executable ≡ executable = rw (add_file_can_execute, x, w) at e in cc)
        | inr w ↦
            rw (add_file_can_execute, x, w)
              (set_state-state registry add_filesing batch_patching true s h batch_is_not_add)
      ]
    ]
