-- ===== src/Node/Server/Notice.antt =====
-- What `synState` and `setState` of NodeServer/ServerObject.cpp tell the registry, and when again;
-- the callbacks of `async_updateServer`.
use tars_framework.Base.{
  Bool, true, false, not, if◌then◌else◌, Bool-cases, inl, inr, ◌∙◌, ap, sym, ◌≡◌, refl, none, some,
  arith, List, [], ◌∷◌, All, beq_refl, string_key, ◌&&◌,
}
use tars_framework.Base.Int.{ℤ, pos, ◌+ℤ◌, ◌<ℤ◌, ◌≤ℤ◌, ltb_ℤ}
use tars_framework.Node.Server.{
  InternalServerState, ServerObject, RegistryProxy, eq_state, state_info, noted, not_noted,
  on_update_server_result, callback_update_server_exception, syn_state, set_state, ServerStateInfo,
  to_string_state,
}

eq_state_refl : (e : InternalServerState) → eq_state e e ≡ true
eq_state_refl e = beq_refl string_key (to_string_state e)

told_once :
    (registry : RegistryProxy) (e : InternalServerState) (s : ServerObject)
    → s.state ≡ e
    → s.noticed ≡ true
    → set_state registry e true s ≡ s
unfolding set_state
told_once registry e s h n =
    let same : eq_state s.state e && s.noticed ≡ true = rw (h, n, eq_state_refl e) refl in
    rw same refl

syn_state-answered :
    (registry : RegistryProxy) (ret : ℤ) (s : ServerObject)
    → s.notice_fail_times <ℤ pos 3
    → registry.update_server (state_info s) ≡ some ret
    → syn_state registry s ≡ noted s
unfolding syn_state on_update_server_result
syn_state-answered registry ret s h e = rw e ground arith

set_state-other :
    (registry : RegistryProxy) (e : InternalServerState) (s : ServerObject)
    → eq_state s.state e ≡ false
    → set_state registry e true s ≡ syn_state registry (record s { state = e })
unfolding set_state
set_state-other registry e s h = ground arith

-- While fewer than 3 reports in a row have failed, a new state whose report the registry answers is
-- taken as told whatever the answer is, the negative ones included, and setting the state again
-- makes no further report.
pub answered_is_told :
    (registry later : RegistryProxy) (ret : ℤ) (e : InternalServerState) (s : ServerObject)
    → eq_state s.state e ≡ false
    → s.notice_fail_times <ℤ pos 3
    → registry.update_server (state_info (record s { state = e })) ≡ some ret
    → (set_state registry e true s ≡ noted (record s { state = e }))
      × (set_state later e true (set_state registry e true s) ≡ set_state registry e true s)
answered_is_told registry later ret e s d h a =
    let told : set_state registry e true s ≡ noted (record s { state = e }) =
      rw (set_state-other registry e s d)
        (syn_state-answered registry ret (record s { state = e }) h a) in
    (told, rw told (told_once later e (noted (record s { state = e })) refl refl))

-- What a call of `async_updateServer` comes back to: `callback_updateServer` with what the registry
-- returns, or `callback_updateServer_exception` with its code.
pub data Callback : Type 0 where
  answered : ℤ → Callback
  failed : ℤ → Callback

unfoldable pub call_back : Callback → ServerObject → ServerObject
call_back (answered ret) s = on_update_server_result ret s
call_back (failed ret) s = callback_update_server_exception ret s

-- Whether `synState` sends its report with `async_updateServer`.
abbrev pub is_sent : RegistryProxy → ServerObject → Bool
is_sent registry s =
    not (ltb_ℤ s.notice_fail_times (pos 3)) && registry.async_update_server (state_info s)

-- A report of the state `e`, and the callback of its call if it is sent so.
unfoldable pub attempt :
    RegistryProxy × Callback → InternalServerState → ServerObject → ServerObject
attempt (registry, callback) e s =
    if eq_state s.state e && s.noticed
    then set_state registry e true s
    else if is_sent registry (record s { state = e })
    then call_back callback (set_state registry e true s)
    else set_state registry e true s

-- Reports of the state `e`, one after another.
abbrev pub attempts :
    List (RegistryProxy × Callback) → InternalServerState → ServerObject → ServerObject
attempts [] e s = s
attempts (a ∷ rest) e s = attempts rest e (attempt a e s)

abbrev pub Fails : Callback → Type 0
Fails (answered ret) = ret <ℤ pos 0
Fails (failed ret) = ret ≤ℤ pos 0

abbrev pub Succeeds : Callback → Type 0
Succeeds (answered ret) = pos 0 ≤ℤ ret
Succeeds (failed ret) = ⊥

-- A registry that cannot be reached: no call returns, and what is sent comes back as a failure.
pub record IsDown (a : RegistryProxy × Callback) : Type 0 where
  pub no_answer : (info : ServerStateInfo) → a.0.update_server info ≡ none
  pub fails : Fails a.1

-- A registry that answers, takes calls, and answers those too.
pub record IsUp (a : RegistryProxy × Callback) : Type 0 where
  pub answers : (info : ServerStateInfo) → (ret : ℤ) × (a.0.update_server info ≡ some ret)
  pub takes : (info : ServerStateInfo) → a.0.async_update_server info ≡ true
  pub succeeds : Succeeds a.1

set_state-untold :
    (registry : RegistryProxy) (e : InternalServerState) (s : ServerObject)
    → s.noticed ≡ false
    → set_state registry e true s ≡ syn_state registry (record s { state = e })
unfolding set_state
set_state-untold registry e s h = ground arith

attempt-untold :
    (registry : RegistryProxy) (callback : Callback) (e : InternalServerState) (s : ServerObject)
    → s.noticed ≡ false
    → attempt (registry, callback) e s ≡ (
        if is_sent registry (record s { state = e })
        then call_back callback (syn_state registry (record s { state = e }))
        else syn_state registry (record s { state = e }))
unfolding attempt
attempt-untold registry callback e s h = rw (set_state-untold registry e s h) ground arith

failed_back :
    (callback : Callback) (s : ServerObject) → Fails callback → call_back callback s ≡ not_noted s
unfolding call_back on_update_server_result callback_update_server_exception
failed_back (answered ret) s f = ground arith
failed_back (failed ret) s f = ground arith

succeeded_back :
    (callback : Callback) (s : ServerObject) → Succeeds callback → call_back callback s ≡ noted s
unfolding call_back on_update_server_result
succeeded_back (answered ret) s f = ground arith
succeeded_back (failed ret) s f = absurd f

-- What a report leaves where the registry is down: nothing is told, and a failure is counted.
attempt-down :
    (registry : RegistryProxy) (callback : Callback) (e : InternalServerState) (s : ServerObject)
    → IsDown (registry, callback)
    → s.noticed ≡ false
    → (n : ℤ) × (attempt (registry, callback) e s
        ≡ record s { state = e; noticed = false; notice_fail_times = n })
unfolding syn_state
attempt-down registry callback e s d h =
    let t : ServerObject = record s { state = e } in
    let untold = attempt-untold registry callback e s h in
    elim (Bool-cases (ltb_ℤ s.notice_fail_times (pos 3))) [
      | inl few ↦ (
        s.notice_fail_times +ℤ pos 1,
        untold ∙ rw (syn_state, few, d.no_answer (state_info t)) refl,
      )
      | inr many ↦ elim (Bool-cases (registry.async_update_server (state_info t))) [
        | inl sent ↦ (
          pos 0 +ℤ pos 1,
          untold ∙ rw (syn_state, many, sent) (failed_back callback (noted t) d.fails),
        )
        | inr thrown ↦ (s.notice_fail_times +ℤ pos 1, untold ∙ rw (syn_state, many, thrown) refl)
      ]
    ]

noted_answer : (ret : ℤ) (s : ServerObject) → noted (on_update_server_result ret s) ≡ noted s
unfolding on_update_server_result
noted_answer ret s = ground arith

attempt-up :
    (registry : RegistryProxy) (callback : Callback) (e : InternalServerState) (s : ServerObject)
    → IsUp (registry, callback)
    → s.noticed ≡ false
    → attempt (registry, callback) e s ≡ noted (record s { state = e })
unfolding syn_state on_update_server_result
attempt-up registry callback e s u h =
    let t : ServerObject = record s { state = e } in
    let untold = attempt-untold registry callback e s h in
    elim (Bool-cases (ltb_ℤ s.notice_fail_times (pos 3))) [
      | inl few ↦
          untold
          ∙ rw (syn_state, few, (u.answers (state_info t)).1)
              (noted_answer (u.answers (state_info t)).0 t)
      | inr many ↦
          untold
          ∙ rw (syn_state, many, u.takes (state_info t))
              (succeeded_back callback (noted t) u.succeeds)
    ]

attempt_told :
    (a : RegistryProxy × Callback) (e : InternalServerState) (s : ServerObject)
    → s.state ≡ e
    → s.noticed ≡ true
    → attempt a e s ≡ s
unfolding attempt
attempt_told (registry, callback) e s h n =
    let same : eq_state s.state e && s.noticed ≡ true = rw (h, n, eq_state_refl e) refl in
    rw same (told_once registry e s h n)

-- A state that is not told yet is reported again at every call, however often the registry cannot be
-- reached, whether the call throws or its callback brings the failure, and told once the registry
-- answers; then no call reports it again. The callback of a call comes before the next report; a
-- failure that it brings has no positive code, and an answer to a call that is sent so is not negative.
pub told_at_last :
    (down : List (RegistryProxy × Callback)) (up later : RegistryProxy × Callback)
    (e : InternalServerState) (s : ServerObject)
    → All IsDown down
    → IsUp up
    → s.noticed ≡ false
    → ((attempts down e s).noticed ≡ false)
      × (attempt up e (attempts down e s) ≡ noted (record s { state = e }))
      × (attempt later e (attempt up e (attempts down e s)) ≡ attempt up e (attempts down e s))
told_at_last [] up later e s a u h =
    let told : attempt up e s ≡ noted (record s { state = e }) = attempt-up up.0 up.1 e s u h in
    (h, told, rw told (attempt_told later e (noted (record s { state = e })) refl refl))
told_at_last ((registry, callback) ∷ down) up later e s a u h =
    let step = attempt-down registry callback e s a.0 h in
    let rest =
      told_at_last down up later e
        (record s { state = e; noticed = false; notice_fail_times = step.0 }) a.1 u refl in
    let next = ap (λ t. attempt up e (attempts down e t)) step.1 in
    (
      ap (λ t. (attempts down e t).noticed) step.1 ∙ rest.0,
      next ∙ rest.1,
      ap (attempt later e) next ∙ rest.2 ∙ sym next,
    )
