-- ===== src/Model/Locations/Calls.antt =====
-- The calls of the ETW consumer (src/launcher/Model.cpp) leave the bytes by location right.
use dx12track.Prelude.{
  ℕ, ℤ, pos, negsuc, Bool, true, false, List, [], ◌∷◌, Option, none, some, not, ◌&&◌, ◌||◌, ◌==◌,
  if◌then◌else◌, find, ltb, nonzero, arith, if_both, option_both,
}
use dx12track.Etw.{ObjType, Group, GroupChange, ResidencyOp, CounterKind}
use dx12track.Model.State.{MemLoc, EtwObj, Model, Env, is_loc, from_group}
use dx12track.Model.Join.{find_etw}
use dx12track.Model.Session.{
  conv_ts, note_exit, poll_child, still_active, sample_for, is_after_exit,
}
use dx12track.Model.Sink.{
  new_etw_obj, emplace, on_etw_object_created, re_reported, merge_group, merge_size, fold_into,
  merge, take_address, on_etw_object_address, unbind, forget, note_destroyed, drop_etw,
  on_etw_object_destroyed, on_etw_object_size, change_group, on_group_change, group_changes_loop,
  on_etw_group_changes, count_residency, on_etw_residency,
}
use dx12track.Model.Tick.{Double, on_etw_counter, store_counter, on_etw_diagnostic}
use dx12track.Model.Locations.{HasLocs, edit_live-HasLocs}
use dx12track.Model.Locations.Moves.{
  side_line-HasLocs, driver_agg-HasLocs, apply_size-HasLocs, apply_group-HasLocs, try_bind-HasLocs,
}

note_exit-HasLocs :
    (now : ℕ) (code : Option ℕ) (m : Model) → HasLocs m → HasLocs (note_exit now code m)
unfolding note_exit
note_exit-HasLocs now code m v = side_line-HasLocs _ _ v

pub poll_child-HasLocs : (env : Env) (m : Model) → HasLocs m → HasLocs (poll_child env m)
unfolding poll_child
poll_child-HasLocs env m v = if_both HasLocs (m.child_exiting || not m.child_process) v (
    if_both HasLocs env.signaled (note_exit-HasLocs _ _ m v) (
      option_both HasLocs env.exit_code v
        (λ code _. if_both HasLocs (code == still_active) v (note_exit-HasLocs _ _ m v))))

sample_for-HasLocs : (env : Env) (ts : ℕ) (m : Model) → HasLocs m → HasLocs (sample_for env ts m)
unfolding sample_for
sample_for-HasLocs env ts m v =
    if_both HasLocs (ltb m.child_alive_ts ts) (poll_child-HasLocs env m v) v

pub on_etw_object_created-HasLocs :
    (ts : ℤ) (lib_id : ℕ) (type : ObjType) (size : ℕ) (group : Group) (m : Model)
    → HasLocs m
    → HasLocs (on_etw_object_created ts lib_id type size group m)
unfolding on_etw_object_created emplace
on_etw_object_created-HasLocs ts lib_id type size group m v =
    if_both HasLocs
      (not m.etw_enabled || elim (find lib_id m.etw_alias) [ none ↦ false | some _ ↦ true ]) v
      (driver_agg-HasLocs (new_etw_obj type size group (conv_ts ts m)) true m v)

merge_size-HasLocs :
    (into : ℕ) (e old : EtwObj) (m : Model) → HasLocs m → HasLocs (merge_size into e old m)
unfolding merge_size
merge_size-HasLocs into e old m v =
    if_both HasLocs (nonzero e.size) (apply_size-HasLocs into old e.size e.created_ts m v) v

merge_group-HasLocs :
    (into : ℕ) (e old : EtwObj) (m : Model) → HasLocs m → HasLocs (merge_group into e old m)
unfolding merge_group
merge_group-HasLocs into e old m v =
    if_both HasLocs (not (is_loc e.group MemLoc.unknown) && not (is_loc e.group old.group))
      (apply_group-HasLocs into old e.group e.created_ts m v) v

fold_into-HasLocs :
    (key into : ℕ) (e : EtwObj) (m : Model) → HasLocs m → HasLocs (fold_into key into e m)
unfolding fold_into
fold_into-HasLocs key into e m v = driver_agg-HasLocs e false m v

merge-HasLocs :
    (env : Env) (key : ℕ) (e : EtwObj) (into : ℕ) (old : EtwObj) (m : Model)
    → HasLocs m
    → HasLocs (merge env key e into old m)
unfolding merge
merge-HasLocs env key e into old m v = try_bind-HasLocs env into e.created_ts _ (
    fold_into-HasLocs key into e _
      (merge_group-HasLocs into e _ _ (merge_size-HasLocs into e old _ v)))

take_address-HasLocs :
    (env : Env) (key : ℕ) (e : EtwObj) (address : ℕ) (m : Model)
    → HasLocs m
    → HasLocs (take_address env key e address m)
unfolding take_address
take_address-HasLocs env key e address m v =
    try_bind-HasLocs env key e.created_ts _ (side_line-HasLocs _ _ v)

pub on_etw_object_address-HasLocs :
    (env : Env) (lib_id address : ℕ) (m : Model)
    → HasLocs m
    → HasLocs (on_etw_object_address env lib_id address m)
unfolding on_etw_object_address
on_etw_object_address-HasLocs env lib_id address m v =
    if_both HasLocs (not m.etw_enabled || not (nonzero address)) v (
      option_both HasLocs (find_etw lib_id m) v (λ (key, e) _.
        if_both HasLocs (nonzero e.address) v (
          option_both HasLocs (re_reported key e address m)
            (take_address-HasLocs env key e address m v)
            (λ (into, old) _. merge-HasLocs env key e into old m v))))

unbind-HasLocs : (key : ℕ) (e : EtwObj) (m : Model) → HasLocs m → HasLocs (unbind key e m)
unfolding unbind
unbind-HasLocs key e m v =
    if_both (λ l. HasLocs (record m { live = l })) (nonzero e.bound_id)
      (edit_live-HasLocs e.bound_id (λ o. if o.etw_key == key then record o { etw_key = 0 } else o)
        m (λ o. ground arith) v)
      v

note_destroyed-HasLocs :
    (ts : ℤ) (key : ℕ) (e : EtwObj) (m : Model) → HasLocs m → HasLocs (note_destroyed ts key e m)
unfolding note_destroyed
note_destroyed-HasLocs ts key e m v =
    if_both HasLocs (nonzero e.address) (side_line-HasLocs _ m v) v

forget-HasLocs : (key : ℕ) (e : EtwObj) (m : Model) → HasLocs m → HasLocs (forget key e m)
unfolding forget
forget-HasLocs key e m v = v

drop_etw-HasLocs : (key : ℕ) (e : EtwObj) (m : Model) → HasLocs m → HasLocs (drop_etw key e m)
unfolding drop_etw
drop_etw-HasLocs key e m v = driver_agg-HasLocs e false m v

pub on_etw_object_destroyed-HasLocs :
    (ts : ℤ) (lib_id : ℕ) (m : Model) → HasLocs m → HasLocs (on_etw_object_destroyed ts lib_id m)
unfolding on_etw_object_destroyed
on_etw_object_destroyed-HasLocs ts lib_id m v = if_both HasLocs (not m.etw_enabled) v (
    option_both HasLocs (find_etw lib_id m) v (λ (key, e) _.
      drop_etw-HasLocs key e _
        (forget-HasLocs key e _ (unbind-HasLocs key e _ (note_destroyed-HasLocs ts key e m v)))))

pub on_etw_object_size-HasLocs :
    (ts : ℤ) (lib_id size : ℕ) (m : Model)
    → HasLocs m
    → HasLocs (on_etw_object_size ts lib_id size m)
unfolding on_etw_object_size
on_etw_object_size-HasLocs ts lib_id size m v =
    if_both HasLocs (not m.etw_enabled) v (
      option_both HasLocs (find_etw lib_id m) v (λ (key, e) _. apply_size-HasLocs key e size _ m v))

change_group-HasLocs :
    (c : GroupChange) (ts : ℕ) (m : Model) → HasLocs m → HasLocs (change_group c ts m)
unfolding change_group
change_group-HasLocs c ts m v = option_both HasLocs (find_etw c.lib_id m) v (λ (key, e) _.
    if_both HasLocs (is_loc (from_group c.group) e.group) v (apply_group-HasLocs key e _ ts _ v))

on_group_change-HasLocs :
    (env : Env) (c : GroupChange) (m : Model) → HasLocs m → HasLocs (on_group_change env c m)
unfolding on_group_change
on_group_change-HasLocs env c m v =
    let ts = conv_ts c.ts m in
    let sampled = sample_for-HasLocs env ts m v in
    if_both HasLocs (is_after_exit ts (sample_for env ts m)) sampled
      (change_group-HasLocs c ts _ sampled)

group_changes_loop-HasLocs :
    (cs : List (GroupChange × Env)) (m : Model) → HasLocs m → HasLocs (group_changes_loop cs m)
unfolding group_changes_loop
group_changes_loop-HasLocs [] m v = v
group_changes_loop-HasLocs ((c, env) ∷ cs) m v =
    group_changes_loop-HasLocs cs _ (on_group_change-HasLocs env c m v)

pub on_etw_group_changes-HasLocs :
    (cs : List (GroupChange × Env)) (m : Model) → HasLocs m → HasLocs (on_etw_group_changes cs m)
unfolding on_etw_group_changes
on_etw_group_changes-HasLocs cs m v =
    if_both HasLocs (not m.etw_enabled) v (group_changes_loop-HasLocs cs m v)

count_residency-HasLocs :
    (ts : ℤ) (lib_id : ℕ) (type : ObjType) (op : ResidencyOp) (m : Model)
    → HasLocs m
    → HasLocs (count_residency ts lib_id type op m)
unfolding count_residency
count_residency-HasLocs ts lib_id type ResidencyOp.make_resident m v = v
count_residency-HasLocs ts lib_id type ResidencyOp.evict m v = v
count_residency-HasLocs ts lib_id type ResidencyOp.page_in m v = side_line-HasLocs _ _ v
count_residency-HasLocs ts lib_id type ResidencyOp.page_out m v = side_line-HasLocs _ _ v

pub on_etw_residency-HasLocs :
    (env : Env) (ts : ℤ) (lib_id : ℕ) (type : ObjType) (op : ResidencyOp) (m : Model)
    → HasLocs m
    → HasLocs (on_etw_residency env ts lib_id type op m)
unfolding on_etw_residency
on_etw_residency-HasLocs env ts lib_id type op m v =
    let sampled = sample_for-HasLocs env (conv_ts ts m) m v in
    if_both HasLocs (not m.etw_enabled) v (
      if_both HasLocs (is_after_exit (conv_ts ts m) (sample_for env (conv_ts ts m) m)) sampled
        (count_residency-HasLocs ts lib_id type op _ sampled))

pub on_etw_counter-HasLocs :
    (d : Double) (env : Env) (ts : ℤ) (id : ℕ) (kind : CounterKind) (value : d.F64) (m : Model)
    → HasLocs m
    → HasLocs (on_etw_counter d env ts id kind value m)
unfolding on_etw_counter store_counter
on_etw_counter-HasLocs d env (negsuc n) id kind value m v = v
on_etw_counter-HasLocs d env (pos n) id kind value m v =
    let ts = conv_ts (pos n) m in
    let sampled = sample_for-HasLocs env ts m v in
    if_both HasLocs (not m.etw_enabled || n == 0) v
      (if_both HasLocs (is_after_exit ts (sample_for env ts m)) sampled sampled)

pub on_etw_diagnostic-HasLocs :
    (env : Env) (error : Bool) (code : ℤ) (message : List ℕ) (m : Model)
    → HasLocs m
    → HasLocs (on_etw_diagnostic env error code message m)
unfolding on_etw_diagnostic
on_etw_diagnostic-HasLocs env error code message m v =
    if_both HasLocs (not m.etw_enabled) v (side_line-HasLocs _ _ v)
