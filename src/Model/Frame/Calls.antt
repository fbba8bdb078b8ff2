-- ===== src/Model/Frame/Calls.antt =====
-- The calls of the ETW thread and of the main loop change neither the objects' own fields nor the totals.
use dx12track.Prelude.{
  ℕ, ℤ, ◌≡◌, pos, negsuc, Bool, refl, true, false, List, [], ◌∷◌, none, some, not, ◌&&◌, ◌||◌, ◌==◌,
  find, nonzero, if_both, option_both,
}
use dx12track.Etw.{ObjType, Group, GroupChange, ResidencyOp, CounterKind}
use dx12track.Model.State.{MemLoc, EtwObj, Model, Env, is_loc, from_group}
use dx12track.Model.Join.{driver_agg, find_etw}
use dx12track.Model.Session.{conv_ts, sample_for, is_after_exit}
use dx12track.Model.Sink.{
  emplace, on_etw_object_created, re_reported, merge_group, merge_size, fold_into, merge,
  take_address, on_etw_object_address, unbind, forget, note_destroyed, drop_etw,
  on_etw_object_destroyed, on_etw_object_size, change_group, on_group_change, group_changes_loop,
  on_etw_group_changes, count_residency, on_etw_residency,
}
use dx12track.Model.Tick.{Double, on_etw_counter, store_counter, on_etw_diagnostic}
use dx12track.Model.Core.{core, cores, cores-adjust, Keeps, Keeps-refl, Keeps-edit, Keeps-trans}
use dx12track.Model.Stays.{Stays, Stays-refl, Stays-trans, Stays-rest}
use dx12track.Model.Frame.{side_line-Stays}
use dx12track.Model.Frame.Sink.{
  apply_size-Stays, apply_group-Stays, try_bind-Keeps, sample_for-Stays,
}

pub on_etw_object_created-Keeps :
    (ts : ℤ) (lib_id : ℕ) (type : ObjType) (size : ℕ) (group : Group) (m : Model)
    → Keeps m (on_etw_object_created ts lib_id type size group m)
unfolding on_etw_object_created driver_agg emplace
on_etw_object_created-Keeps ts lib_id type size group m =
    if_both (Keeps m)
      (not m.etw_enabled || elim (find lib_id m.etw_alias) [ none ↦ false | some _ ↦ true ])
      (Keeps-refl m) (Keeps-edit refl refl refl refl)

pub merge_size-Stays : (into : ℕ) (e old : EtwObj) (m : Model) → Stays m (merge_size into e old m)
unfolding merge_size
merge_size-Stays into e old m =
    if_both (Stays m) (nonzero e.size) (apply_size-Stays into old e.size e.created_ts m)
      (Stays-refl m)

pub merge_group-Stays : (into : ℕ) (e old : EtwObj) (m : Model) → Stays m (merge_group into e old m)
unfolding merge_group
merge_group-Stays into e old m =
    if_both (Stays m) (not (is_loc e.group MemLoc.unknown) && not (is_loc e.group old.group))
      (apply_group-Stays into old e.group e.created_ts m) (Stays-refl m)

pub fold_into-Keeps : (key into : ℕ) (e : EtwObj) (m : Model) → Keeps m (fold_into key into e m)
unfolding fold_into driver_agg
fold_into-Keeps key into e m = Keeps-edit refl refl refl refl

merge-Keeps :
    (env : Env) (key : ℕ) (e : EtwObj) (into : ℕ) (old : EtwObj) (m : Model)
    → Keeps m (merge env key e into old m)
unfolding merge
merge-Keeps env key e into old m = Keeps-trans (Keeps-edit refl refl refl refl) (
    Keeps-trans ((merge_size-Stays into e old _).keeps) (
      Keeps-trans ((merge_group-Stays into e _ _).keeps)
        (Keeps-trans (fold_into-Keeps key into e _) (try_bind-Keeps env into e.created_ts _))))

take_address-Keeps :
    (env : Env) (key : ℕ) (e : EtwObj) (address : ℕ) (m : Model)
    → Keeps m (take_address env key e address m)
unfolding take_address
take_address-Keeps env key e address m =
    Keeps-trans (Keeps-edit refl refl refl refl)
      (Keeps-trans ((side_line-Stays _ _).keeps) (try_bind-Keeps env key e.created_ts _))

pub on_etw_object_address-Keeps :
    (env : Env) (lib_id address : ℕ) (m : Model)
    → Keeps m (on_etw_object_address env lib_id address m)
unfolding on_etw_object_address
on_etw_object_address-Keeps env lib_id address m =
    if_both (Keeps m) (not m.etw_enabled || not (nonzero address)) (Keeps-refl m) (
      option_both (Keeps m) (find_etw lib_id m) (Keeps-refl m) (λ (key, e) _.
        if_both (Keeps m) (nonzero e.address) (Keeps-refl m) (
          option_both (Keeps m) (re_reported key e address m)
            (take_address-Keeps env key e address m)
            (λ (into, old) _. merge-Keeps env key e into old m))))

pub unbind-Keeps : (key : ℕ) (e : EtwObj) (m : Model) → Keeps m (unbind key e m)
unfolding unbind
unbind-Keeps key e m =
    Keeps-edit
      (if_both (λ l. cores l ≡ cores m.live) (nonzero e.bound_id)
        (cores-adjust e.bound_id _ m.live
          (λ o. if_both (λ x. core x ≡ core o) (o.etw_key == key) refl refl))
        refl)
      refl refl refl

pub note_destroyed-Stays :
    (ts : ℤ) (key : ℕ) (e : EtwObj) (m : Model) → Stays m (note_destroyed ts key e m)
unfolding note_destroyed
note_destroyed-Stays ts key e m =
    if_both (Stays m) (nonzero e.address) (side_line-Stays _ m) (Stays-refl m)

pub drop_etw-Keeps : (key : ℕ) (e : EtwObj) (m : Model) → Keeps m (drop_etw key e m)
unfolding drop_etw driver_agg
drop_etw-Keeps key e m = Keeps-edit refl refl refl refl

pub on_etw_object_destroyed-Keeps :
    (ts : ℤ) (lib_id : ℕ) (m : Model) → Keeps m (on_etw_object_destroyed ts lib_id m)
unfolding on_etw_object_destroyed forget
on_etw_object_destroyed-Keeps ts lib_id m = if_both (Keeps m) (not m.etw_enabled) (Keeps-refl m) (
    option_both (Keeps m) (find_etw lib_id m) (Keeps-refl m) (λ (key, e) _.
      Keeps-trans ((note_destroyed-Stays ts key e m).keeps) (
        Keeps-trans (unbind-Keeps key e _)
          (Keeps-trans (Keeps-edit refl refl refl refl) (drop_etw-Keeps key e _)))))

pub on_etw_object_size-Stays :
    (ts : ℤ) (lib_id size : ℕ) (m : Model) → Stays m (on_etw_object_size ts lib_id size m)
unfolding on_etw_object_size
on_etw_object_size-Stays ts lib_id size m = if_both (Stays m) (not m.etw_enabled) (Stays-refl m) (
    option_both (Stays m) (find_etw lib_id m) (Stays-refl m)
      (λ (key, e) _. apply_size-Stays key e size _ m))

change_group-Stays : (c : GroupChange) (ts : ℕ) (m : Model) → Stays m (change_group c ts m)
unfolding change_group
change_group-Stays c ts m =
    option_both (Stays m) (find_etw c.lib_id m) (Stays-rest refl refl refl refl refl refl)
      (λ (key, e) _.
        if_both (Stays m) (is_loc (from_group c.group) e.group)
          (Stays-rest refl refl refl refl refl refl)
          (Stays-trans (Stays-rest refl refl refl refl refl refl) (apply_group-Stays key e _ ts _)))

on_group_change-Stays :
    (env : Env) (c : GroupChange) (m : Model) → Stays m (on_group_change env c m)
unfolding on_group_change
on_group_change-Stays env c m =
    let ts = conv_ts c.ts m in
    let sampled = sample_for-Stays env ts m in
    if_both (Stays m) (is_after_exit ts (sample_for env ts m))
      (Stays-trans sampled (Stays-rest refl refl refl refl refl refl))
      (Stays-trans sampled (change_group-Stays c ts _))

group_changes_loop-Stays :
    (cs : List (GroupChange × Env)) (m : Model) → Stays m (group_changes_loop cs m)
unfolding group_changes_loop
group_changes_loop-Stays [] m = Stays-refl m
group_changes_loop-Stays ((c, env) ∷ cs) m =
    Stays-trans (on_group_change-Stays env c m) (group_changes_loop-Stays cs _)

pub on_etw_group_changes-Stays :
    (cs : List (GroupChange × Env)) (m : Model) → Stays m (on_etw_group_changes cs m)
unfolding on_etw_group_changes
on_etw_group_changes-Stays cs m =
    if_both (Stays m) (not m.etw_enabled) (Stays-refl m) (group_changes_loop-Stays cs m)

count_residency-Stays :
    (ts : ℤ) (lib_id : ℕ) (type : ObjType) (op : ResidencyOp) (m : Model)
    → Stays m (count_residency ts lib_id type op m)
unfolding count_residency
count_residency-Stays ts lib_id type ResidencyOp.make_resident m =
    Stays-rest refl refl refl refl refl refl
count_residency-Stays ts lib_id type ResidencyOp.evict m = Stays-rest refl refl refl refl refl refl
count_residency-Stays ts lib_id type ResidencyOp.page_in m =
    Stays-trans (Stays-rest refl refl refl refl refl refl) (side_line-Stays _ _)
count_residency-Stays ts lib_id type ResidencyOp.page_out m =
    Stays-trans (Stays-rest refl refl refl refl refl refl) (side_line-Stays _ _)

pub on_etw_residency-Stays :
    (env : Env) (ts : ℤ) (lib_id : ℕ) (type : ObjType) (op : ResidencyOp) (m : Model)
    → Stays m (on_etw_residency env ts lib_id type op m)
unfolding on_etw_residency
on_etw_residency-Stays env ts lib_id type op m =
    let sampled = sample_for-Stays env (conv_ts ts m) m in
    if_both (Stays m) (not m.etw_enabled) (Stays-refl m) (
      if_both (Stays m) (is_after_exit (conv_ts ts m) (sample_for env (conv_ts ts m) m))
        (Stays-trans sampled (Stays-rest refl refl refl refl refl refl))
        (Stays-trans sampled (count_residency-Stays ts lib_id type op _)))

pub on_etw_counter-Stays :
    (d : Double) (env : Env) (ts : ℤ) (id : ℕ) (kind : CounterKind) (value : d.F64) (m : Model)
    → Stays m (on_etw_counter d env ts id kind value m)
unfolding on_etw_counter store_counter
on_etw_counter-Stays d env (negsuc n) id kind value m = Stays-refl m
on_etw_counter-Stays d env (pos n) id kind value m =
    let ts = conv_ts (pos n) m in
    let sampled = sample_for-Stays env ts m in
    if_both (Stays m) (not m.etw_enabled || n == 0) (Stays-refl m) (
      if_both (Stays m) (is_after_exit ts (sample_for env ts m)) sampled
        (Stays-trans sampled (Stays-rest refl refl refl refl refl refl)))

pub on_etw_diagnostic-Stays :
    (env : Env) (error : Bool) (code : ℤ) (message : List ℕ) (m : Model)
    → Stays m (on_etw_diagnostic env error code message m)
unfolding on_etw_diagnostic
on_etw_diagnostic-Stays env error code message m =
    if_both (Stays m) (not m.etw_enabled) (Stays-refl m)
      (Stays-trans (Stays-rest refl refl refl refl refl refl) (side_line-Stays _ _))
