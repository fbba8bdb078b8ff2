-- ===== src/Model/Frame/Sink.antt =====
-- The same for the ETW thread's calls (Model/Sink.antt).
use dx12track.Prelude.{
  ℕ, Bool, refl, false, Option, not, ◌&&◌, ◌||◌, ◌==◌, find, ltb, nonzero, if_both, option_both,
}
use dx12track.Model.State.{
  DeadObj, bindable, MemLoc, EtwObj, EtwSnapshot, Model, Env, is_driver_type,
}
use dx12track.Model.Join.{with_etw, driver_agg}
use dx12track.Model.Attach.{
  or_one, live_match, dead_at, find_dead, match_late, await_object, try_bind_obj, try_bind,
  group_of_live, apply_group, size_of_live, apply_size,
}
use dx12track.Model.Session.{sample_for, poll_child, note_exit, still_active}
use dx12track.Model.Core.{Keeps, Keeps-refl}
use dx12track.Model.Stays.{Stays, Stays-refl, Stays-trans, Stays-rest, Stays-objs}
use dx12track.Model.Frame.{
  side_line-Stays, edit_live-Stays, recompute_loc-Stays, recompute_if_heap-Stays, bind-Keeps,
}

pub with_etw-Stays : (f : EtwSnapshot → EtwSnapshot) (m : Model) → Stays m (with_etw f m)
with_etw-Stays f m = Stays-rest refl refl refl refl refl refl

pub driver_agg-Stays :
    (e : EtwObj) (positive : Bool) (m : Model) → Stays m (driver_agg e positive m)
unfolding driver_agg
driver_agg-Stays e positive m = Stays-rest refl refl refl refl refl refl

size_of_live-Stays : (e : EtwObj) (size ts : ℕ) (m : Model) → Stays m (size_of_live e size ts m)
unfolding size_of_live
size_of_live-Stays e size ts m =
    option_both (Stays m) (find e.bound_id m.live) (Stays-refl m) (λ o _.
      if_both (Stays m) (o.driver_size == size) (Stays-refl m) (
        Stays-trans
          (edit_live-Stays e.bound_id (λ x. record x { driver_size = size }) m (λ x. (refl, refl)))
          (side_line-Stays _ _)))

pub apply_size-Stays :
    (key : ℕ) (e : EtwObj) (size ts : ℕ) (m : Model) → Stays m (apply_size key e size ts m)
unfolding apply_size driver_agg
apply_size-Stays key e size ts m =
    if_both (Stays m) (not (nonzero size) || size == e.size) (Stays-refl m) (
      if_both (Stays m) (not (nonzero e.bound_id) || not (is_driver_type e.type))
        (Stays-objs key (λ x. record x { size = size }) (λ x. (refl, refl)) refl refl refl refl refl
          refl)
        (Stays-trans
          (Stays-objs key (λ x. record x { size = size }) (λ x. (refl, refl)) refl refl refl refl
            refl refl)
          (size_of_live-Stays e size ts _)))

group_of_live-Stays :
    (e : EtwObj) (g : MemLoc) (ts : ℕ) (m : Model) → Stays m (group_of_live e g ts m)
unfolding group_of_live
group_of_live-Stays e g ts m = option_both (Stays m) (find e.bound_id m.live) (Stays-refl m) (λ o _.
    Stays-trans (edit_live-Stays e.bound_id _ m (λ x. (refl, refl)))
      (Stays-trans (recompute_loc-Stays e.bound_id ts false _) (recompute_if_heap-Stays o ts _)))

pub apply_group-Stays :
    (key : ℕ) (e : EtwObj) (g : MemLoc) (ts : ℕ) (m : Model) → Stays m (apply_group key e g ts m)
unfolding apply_group
apply_group-Stays key e g ts m =
    if_both (Stays m) (nonzero e.bound_id)
      (Stays-trans
        (Stays-objs key (λ x. record x { group = g }) (λ x. (refl, refl)) refl refl refl refl refl
          refl)
        (group_of_live-Stays e g ts _))
      (Stays-objs key (λ x. record x { group = g }) (λ x. (refl, refl)) refl refl refl refl refl
        refl)

pub match_late-Stays :
    (key : ℕ) (e : EtwObj) (x : DeadObj) (ts : ℕ) (m : Model) → Stays m (match_late key e x ts m)
unfolding match_late
match_late-Stays key e x ts m =
    Stays-trans
      (Stays-objs key (λ y. record y { orphan_ts = or_one x.destroyed_ns; pending_since_ms = 0 })
        (λ y. (refl, refl)) refl refl refl refl refl refl)
      (side_line-Stays _ _)

pub await_object-Stays :
    (env : Env) (key : ℕ) (e : EtwObj) (m : Model) → Stays m (await_object env key e m)
unfolding await_object
await_object-Stays env key e m =
    if_both (Stays m) (not (nonzero e.pending_since_ms) && not e.expired)
      (Stays-objs key (λ y. record y { pending_since_ms = or_one env.now_ms }) (λ y. (refl, refl))
        refl refl refl refl refl refl)
      (Stays-refl m)

try_bind_obj-Keeps :
    (env : Env) (key : ℕ) (e : EtwObj) (ts : ℕ) (m : Model) → Keeps m (try_bind_obj env key e ts m)
unfolding try_bind_obj
try_bind_obj-Keeps env key e ts m =
    if_both (Keeps m)
      (nonzero e.bound_id
        || nonzero e.orphan_ts
        || not (nonzero e.address)
        || not (bindable e.type))
      (Keeps-refl m)
      (option_both (Keeps m) (live_match e m)
        (option_both (Keeps m) (find_dead e (dead_at e.address m))
          ((await_object-Stays env key e m).keeps) (λ x _. (match_late-Stays key e x ts m).keeps))
        (λ o _. bind-Keeps key o.id ts m))

pub try_bind-Keeps : (env : Env) (key ts : ℕ) (m : Model) → Keeps m (try_bind env key ts m)
unfolding try_bind
try_bind-Keeps env key ts m =
    option_both (Keeps m) (find key m.etw_objs) (Keeps-refl m)
      (λ e _. try_bind_obj-Keeps env key e ts m)

note_exit-Stays : (now : ℕ) (code : Option ℕ) (m : Model) → Stays m (note_exit now code m)
unfolding note_exit
note_exit-Stays now code m =
    Stays-trans (Stays-rest refl refl refl refl refl refl) (side_line-Stays _ _)

pub poll_child-Stays : (env : Env) (m : Model) → Stays m (poll_child env m)
unfolding poll_child
poll_child-Stays env m = if_both (Stays m) (m.child_exiting || not m.child_process) (Stays-refl m) (
    if_both (Stays m) env.signaled (note_exit-Stays _ _ m) (
      option_both (Stays m) env.exit_code (Stays-refl m) (λ code _.
        if_both (Stays m) (code == still_active) (Stays-rest refl refl refl refl refl refl)
          (note_exit-Stays _ _ m))))

pub sample_for-Stays : (env : Env) (ts : ℕ) (m : Model) → Stays m (sample_for env ts m)
unfolding sample_for
sample_for-Stays env ts m =
    if_both (Stays m) (ltb m.child_alive_ts ts) (poll_child-Stays env m) (Stays-refl m)
