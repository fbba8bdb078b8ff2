-- ===== src/System/Totals.antt =====
-- The launcher's totals on the events of the tracker (src/dll/Tracker.cpp, src/launcher/Model.cpp).
use dx12track.Prelude.{
  ℕ, ◌+◌, ◌≤◌, ◌<◌, ◌≡◌, refl, ap, ◌∙◌, List, [], ◌∷◌, none, some, Map, find, put, erase, sum_by,
  length, length-append, arith, u64_mod, inl, inr, if_both, option_both, Option-cases, ◌==◌,
  if◌then◌else◌, Distinct, find-put, find-erase-some, sum_by-put,
}
use dx12track.Events.{
  CreatedPayload, RenamedPayload, DestroyedPayload, sizeof_created, sizeof_renamed,
  sizeof_destroyed,
}
use dx12track.Tracker.{
  registers, releases, names, register, on_release_to_zero, on_set_name, emit_created, emit_renamed,
  emit_destroyed, patch_vtable_if_new, patch_new, Hooks, Tracker, Call, Emitted, created, renamed,
  destroyed, run, step, empty_tracker,
}
use dx12track.Tracker.Ids.{count_created, created_now, run-IsOnce}
use dx12track.Model.State.{Model, Env}
use dx12track.Model.Core.{Core, core, cores, cores-put, cores-erase, find-cores, length-cores}
use dx12track.Model.Attach.{etw_on_destroyed}
use dx12track.Model.Frame.{edit_live-Stays}
use dx12track.Model.Frame.Attach.{etw_on_created-Retains, etw_on_destroyed-Retains}
use dx12track.Model.Ingest.{
  Payload, stored_object, count_in, count_out, push_activity, on_created, on_renamed, on_destroyed,
  dispatch, on_event,
}
use dx12track.Model.Totals.{HasTotals, size_of}
use dx12track.Model.Totals.Events.{IsNew, on_event-HasTotals}
use dx12track.System.{Arrival, receive, receive_all}

-- The bytes that an event, or a list of events, creates.
abbrev pub bytes_now : Emitted → ℕ
bytes_now (created p) = p.size_bytes
bytes_now (renamed p) = 0
bytes_now (destroyed p) = 0

abbrev pub created_bytes : List Emitted → ℕ
created_bytes [] = 0
created_bytes (e ∷ es) = bytes_now e + created_bytes es

-- The live objects come from the events so far: `seen` counts the creations of an id, `b` the bytes,
-- `n` the events.
pub record Follows (seen : ℕ → ℕ) (b n : ℕ) (objs : Map Core) : Type 0 where
  pub known : (id : ℕ) (c : Core) → find id objs ≡ some c → 1 ≤ seen id
  pub bytes : sum_by size_of objs ≤ b
  pub few : length objs ≤ n

sum_by-erase-le : (w : Core → ℕ) (k : ℕ) (objs : Map Core) → sum_by w (erase k objs) ≤ sum_by w objs
unfolding sum_by erase
sum_by-erase-le w k [] = omega arith
sum_by-erase-le w k ((i, c) ∷ objs) = ground (arith, sum_by-erase-le w k objs)

length-erase-le : (k : ℕ) (objs : Map Core) → length (erase k objs) ≤ length objs
unfolding erase
length-erase-le k [] = omega arith
length-erase-le k ((i, c) ∷ objs) = ground (arith, length-erase-le k objs)

length-put-le : (k : ℕ) (c : Core) (objs : Map Core) → length (put k c objs) ≤ length objs + 1
unfolding put
length-put-le k c [] = omega arith
length-put-le k c ((i, d) ∷ objs) = ground (arith, length-put-le k c objs)

module _ {seen : ℕ → ℕ} {b n : ℕ} {objs : Map Core} (f : Follows seen b n objs) where
  Follows-more :
      (seen' : ℕ → ℕ) (b' n' : ℕ)
      → ((id : ℕ) → seen id ≤ seen' id)
      → b ≤ b'
      → n ≤ n'
      → Follows seen' b' n' objs
  Follows-more seen' b' n' s p q = record {
    known = λ id c e. omega (arith, f.known id c e, s id);
    bytes = omega (arith, f.bytes);
    few = omega (arith, f.few);
  }

  Follows-erase : (k : ℕ) → Distinct objs → Follows seen b n (erase k objs)
  Follows-erase k d = record {
    known = λ id c e. f.known id c (find-erase-some k id c objs d e).1;
    bytes = omega (arith, f.bytes, sum_by-erase-le size_of k objs);
    few = omega (arith, f.few, length-erase-le k objs);
  }

  Follows-put :
      (k : ℕ) (c : Core)
      → find k objs ≡ none
      → Follows
          (λ id. seen id + (if k == id then 1 else 0))
          (b + c.size_bytes)
          (n + 1)
          (put k c objs)
  Follows-put k c fresh = record {
    known = λ id d e. ground (arith, find-put k id c objs, f.known id d);
    bytes = omega (arith, f.bytes, sum_by-put size_of k c objs fresh);
    few = omega (arith, f.few, length-put-le k c objs);
  }

-- What the events of the tracker do to the live objects.
on_created-cores :
    (ts : ℕ) (p : CreatedPayload) (m : Model)
    → cores (on_created ts p m).live ≡ put p.id (core (stored_object ts p)) (cores m.live)
unfolding on_created push_activity stored_object count_in
on_created-cores ts p m =
    let o = stored_object ts p in
    if_both (λ (x : Model). cores x.live ≡ put p.id (core o) (cores m.live)) m.etw_enabled
      ((etw_on_created-Retains o ts (count_in o m)).same_cores ∙ cores-put p.id o m.live)
      (cores-put p.id o m.live)

on_destroyed-Follows :
    {seen : ℕ → ℕ} {b n : ℕ} (ts : ℕ) (p : DestroyedPayload) (m : Model)
    → Distinct (cores m.live)
    → Follows seen b n (cores m.live)
    → Follows seen b n (cores (on_destroyed ts p m).live)
unfolding on_destroyed push_activity count_out
on_destroyed-Follows {seen = seen} {b = b} {n = n} ts p m d f =
    option_both (λ (x : Model). Follows seen b n (cores x.live)) (find p.id m.live) f
      (λ o _.
        if_both (λ (x : Model). Follows seen b n (cores (erase o.id x.live))) m.etw_enabled
          (rw
            (
              cores-erase o.id (etw_on_destroyed o ts m).live,
              (etw_on_destroyed-Retains o ts m).same_cores,
            )
            (Follows-erase f o.id d))
          (rw (cores-erase o.id m.live) (Follows-erase f o.id d)))

on_renamed-cores : (p : RenamedPayload) (m : Model) → cores (on_renamed p m).live ≡ cores m.live
unfolding on_renamed
on_renamed-cores p m = (edit_live-Stays p.id _ m (λ x. (refl, refl))).keeps.retains.same_cores

pub receive-Follows :
    {seen : ℕ → ℕ} {b n : ℕ} (a : Env × ℕ × Payload) (e : Emitted) (m : Model)
    → ((p : CreatedPayload) → e ≡ created p → find p.id (cores m.live) ≡ none)
    → Distinct (cores m.live)
    → Follows seen b n (cores m.live)
    → Follows
        (λ id. seen id + created_now id e)
        (b + bytes_now e)
        (n + 1)
        (cores (receive a e m).live)
unfolding receive on_event dispatch stored_object
receive-Follows {seen = seen} {b = b} {n = n} (env, ts, p) (created c) m fresh d f =
    rw (on_created-cores ts c (record m { s = record (m.s) { latest_ns = ts } }))
      (Follows-put f c.id (core (stored_object ts c)) (fresh c refl))
receive-Follows {seen = seen} {b = b} {n = n} (env, ts, p) (renamed r) m fresh d f =
    rw (on_renamed-cores r (record m { s = record (m.s) { latest_ns = ts } }))
      (Follows-more f _ _ _ (λ id. omega arith) (omega arith) (omega arith))
receive-Follows {seen = seen} {b = b} {n = n} (env, ts, p) (destroyed x) m fresh d f =
    Follows-more (on_destroyed-Follows ts x (record m { s = record (m.s) { latest_ns = ts } }) d f)
      _ _ _ (λ id. omega arith) (omega arith) (omega arith)

pub receive-HasTotals :
    (a : Env × ℕ × Payload) (e : Emitted) (m : Model)
    → ((p : CreatedPayload) → e ≡ created p → IsNew p.id p.size_bytes m)
    → HasTotals m
    → HasTotals (receive a e m)
unfolding receive
receive-HasTotals (env, ts, p) (created c) m new v =
    on_event-HasTotals env _ _ sizeof_created m (λ _ _. new c refl) v
receive-HasTotals (env, ts, p) (renamed r) m new v =
    on_event-HasTotals env _ _ sizeof_renamed m (λ k _. absurd (ground arith)) v
receive-HasTotals (env, ts, p) (destroyed x) m new v =
    on_event-HasTotals env _ _ sizeof_destroyed m (λ k _. absurd (ground arith)) v

module _ (seen : ℕ → ℕ) (b n : ℕ) (m : Model) (f : Follows seen b n (cores m.live)) where
  pub unseen : (id : ℕ) → seen id ≡ 0 → find id (cores m.live) ≡ none
  unseen id z = elim (Option-cases (find id (cores m.live))) [
    | inl e ↦ e
    | inr (c, e) ↦ absurd (omega (arith, f.known id c e))
  ]

  pub Follows-IsNew :
      (id size : ℕ) → seen id ≡ 0 → b + size < u64_mod → n + 1 < u64_mod → IsNew id size m
  Follows-IsNew id size z p q = record {
    fresh = ground (arith, find-cores id m.live, unseen id z);
    room = omega (arith, f.bytes);
    few = omega (arith, f.few, length-cores m.live);
  }

receive_all-HasTotals :
    (arrival : Arrival) (i : ℕ) (es : List Emitted) (seen : ℕ → ℕ) (b n : ℕ) (m : Model)
    → Follows seen b n (cores m.live)
    → HasTotals m
    → ((id : ℕ) → seen id + count_created id es ≤ 1)
    → b + created_bytes es < u64_mod
    → n + length es < u64_mod
    → HasTotals (receive_all arrival i es m)
unfolding receive_all
receive_all-HasTotals arrival i [] seen b n m f v once p q = v
receive_all-HasTotals arrival i (e ∷ es) seen b n m f v once p q =
    let fresh : (c : CreatedPayload) → e ≡ created c → seen c.id ≡ 0 =
      λ c h. ground (arith, once c.id, ap (created_now c.id) h) in
    receive_all-HasTotals arrival (i + 1) es (λ id. seen id + created_now id e) (b + bytes_now e)
      (n + 1) (receive (arrival i) e m)
      (receive-Follows (arrival i) e m (λ c h. unseen seen b n m f c.id (fresh c h)) v.distinct f)
      (receive-HasTotals (arrival i) e m
        (λ c h.
          Follows-IsNew seen b n m f c.id c.size_bytes (fresh c h) (omega (arith, ap bytes_now h))
            (omega arith))
        v)
      (λ id. omega (arith, once id)) (omega arith) (omega arith)

step-sent :
    (hooks : Hooks) (c : Call) (t : Tracker) → length (step hooks c t).sent ≤ length t.sent + 1
unfolding step register on_release_to_zero on_set_name emit_created emit_renamed emit_destroyed
    patch_vtable_if_new patch_new
step-sent hooks (registers obj info) t = grind (arith, length-append)
step-sent hooks (releases obj) t = grind (arith, length-append)
step-sent hooks (names obj name) t = grind (arith, length-append)

pub run-sent :
    (hooks : Hooks) (calls : List Call) (t : Tracker)
    → length (run hooks calls t).sent ≤ length t.sent + length calls
unfolding run
run-sent hooks [] t = omega arith
run-sent hooks (c ∷ cs) t = omega (arith, run-sent hooks cs (step hooks c t), step-sent hooks c t)

-- What the tracker emits over fewer than 2^64 - 1 calls from its empty state, handed in order to a
-- launcher that holds no object and whose totals are right, at any times, leaves the launcher's totals
-- equal to the sums over its live objects, if the bytes created stay below 2^64 altogether: the
-- tracker's ids are such that no creation meets a live object.
pub run-HasTotals :
    (hooks : Hooks) (slots : ℕ → ℕ → ℕ) (calls : List Call) (arrival : Arrival) (m : Model)
    → 1 + length calls < u64_mod
    → created_bytes (run hooks calls (empty_tracker slots)).sent < u64_mod
    → m.live ≡ []
    → HasTotals m
    → HasTotals (receive_all arrival 0 (run hooks calls (empty_tracker slots)).sent m)
unfolding sum_by find
run-HasTotals hooks slots calls arrival m few room empty v =
    receive_all-HasTotals arrival 0 (run hooks calls (empty_tracker slots)).sent (λ _. 0) 0 0 m
      (rw empty (record { known = λ id c e. cc; bytes = omega arith; few = omega arith })) v
      (λ id. omega (arith, ((run-IsOnce hooks slots calls few).0 id).1)) (omega arith)
      (omega (arith, run-sent hooks calls (empty_tracker slots)))
