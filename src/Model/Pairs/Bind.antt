-- ===== src/Model/Pairs/Bind.antt =====
-- Bind and TryBindEtw of src/launcher/Model.cpp keep the binding a relation of pairs.
use dx12track.Prelude.{
  ℕ, ◌≡◌, ◌≢◌, refl, sym, ap, ◌∙◌, not, ◌&&◌, ◌||◌, none, some, find, arith, nonzero, ◌==◌,
  if◌then◌else◌, inl, inr, Bool-cases, option_both, if_both, if_cases, find-adjust, adjust-Distinct,
  Map, adjust, Distinct,
}
use mathlib.Core.Option
use dx12track.Model.State.{LiveObject, EtwObj, Model, Env, bindable}
use dx12track.Model.Join.{side_line, release_partner, link, bind_pair, bind}
use dx12track.Model.Attach.{live_match, dead_at, find_dead, try_bind_obj, try_bind}
use dx12track.Model.Stays.{
  key_at, bound_at, address_at, Stays-trans, bound_at-set, bound_at-clear, address_at-adjust,
}
use dx12track.Model.Core.{core, find-cores, Keeps-trans}
use dx12track.Model.Frame.{
  release_partner-Keeps, link-Keeps, recompute_loc-Stays, recompute_if_heap-Stays,
  note_driver_size-Stays,
}
use dx12track.Model.Frame.Sink.{match_late-Stays, await_object-Stays}
use dx12track.Model.Pairs.{HasPairs, IsPaired-bind, Stays-HasPairs}

pub key_at_lem :
    (id : ℕ) (o : LiveObject) (m : Model) → find id m.live ≡ some o → key_at m.live id ≡ o.etw_key
key_at_lem id o m e = rw (e, key_at) refl

pub bound_at_lem :
    (key : ℕ) (x : EtwObj) (m : Model)
    → find key m.etw_objs ≡ some x
    → (bound_at m.etw_objs key ≡ x.bound_id) × (address_at m.etw_objs key ≡ x.address)
bound_at_lem key x m e = (rw (e, bound_at) refl, rw (e, address_at) refl)

-- No tracked object has the id 0.
pub live-ne-zero :
    (id : ℕ) (o : LiveObject) (m : Model) → HasPairs m → find id m.live ≡ some o → id ≢ 0
live-ne-zero id o m v e z = cc (v.absent, e, z)

-- What Bind writes to the ETW objects, where `old` is the partner so far.
abbrev rebound : ℕ → ℕ → ℕ → Map EtwObj → Map EtwObj
rebound key id old objs =
    adjust key (λ x. record x { bound_id = id; pending_since_ms = 0 })
      (if nonzero old && not (old == key)
        then adjust old (λ x. record x { bound_id = 0 }) objs
        else objs)

module _ (key id old : ℕ) (x : EtwObj) (objs : Map EtwObj) (found : find key objs ≡ some x) where
  rebound-bounds :
      (k : ℕ)
      → bound_at (rebound key id old objs) k ≡ (
          if key == k
          then id
          else if nonzero old && not (old == key) && (old == k)
          then 0
          else bound_at objs k)
  rebound-bounds k =
      let f : EtwObj → EtwObj = λ y. record y { bound_id = id; pending_since_ms = 0 } in
      let g : EtwObj → EtwObj = λ y. record y { bound_id = 0 } in
      elim (Bool-cases (nonzero old && not (old == key))) [
        | inl c ↦ ground (
          arith,
          bound_at-set key f (adjust old g objs) x id (ground (arith, find-adjust old key g objs))
              (λ e. refl) k,
          bound_at-clear old g objs (λ e. refl) k,
        )
        | inr c ↦ ground (arith, bound_at-set key f objs x id found (λ e. refl) k)
      ]

  rebound-addresses : (k : ℕ) → address_at (rebound key id old objs) k ≡ address_at objs k
  rebound-addresses k =
      address_at-adjust key _ _ (λ e. refl) k
      ∙ if_both (λ z. address_at z k ≡ address_at objs k) (nonzero old && not (old == key))
          (address_at-adjust old _ objs (λ e. refl) k) refl

  rebound-Distinct : Distinct objs → Distinct (rebound key id old objs)
  rebound-Distinct d =
      adjust-Distinct key _ _
        (if_both Distinct (nonzero old && not (old == key)) (adjust-Distinct old _ objs d) d)

link-HasPairs :
    (key : ℕ) (x : EtwObj) (o : LiveObject) (ts : ℕ) (m : Model)
    → find key m.etw_objs ≡ some x
    → find o.id m.live ≡ some o
    → x.bound_id ≡ 0
    → x.address ≢ 0
    → HasPairs m
    → HasPairs (link key x o ts (release_partner key o m))
unfolding link side_line release_partner
link-HasPairs key x o ts m found held free known v =
    let f : LiveObject → LiveObject = λ y. record y { etw_key = key; own_loc = x.group } in
    let (bound, address) = bound_at_lem key x m found in
    record {
      paired =
          IsPaired-bind v.paired (key_at (adjust o.id f m.live))
            (bound_at (rebound key o.id o.etw_key m.etw_objs))
            (address_at (rebound key o.id o.etw_key m.etw_objs)) key o.id (bound ∙ free)
            (λ e. known (sym address ∙ e)) (λ j. ground (arith, find-adjust o.id j f m.live, held))
            (λ k.
              rw (key_at_lem o.id o m held)
                (rebound-bounds key o.id o.etw_key x m.etw_objs found k))
            (rebound-addresses key o.id o.etw_key x m.etw_objs found)
            (live-ne-zero o.id o m v held);
      absent = ground (arith, find-adjust o.id 0 f m.live, v.absent);
      distinct = rebound-Distinct key o.id o.etw_key x m.etw_objs found v.distinct;
      keyed =
          rw
            ((Keeps-trans (release_partner-Keeps key o m)
              (link-Keeps key x o ts (release_partner key o m))).retains.same_cores)
            v.keyed;
    }

bind_pair-HasPairs :
    (key : ℕ) (x : EtwObj) (o : LiveObject) (ts : ℕ) (m : Model)
    → find key m.etw_objs ≡ some x
    → find o.id m.live ≡ some o
    → x.bound_id ≡ 0
    → x.address ≢ 0
    → HasPairs m
    → HasPairs (bind_pair key x o ts m)
unfolding bind_pair
bind_pair-HasPairs key x o ts m found held free known v =
    Stays-HasPairs
      (Stays-trans (recompute_loc-Stays o.id ts _ _)
        (Stays-trans (recompute_if_heap-Stays o ts _) (note_driver_size-Stays x o ts _)))
      (link-HasPairs key x o ts m found held free known v)

-- An object stands at its own id.
pub held_pair :
    (id : ℕ) (o : LiveObject) (m : Model)
    → HasPairs m
    → find id m.live ≡ some o
    → find o.id m.live ≡ some o
held_pair id o m v e =
    let same : o.id ≡ id = v.keyed.1 id (core o) (find-cores id m.live ∙ ap (Option.map core) e) in
    ap (λ k. find k m.live) same ∙ e

-- Bind of an ETW object that is not bound and has an address.
pub bind-HasPairs :
    (key id ts : ℕ) (m : Model)
    → ((x : EtwObj) → find key m.etw_objs ≡ some x → (x.bound_id ≡ 0) × (x.address ≢ 0))
    → HasPairs m
    → HasPairs (bind key id ts m)
unfolding bind
bind-HasPairs key id ts m free v = option_both HasPairs (find key m.etw_objs) v (λ x found.
    option_both HasPairs (find id m.live) v (λ o held.
      bind_pair-HasPairs key x o ts m found (held_pair id o m v held) (free x found).0
        (free x found).1 v))

try_bind_obj-HasPairs :
    (env : Env) (key : ℕ) (e : EtwObj) (ts : ℕ) (m : Model)
    → find key m.etw_objs ≡ some e
    → HasPairs m
    → HasPairs (try_bind_obj env key e ts m)
unfolding try_bind_obj
try_bind_obj-HasPairs env key e ts m found v =
    if_cases HasPairs
      (nonzero e.bound_id
        || nonzero e.orphan_ts
        || not (nonzero e.address)
        || not (bindable e.type))
      (λ _. v)
      (λ open_.
        option_both HasPairs (live_match e m)
          (option_both HasPairs (find_dead e (dead_at e.address m))
            (Stays-HasPairs (await_object-Stays env key e m) v)
            (λ x _. Stays-HasPairs (match_late-Stays key e x ts m) v))
          (λ o _.
            bind-HasPairs key o.id ts m
              (λ x again.
                let same : e ≡ x = ap (λ y. elim y [ none ↦ e | some z ↦ z ]) (sym found ∙ again) in
                rw⁻¹ same (ground arith, ground arith))
              v))

pub try_bind-HasPairs :
    (env : Env) (key ts : ℕ) (m : Model) → HasPairs m → HasPairs (try_bind env key ts m)
unfolding try_bind
try_bind-HasPairs env key ts m v =
    option_both HasPairs (find key m.etw_objs) v
      (λ e found. try_bind_obj-HasPairs env key e ts m found v)
