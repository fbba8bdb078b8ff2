-- ===== src/Tracker/Ids.antt =====
-- The ids and the events of src/dll/Tracker.cpp over any sequence of calls.
use dx12track.Prelude.{
  ℕ, ◌+◌, ◌≤◌, ◌<◌, ◌≡◌, refl, List, [], ◌∷◌, ◌++◌, some, find, put, erase, Map, Distinct, length,
  arith, ◌==◌, if◌then◌else◌, u64_mod, find-put, find-put-all, put-Distinct, erase-Distinct,
  find-erase-some, lists_eq, if_both, option_both, add64_exact,
}
use dx12track.Events.{CreatedPayload, RenamedPayload, DestroyedPayload}
use dx12track.Tracker.{
  ObjectInfo, Hooks, Tracker, Emitted, Call, registers, releases, names, created, renamed,
  destroyed, emit_created, emit_renamed, emit_destroyed, created_payload, patch_new,
  patch_vtable_if_new, register, on_release_to_zero, on_set_name, lookup_id, empty_tracker, step,
  run,
}

abbrev pub created_now : ℕ → Emitted → ℕ
created_now id (created p) = if p.id == id then 1 else 0
created_now id (renamed p) = 0
created_now id (destroyed p) = 0

abbrev pub destroyed_now : ℕ → Emitted → ℕ
destroyed_now id (created p) = 0
destroyed_now id (renamed p) = 0
destroyed_now id (destroyed p) = if p.id == id then 1 else 0

-- How often an id is created and destroyed in a list of events.
abbrev pub count_created : ℕ → List Emitted → ℕ
count_created id [] = 0
count_created id (e ∷ es) = created_now id e + count_created id es

abbrev pub count_destroyed : ℕ → List Emitted → ℕ
count_destroyed id [] = 0
count_destroyed id (e ∷ es) = destroyed_now id e + count_destroyed id es

count_created-emit :
    (id : ℕ) (es : List Emitted) (e : Emitted)
    → count_created id (es ++ e ∷ []) ≡ count_created id es + created_now id e
count_created-emit id [] e = omega arith
count_created-emit id (x ∷ es) e = omega (arith, count_created-emit id es e)

count_destroyed-emit :
    (id : ℕ) (es : List Emitted) (e : Emitted)
    → count_destroyed id (es ++ e ∷ []) ≡ count_destroyed id es + destroyed_now id e
count_destroyed-emit id [] e = omega arith
count_destroyed-emit id (x ∷ es) e = omega (arith, count_destroyed-emit id es e)

-- Below `next` every id is created once; no id is destroyed twice, a tracked one not at all, and no
-- two tracked objects share one.
pub record IdsHold (next : ℕ) (objects : Map ObjectInfo) (sent : List Emitted) : Type 0 where
  pub positive : 1 ≤ next
  pub once : (id : ℕ) → 1 ≤ id → id < next → count_created id sent ≡ 1
  pub zeroth : count_created 0 sent ≡ 0
  pub later : (id : ℕ) → next ≤ id → count_created id sent ≡ 0
  pub ended : (id : ℕ) → count_destroyed id sent ≤ count_created id sent
  pub tracked :
      (obj : ℕ) (o : ObjectInfo)
      → find obj objects ≡ some o
      → (1 ≤ o.id) × (o.id < next) × (count_destroyed o.id sent ≡ 0)
  pub apart :
      (obj obj' : ℕ) (o o' : ObjectInfo)
      → find obj objects ≡ some o
      → find obj' objects ≡ some o'
      → o.id ≡ o'.id
      → obj ≡ obj'
  pub distinct : Distinct objects

abbrev pub HasIds : Tracker → Type 0
HasIds t = IdsHold t.next_id t.objects t.sent

pub empty_tracker-HasIds : (slots : ℕ → ℕ → ℕ) → HasIds (empty_tracker slots)
unfolding find
empty_tracker-HasIds slots = record {
  positive = omega arith;
  once = λ id h g. omega arith;
  zeroth = refl;
  later = λ id h. refl;
  ended = λ id. omega arith;
  tracked = λ obj o e. cc;
  apart = λ obj obj' o o' e e' h. cc;
  distinct = tt;
}

module _ (next : ℕ) (objects : Map ObjectInfo) (sent : List Emitted) (h : IdsHold next objects sent)
    (obj : ℕ) where
  -- A new object takes the next id, whether or not its pointer is tracked.
  take_id :
      (o : ObjectInfo) (p : CreatedPayload)
      → o.id ≡ next
      → p.id ≡ next
      → IdsHold (next + 1) (put obj o objects) (sent ++ created p ∷ [])
  take_id o p e e' = record {
    positive = omega arith;
    once =
        λ id g g'. ground (arith, count_created-emit id sent (created p), h.once id g, h.later id);
    zeroth = ground (arith, count_created-emit 0 sent (created p), h.zeroth, h.positive);
    later = λ id g. ground (arith, count_created-emit id sent (created p), h.later id);
    ended = λ id. ground (
      arith,
      count_created-emit id sent (created p),
      count_destroyed-emit id sent (created p),
      h.ended id,
    );
    tracked =
        find-put-all
          (λ x.
            (1 ≤ x.id) × (x.id < next + 1) × (count_destroyed x.id (sent ++ created p ∷ []) ≡ 0))
          obj o objects
          (
            omega (arith, h.positive),
            omega arith,
            omega (arith, count_destroyed-emit o.id sent (created p), h.ended o.id, h.later o.id),
          )
          (λ j x f.
            let (g₁, g₂, g₃) = h.tracked j x f in
            (g₁, omega arith, omega (arith, count_destroyed-emit x.id sent (created p))));
    apart = λ j k x y f g same. ground (
      arith,
      find-put obj j o objects,
      find-put obj k o objects,
      h.apart j k x y,
      h.tracked j x,
      h.tracked k y,
    );
    distinct = put-Distinct obj o objects h.distinct;
  }

  -- A tracked object ends.
  end_id :
      (o : ObjectInfo) (p : DestroyedPayload)
      → find obj objects ≡ some o
      → p.id ≡ o.id
      → IdsHold next (erase obj objects) (sent ++ destroyed p ∷ [])
  end_id o p f e = record {
    positive = h.positive;
    once = λ id g g'. ground (arith, count_created-emit id sent (destroyed p), h.once id g);
    zeroth = ground (arith, count_created-emit 0 sent (destroyed p), h.zeroth);
    later = λ id g. ground (arith, count_created-emit id sent (destroyed p), h.later id);
    ended = λ id.
        let (g₁, g₂, g₃) = h.tracked obj o f in
        ground (
          arith,
          count_created-emit id sent (destroyed p),
          count_destroyed-emit id sent (destroyed p),
          h.ended id,
          h.once o.id g₁ g₂,
        );
    tracked = λ j x g.
        let (ne, g') = find-erase-some obj j x objects h.distinct g in
        let (g₁, g₂, g₃) = h.tracked j x g' in
        (
          g₁,
          g₂,
          ground (arith, count_destroyed-emit x.id sent (destroyed p), h.apart obj j o x f g'),
        );
    apart = λ j k x y g g' same.
        let (_, e₁) = find-erase-some obj j x objects h.distinct g in
        let (_, e₂) = find-erase-some obj k y objects h.distinct g' in h.apart j k x y e₁ e₂ same;
    distinct = erase-Distinct obj objects h.distinct;
  }

  -- A tracked object keeps its id.
  keep_id :
      (o o' : ObjectInfo) (p : RenamedPayload)
      → find obj objects ≡ some o
      → o'.id ≡ o.id
      → IdsHold next (put obj o' objects) (sent ++ renamed p ∷ [])
  keep_id o o' p f e = record {
    positive = h.positive;
    once = λ id g g'. ground (arith, count_created-emit id sent (renamed p), h.once id g);
    zeroth = ground (arith, count_created-emit 0 sent (renamed p), h.zeroth);
    later = λ id g. ground (arith, count_created-emit id sent (renamed p), h.later id);
    ended = λ id. ground (
      arith,
      count_created-emit id sent (renamed p),
      count_destroyed-emit id sent (renamed p),
      h.ended id,
    );
    tracked =
        find-put-all
          (λ x. (1 ≤ x.id) × (x.id < next) × (count_destroyed x.id (sent ++ renamed p ∷ []) ≡ 0))
          obj o' objects
          (let (g₁, g₂, g₃) = h.tracked obj o f in
            rw e (g₁, g₂, omega (arith, count_destroyed-emit o.id sent (renamed p))))
          (λ j x f.
            let (g₁, g₂, g₃) = h.tracked j x f in
            (g₁, g₂, omega (arith, count_destroyed-emit x.id sent (renamed p))));
    apart = λ j k x y g g' same. ground (
      arith,
      find-put obj j o' objects,
      find-put obj k o' objects,
      h.apart j k x y,
      h.apart obj k o y f,
      h.apart j obj x o,
    );
    distinct = put-Distinct obj o' objects h.distinct;
  }

-- The calls of the hooks keep `HasIds`, as long as the counter does not wrap.
patched-HasIds :
    (hooks : Hooks) (obj : ℕ) (t : Tracker) → HasIds t → HasIds (patch_vtable_if_new hooks obj t)
unfolding patch_vtable_if_new patch_new
patched-HasIds hooks obj t h =
    if_both HasIds (obj == 0) h
      (option_both HasIds (find (hooks.vtable_of obj) t.vtable_patches) h (λ _ _. h))

patched-next :
    (hooks : Hooks) (obj : ℕ) (t : Tracker) → (patch_vtable_if_new hooks obj t).next_id ≡ t.next_id
unfolding patch_vtable_if_new patch_new
patched-next hooks obj t = ground arith

pub register-HasIds :
    (hooks : Hooks) (obj : ℕ) (info : ObjectInfo) (t : Tracker)
    → t.next_id + 1 < u64_mod
    → HasIds t
    → HasIds (register hooks obj info t)
unfolding register emit_created created_payload
register-HasIds hooks obj info t g h =
    let patched = patch_vtable_if_new hooks obj t in
    if_both HasIds (obj == 0) h (
      rw (add64_exact patched.next_id 1 (omega (arith, patched-next hooks obj t))) (
        take_id patched.next_id patched.objects patched.sent (patched-HasIds hooks obj t h) obj _ _
          refl refl))

pub on_release_to_zero-HasIds :
    (obj : ℕ) (t : Tracker) → HasIds t → HasIds (on_release_to_zero obj t)
unfolding on_release_to_zero emit_destroyed
on_release_to_zero-HasIds obj t h =
    option_both HasIds (find obj t.objects) h
      (λ o e. end_id t.next_id t.objects t.sent h obj o _ e refl)

pub on_set_name-HasIds :
    (obj : ℕ) (name : List ℕ) (t : Tracker) → HasIds t → HasIds (on_set_name obj name t)
unfolding on_set_name emit_renamed
on_set_name-HasIds obj name t h = option_both HasIds (find obj t.objects) h (λ o e.
    if_both HasIds (lists_eq o.name name) h (keep_id t.next_id t.objects t.sent h obj o _ _ e refl))

step-HasIds :
    (hooks : Hooks) (c : Call) (t : Tracker)
    → t.next_id + 1 < u64_mod
    → HasIds t
    → HasIds (step hooks c t)
unfolding step
step-HasIds hooks (registers obj info) t g h = register-HasIds hooks obj info t g h
step-HasIds hooks (releases obj) t g h = on_release_to_zero-HasIds obj t h
step-HasIds hooks (names obj name) t g h = on_set_name-HasIds obj name t h

step-next :
    (hooks : Hooks) (c : Call) (t : Tracker)
    → t.next_id + 1 < u64_mod
    → (step hooks c t).next_id ≤ t.next_id + 1
unfolding step register on_release_to_zero on_set_name emit_created emit_renamed emit_destroyed
step-next hooks (registers obj info) t g =
    ground (arith, patched-next hooks obj t, add64_exact t.next_id 1)
step-next hooks (releases obj) t g = ground arith
step-next hooks (names obj name) t g = ground arith

pub run-HasIds :
    (hooks : Hooks) (calls : List Call) (t : Tracker)
    → t.next_id + length calls < u64_mod
    → HasIds t
    → HasIds (run hooks calls t)
unfolding run
run-HasIds hooks [] t g h = h
run-HasIds hooks (c ∷ cs) t g h =
    run-HasIds hooks cs (step hooks c t) (omega (arith, step-next hooks c t (omega arith)))
      (step-HasIds hooks c t (omega arith) h)

-- No id is created twice, an id is destroyed at most as often as it is created, and the id that
-- LookupId answers for a tracked object is created and not destroyed.
abbrev pub IsOnce : Tracker → Type 0
IsOnce t =
    ((id : ℕ)
      → (count_destroyed id t.sent ≤ count_created id t.sent) × (count_created id t.sent ≤ 1))
    × ((obj : ℕ) (o : ObjectInfo)
        → find obj t.objects ≡ some o
        → (lookup_id obj t ≡ o.id)
          × (count_created (lookup_id obj t) t.sent ≡ 1)
          × (count_destroyed (lookup_id obj t) t.sent ≡ 0))

HasIds-IsOnce : (t : Tracker) → HasIds t → IsOnce t
unfolding lookup_id
HasIds-IsOnce t h = (
  λ id. (h.ended id, ground (arith, h.once id, h.zeroth, h.later id)),
  λ obj o e.
      let (g₁, g₂, g₃) = h.tracked obj o e in rw (e, lookup_id) (refl, h.once o.id g₁ g₂, g₃),
)

-- Over any fewer than 2^64 - 1 calls on an empty tracker, no id is created twice, an id is destroyed
-- at most as often as it is created, and the id of a tracked object is created and not destroyed.
pub run-IsOnce :
    (hooks : Hooks) (slots : ℕ → ℕ → ℕ) (calls : List Call)
    → 1 + length calls < u64_mod
    → IsOnce (run hooks calls (empty_tracker slots))
run-IsOnce hooks slots calls g =
    HasIds-IsOnce (run hooks calls (empty_tracker slots))
      (run-HasIds hooks calls (empty_tracker slots) g (empty_tracker-HasIds slots))
