-- ===== src/Model/Pairs/Leave.antt =====
-- A dying object leaves the join (src/launcher/Model.cpp, EtwOnDestroyed).
use dx12track.Prelude.{
  ℕ, ◌≡◌, ◌≢◌, refl, sym, ap, ◌∙◌, false, none, some, Map, find, adjust, arith, nonzero, ◌&&◌, ◌==◌,
  if◌then◌else◌, inl, inr, Option-cases, Bool-cases, if_both, Distinct, find-adjust,
  adjust-Distinct,
}
use dx12track.Events.{ObjectType, is_object_type}
use dx12track.Model.State.{LiveObject, EtwObj, Model}
use dx12track.Model.Join.{add_loc}
use dx12track.Model.Attach.{
  or_one, leave_address, leave_partner, leave_parent, leave_children, children_of, etw_on_destroyed,
}
use dx12track.Model.Stays.{key_at, bound_at, address_at, address_at-adjust, Stays-trans}
use dx12track.Model.Frame.{add_loc-Stays}
use dx12track.Model.Frame.Attach.{leave_address-Stays, leave_partner-Keeps, fall_back_each-Stays}
use dx12track.Model.Pairs.{HasPairs, IsPaired-leave, Stays-HasPairs, HasPairs-move}
use dx12track.Model.Pairs.Bind.{key_at_lem}

-- The partner of a dying object is let go, if it points back.
cleared_bounds :
    (old id ts : ℕ) (objs : Map EtwObj)
    → (old ≢ 0 → bound_at objs old ≡ id)
    → old ≢ 0
    → (k : ℕ)
    → bound_at
        (adjust old
          (λ e. if e.bound_id == id then record e { bound_id = 0; orphan_ts = or_one ts } else e)
          objs)
        k
      ≡ (if old == k then 0 else bound_at objs k)
cleared_bounds old id ts objs back ne k = elim (Option-cases (find k objs)) [
  | inl e ↦ ground (
    arith,
    find-adjust old k
        (λ (e : EtwObj).
          if e.bound_id == id then record e { bound_id = 0; orphan_ts = or_one ts } else e)
        objs,
  )
  | inr (x, e) ↦ ground (
    arith,
    find-adjust old k
        (λ (e : EtwObj).
          if e.bound_id == id then record e { bound_id = 0; orphan_ts = or_one ts } else e)
        objs,
    back,
  )
]

leave_partner-by_addr :
    (o : LiveObject) (ts : ℕ) (m : Model) → (leave_partner o ts m).etw_by_addr ≡ m.etw_by_addr
unfolding leave_partner
leave_partner-by_addr o ts m = refl

module _ (o : LiveObject) (ts : ℕ) (m : Model) (held : find o.id m.live ≡ some o) where
  left_keys :
      (j : ℕ) → key_at (leave_partner o ts m).live j ≡ (if o.id == j then 0 else key_at m.live j)
  unfolding leave_partner
  left_keys j = elim (Bool-cases (nonzero o.etw_key)) [
    | inl e ↦ rw e (
        ground
          (arith, find-adjust o.id j (λ (x : LiveObject). record x { etw_key = 0 }) m.live, held))
    | inr e ↦ rw e (ground (arith, held))
  ]

  left_bounds :
      (o.etw_key ≢ 0 → bound_at m.etw_objs o.etw_key ≡ o.id)
      → (k : ℕ)
      → bound_at (leave_partner o ts m).etw_objs k
        ≡ (if nonzero o.etw_key && (o.etw_key == k) then 0 else bound_at m.etw_objs k)
  unfolding leave_partner
  left_bounds back k = elim (Bool-cases (nonzero o.etw_key)) [
    | inl e ↦ rw e (cleared_bounds o.etw_key o.id ts m.etw_objs back (ground arith) k)
    | inr e ↦ rw e refl
  ]

  left_addresses : (k : ℕ) → address_at (leave_partner o ts m).etw_objs k ≡ address_at m.etw_objs k
  unfolding leave_partner
  left_addresses k =
      if_both (λ x. address_at x k ≡ address_at m.etw_objs k) (nonzero o.etw_key)
        (address_at-adjust o.etw_key _ m.etw_objs
          (λ e. if_both (λ (x : EtwObj). x.address ≡ e.address) (e.bound_id == o.id) refl refl) k)
        refl

  left_rest :
      find 0 m.live ≡ none
      → Distinct m.etw_objs
      → (find 0 (leave_partner o ts m).live ≡ none) × Distinct (leave_partner o ts m).etw_objs
  unfolding leave_partner
  left_rest absent apart = (
    if_both (λ x. find 0 x ≡ none) (nonzero o.etw_key)
        {x = adjust o.id (λ x. record x { etw_key = 0 }) m.live}
        (ground (arith, find-adjust o.id 0 (λ (x : LiveObject). record x { etw_key = 0 }) m.live))
        absent,
    if_both Distinct (nonzero o.etw_key) (adjust-Distinct o.etw_key _ m.etw_objs apart) apart,
  )

  leave_partner-HasPairs : HasPairs m → HasPairs (leave_partner o ts m)
  leave_partner-HasPairs v =
      let key = key_at_lem o.id o m held in
      let back : o.etw_key ≢ 0 → bound_at m.etw_objs o.etw_key ≡ o.id =
        λ ne. ap (bound_at m.etw_objs) (sym key) ∙ v.paired.agrees o.id (λ z. ne (sym key ∙ z)) in
      let (absent, apart) = left_rest v.absent v.distinct in
      record {
        paired = rw (leave_partner-by_addr o ts m) (
            IsPaired-leave v.paired (key_at (leave_partner o ts m).live)
              (bound_at (leave_partner o ts m).etw_objs)
              (address_at (leave_partner o ts m).etw_objs) o.id left_keys
              (λ k. rw key (left_bounds back k)) left_addresses);
        absent = absent;
        distinct = apart;
        keyed = rw ((leave_partner-Keeps o ts m).retains.same_cores) v.keyed;
      }

pub etw_on_destroyed-HasPairs :
    (o : LiveObject) (ts : ℕ) (m : Model)
    → find o.id m.live ≡ some o
    → HasPairs m
    → HasPairs (etw_on_destroyed o ts m)
unfolding etw_on_destroyed leave_children leave_parent leave_address add_loc
etw_on_destroyed-HasPairs o ts m held v =
    let addressed : HasPairs (leave_address o ts (add_loc o false m)) =
      Stays-HasPairs (Stays-trans (add_loc-Stays o false m) (leave_address-Stays o ts _)) v in
    let left : HasPairs
        (leave_parent o (leave_partner o ts (leave_address o ts (add_loc o false m)))) =
      HasPairs-move refl refl refl
        (leave_partner-HasPairs o ts (leave_address o ts (add_loc o false m)) held addressed) in
    if_both HasPairs (is_object_type o.type ObjectType.heap)
      (Stays-HasPairs (fall_back_each-Stays (children_of o.id _) ts _)
        (HasPairs-move refl refl refl left))
      left
