-- ===== src/Model/Pairs/Drop.antt =====
-- The end of an ETW object keeps the binding a relation of pairs (OnEtwObjectDestroyed of
-- src/launcher/Model.cpp).
use dx12track.Prelude.{
  ℕ, ℤ, ◌≡◌, ◌≢◌, not, ◌&&◌, none, some, find, adjust, erase, arith, nonzero, ◌==◌, if◌then◌else◌,
  inl, inr, Option-cases, Bool-cases, option_both, if_both, Distinct, find-adjust, find-erase-some,
  erase-Distinct,
}
use dx12track.Model.State.{LiveObject, EtwObj, Model}
use dx12track.Model.Join.{find_etw, side_line, driver_agg}
use dx12track.Model.Sink.{unbind, forget, note_destroyed, drop_etw, on_etw_object_destroyed}
use dx12track.Model.Stays.{key_at, bound_at, address_at, bound_at-erase}
use dx12track.Model.Frame.Calls.{note_destroyed-Stays, unbind-Keeps}
use dx12track.Model.Pairs.{HasPairs, IsPaired-drop, Stays-HasPairs}
use dx12track.Model.Pairs.Bind.{bound_at_lem}
use dx12track.Model.Pairs.Calls.{find_etw-found}

module _ (key : ℕ) (e : EtwObj) (m : Model) (found : find key m.etw_objs ≡ some e)
    (v : HasPairs m) where
  unbound_keys :
      (j : ℕ)
      → key_at (unbind key e m).live j ≡ (
          if (bound_at m.etw_objs key == j) && (key_at m.live j == key) then 0 else key_at m.live j)
  unfolding unbind
  unbound_keys j =
      let f : LiveObject → LiveObject =
        λ o. if o.etw_key == key then record o { etw_key = 0 } else o in
      let bound = (bound_at_lem key e m found).0 in
      elim (Bool-cases (nonzero e.bound_id)) [
        | inl b ↦ elim (Option-cases (find j m.live)) [
          | inl gone ↦ rw b (ground (arith, find-adjust e.bound_id j f m.live, bound))
          | inr (o, held) ↦ rw b (ground (arith, find-adjust e.bound_id j f m.live, bound))
        ]
        | inr b ↦ rw b (ground (arith, v.paired.zero_key, bound))
      ]

  left_entry :
      (a k : ℕ)
      → find a (forget key e m).etw_by_addr ≡ some k
      → (find a m.etw_by_addr ≡ some k) × (k ≢ key)
  unfolding forget
  left_entry a k h =
      let address = (bound_at_lem key e m found).1 in
      elim (Option-cases (find e.address m.etw_by_addr)) [
        | inl gone ↦ ground (arith, address, v.paired.addressed a k)
        | inr (k', there) ↦ ground (
          arith,
          address,
          v.paired.addressed a k,
          find-erase-some e.address a k m.etw_by_addr v.paired.distinct,
        )
      ]

  left_Distinct : Distinct (forget key e m).etw_by_addr
  unfolding forget
  left_Distinct =
      if_both Distinct (nonzero e.address)
        (option_both Distinct (find e.address m.etw_by_addr) v.paired.distinct (λ k _.
          if_both Distinct (k == key) (erase-Distinct e.address m.etw_by_addr v.paired.distinct)
            v.paired.distinct))
        v.paired.distinct

  unbound_absent : find 0 (unbind key e m).live ≡ none
  unfolding unbind
  unbound_absent =
      let f : LiveObject → LiveObject =
        λ o. if o.etw_key == key then record o { etw_key = 0 } else o in
      if_both (λ x. find 0 x ≡ none) (nonzero e.bound_id) {x = adjust e.bound_id f m.live}
        (ground (arith, find-adjust e.bound_id 0 f m.live, v.absent)) v.absent

  dropped-HasPairs : HasPairs (drop_etw key e (forget key e (unbind key e m)))
  unfolding drop_etw driver_agg forget unbind
  dropped-HasPairs = record {
    paired =
        IsPaired-drop v.paired (key_at (unbind key e m).live) (bound_at (erase key m.etw_objs))
          (address_at (erase key m.etw_objs)) key (forget key e m).etw_by_addr unbound_keys
          (λ k. (bound_at-erase key k m.etw_objs v.distinct).0)
          (λ k. (bound_at-erase key k m.etw_objs v.distinct).1) left_entry left_Distinct;
    absent = unbound_absent;
    distinct = erase-Distinct key m.etw_objs v.distinct;
    keyed = rw ((unbind-Keeps key e m).retains.same_cores) v.keyed;
  }

noted_found :
    (ts : ℤ) (key : ℕ) (e : EtwObj) (m : Model)
    → find key m.etw_objs ≡ some e
    → find key (note_destroyed ts key e m).etw_objs ≡ some e
unfolding note_destroyed side_line
noted_found ts key e m found =
    if_both (λ (x : Model). find key x.etw_objs ≡ some e) (nonzero e.address) found found

pub on_etw_object_destroyed-HasPairs :
    (ts : ℤ) (lib_id : ℕ) (m : Model) → HasPairs m → HasPairs (on_etw_object_destroyed ts lib_id m)
unfolding on_etw_object_destroyed
on_etw_object_destroyed-HasPairs ts lib_id m v = if_both HasPairs (not m.etw_enabled) v (
    option_both HasPairs (find_etw lib_id m) v (λ (key, e) h.
      dropped-HasPairs key e (note_destroyed ts key e m)
        (noted_found ts key e m (find_etw-found lib_id key e m h))
        (Stays-HasPairs (note_destroyed-Stays ts key e m) v)))
