-- ===== src/Model/Pairs/Calls.antt =====
-- The calls of the ETW consumer keep the binding a relation of pairs (src/launcher/Model.cpp).
use dx12track.Prelude.{
  ℕ, ℤ, ◌≡◌, ◌≢◌, refl, sym, ap, ◌∙◌, true, false, [], ◌∷◌, ◌++◌, not, ◌||◌, none, some, find, put,
  adjust, erase, arith, nonzero, inl, inr, Option-cases, option_both, if_both, if_cases, find-put,
  put-Distinct, erase-Distinct, adjust-Distinct,
}
use dx12track.Etw.{ObjType, Group}
use dx12track.Model.State.{EtwObj, Model, Env, inc}
use dx12track.Model.Join.{with_etw, find_etw, driver_agg}
use dx12track.Model.Session.{conv_ts}
use dx12track.Model.Sink.{
  new_etw_obj, emplace, on_etw_object_created, re_reported, current, merge_size, merge_group,
  fold_into, merge, take_address, on_etw_object_address,
}
use dx12track.Model.Stays.{
  key_at, bound_at, address_at, Stays, Stays-trans, bound_at-adjust, address_at-set, bound_at-erase,
  adjust-SameObjs,
}
use dx12track.Model.Frame.{side_line-Stays}
use dx12track.Model.Frame.Sink.{with_etw-Stays, driver_agg-Stays}
use dx12track.Model.Frame.Calls.{merge_size-Stays, merge_group-Stays}
use dx12track.Model.Pairs.{HasPairs, IsPaired-same, IsPaired-address, Stays-HasPairs, HasPairs-move}
use dx12track.Model.Pairs.Bind.{bound_at_lem, try_bind-HasPairs}

-- An ETW object without an address is not bound, so its entry can come or go.
emplace-HasPairs :
    (key : ℕ) (e : EtwObj) (m : Model)
    → e.bound_id ≡ 0
    → e.address ≡ 0
    → HasPairs m
    → HasPairs (emplace key e m)
unfolding emplace
emplace-HasPairs key e m free unknown v = elim (Option-cases (find key m.etw_objs)) [
  | inl absent ↦ rw absent (record {
    paired =
        IsPaired-same v.paired (key_at m.live) (bound_at (put key e m.etw_objs))
          (address_at (put key e m.etw_objs)) (λ j. refl)
          (λ k. ground (arith, find-put key k e m.etw_objs))
          (λ k. ground (arith, find-put key k e m.etw_objs));
    absent = v.absent;
    distinct = put-Distinct key e m.etw_objs v.distinct;
    keyed = v.keyed;
  })
  | inr (x, present) ↦ rw present (HasPairs-move refl refl refl v)
]

pub on_etw_object_created-HasPairs :
    (ts : ℤ) (lib_id : ℕ) (type : ObjType) (size : ℕ) (group : Group) (m : Model)
    → HasPairs m
    → HasPairs (on_etw_object_created ts lib_id type size group m)
unfolding on_etw_object_created new_etw_obj
on_etw_object_created-HasPairs ts lib_id type size group m v =
    let e = new_etw_obj type size group (conv_ts ts m) in
    if_both HasPairs
      (not m.etw_enabled || elim (find lib_id m.etw_alias) [ none ↦ false | some _ ↦ true ]) v
      (HasPairs-move refl refl refl
        (emplace-HasPairs lib_id e _ refl refl (Stays-HasPairs (driver_agg-Stays e true m) v)))

fold_into-HasPairs :
    (key into : ℕ) (e : EtwObj) (m : Model)
    → address_at m.etw_objs key ≡ 0
    → HasPairs m
    → HasPairs (fold_into key into e m)
unfolding fold_into driver_agg
fold_into-HasPairs key into e m unknown v =
    let erased : (k : ℕ)
        → (bound_at (erase key m.etw_objs) k ≡ bound_at m.etw_objs k)
          × (address_at (erase key m.etw_objs) k ≡ address_at m.etw_objs k) =
      λ k.
        let (a, b) = bound_at-erase key k m.etw_objs v.distinct in
        let free = v.paired.unaddressed key unknown in (ground arith, ground arith) in
    let same =
      adjust-SameObjs into (λ x. record x { aliases = x.aliases ++ key ∷ [] })
        (erase key m.etw_objs) (λ x. (refl, refl)) in
    record {
      paired =
          IsPaired-same v.paired (key_at m.live)
            (bound_at (
              adjust into (λ x. record x { aliases = x.aliases ++ key ∷ [] })
                (erase key m.etw_objs)))
            (address_at (
              adjust into (λ x. record x { aliases = x.aliases ++ key ∷ [] })
                (erase key m.etw_objs)))
            (λ j. refl) (λ k. same.bounds k ∙ (erased k).0) (λ k. same.addresses k ∙ (erased k).1);
      absent = v.absent;
      distinct = same.distinct (erase-Distinct key m.etw_objs v.distinct);
      keyed = v.keyed;
    }

take_address-HasPairs :
    (env : Env) (key : ℕ) (e : EtwObj) (address : ℕ) (m : Model)
    → find key m.etw_objs ≡ some e
    → address ≢ 0
    → e.address ≡ 0
    → HasPairs m
    → HasPairs (take_address env key e address m)
unfolding take_address
take_address-HasPairs env key e address m found ne unknown v =
    try_bind-HasPairs env key e.created_ts _ (
      Stays-HasPairs (side_line-Stays _ _) (record {
        paired =
            IsPaired-address v.paired (key_at m.live)
              (bound_at (adjust key (λ x. record x { address = address }) m.etw_objs))
              (address_at (adjust key (λ x. record x { address = address }) m.etw_objs)) key address
              ne ((bound_at_lem key e m found).1 ∙ unknown) (λ j. refl)
              (bound_at-adjust key (λ x. record x { address = address }) m.etw_objs (λ x. refl))
              (address_at-set key (λ x. record x { address = address }) m.etw_objs e address found
                (λ x. refl));
        absent = v.absent;
        distinct = adjust-Distinct key _ m.etw_objs v.distinct;
        keyed = v.keyed;
      }))

pub find_etw-found :
    (lib_id key : ℕ) (e : EtwObj) (m : Model)
    → find_etw lib_id m ≡ some (key, e)
    → find key m.etw_objs ≡ some e
unfolding find_etw
find_etw-found lib_id key e m h = elim (Option-cases (find lib_id m.etw_alias)) [
  | inl none_there ↦ absurd (ground arith)
  | inr (k, there) ↦ elim (Option-cases (find k m.etw_objs)) [
    | inl gone ↦ absurd (ground arith)
    | inr (x, found) ↦
        let step : find_etw lib_id m ≡ some (k, x) =
          rw (there, find_etw) (rw (found, find_etw) refl) in
        let same : Path (ℕ × EtwObj) (k, x) (key, e) =
          ap (λ y. elim y [ none ↦ (key, e) | some p ↦ p ]) (sym step ∙ h) in
        ap (λ p. find (p.0) m.etw_objs) (sym same)
        ∙ (found ∙ ap (λ (p : ℕ × EtwObj). some (p.1)) same)
  ]
]

merge-HasPairs :
    (env : Env) (key : ℕ) (e : EtwObj) (into : ℕ) (old : EtwObj) (m : Model)
    → address_at m.etw_objs key ≡ 0
    → HasPairs m
    → HasPairs (merge env key e into old m)
unfolding merge
merge-HasPairs env key e into old m unknown v =
    let counted = with_etw (λ s. record s { rundown_duplicates = inc s.rundown_duplicates }) m in
    let sized = merge_size into e old counted in
    let stays : Stays m (merge_group into e (current into old sized) sized) =
      Stays-trans
        (with_etw-Stays (λ s. record s { rundown_duplicates = inc s.rundown_duplicates }) m)
        (Stays-trans (merge_size-Stays into e old counted) (merge_group-Stays into e _ sized)) in
    try_bind-HasPairs env into e.created_ts _ (
      fold_into-HasPairs key into e _ (stays.objs.addresses key ∙ unknown) (Stays-HasPairs stays v))

pub on_etw_object_address-HasPairs :
    (env : Env) (lib_id address : ℕ) (m : Model)
    → HasPairs m
    → HasPairs (on_etw_object_address env lib_id address m)
unfolding on_etw_object_address
on_etw_object_address-HasPairs env lib_id address m v =
    if_cases HasPairs (not m.etw_enabled || not (nonzero address)) (λ _. v)
      (λ on. option_both HasPairs (find_etw lib_id m) v (λ (key, e) h.
        let found = find_etw-found lib_id key e m h in
        if_cases HasPairs (nonzero e.address) (λ _. v)
          (λ unknown.
            option_both HasPairs (re_reported key e address m)
              (take_address-HasPairs env key e address m found (ground arith) (ground arith) v)
              (λ (into, old) _.
                merge-HasPairs env key e into old m ((bound_at_lem key e m found).1 ∙ ground arith)
                  v))))
