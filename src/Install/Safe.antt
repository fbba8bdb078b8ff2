-- ===== src/Install/Safe.antt =====
-- The originals of src/dll/Hooks.cpp are never the hooks, as long as the set of vtables has room.
use dx12track.Prelude.{
  ℕ, ◌+◌, ◌≤◌, ◌≡◌, refl, true, false, List, [], ◌∷◌, ◌++◌, Option, none, some, contains, length,
  length-append, ltb, if◌then◌else◌, Bool-cases, inl, inr, arith,
}
use dx12track.Install.{
  Code, Install, Handed, max_patched, already_patched, hook_slot, device_slots, hook_slots,
  patch_device_vtable, patch_factory, patch_config, patch, patch_all, nothing_patched,
}
use dx12track.Install.Patching.{
  IsForeign, NeverSelf, missing, contains-snoc, missing-snoc_lt, IsPatching, MayForeign,
  hook_slot-IsPatching, hook_slots-IsPatching, device_slots-apart, indices,
}

module _ (code : Code) (vts : List ℕ) where
  -- Between two calls: the set has room for the vtables to come, and these hold no hook.
  record IsReady (s : Install) : Type 0 where
    safe : NeverSelf code s
    room : length s.patched + missing vts s.patched ≤ max_patched
    fresh : (v : ℕ) → contains v s.patched ≡ false → (i : ℕ) → IsForeign code (s.memory v i)

  -- What AlreadyPatched leaves for a vtable that is new to it.
  abbrev IsEntered : ℕ → Install → Type 0
  IsEntered vt s =
      (p : List ℕ) × (length p + missing vts p ≤ max_patched)
      × (contains vt p ≡ true)
      × ((todo : List ℕ) → IsPatching code p vt todo s)

  patched-IsReady :
      (p : List ℕ) (vt : ℕ) (todo : List ℕ) (s : Install)
      → length p + missing vts p ≤ max_patched
      → IsPatching code p vt todo s
      → IsReady s
  patched-IsReady p vt todo s room g = record {
    safe = g.safe;
    room = rw g.same room;
    fresh = λ v n. g.others v (rw⁻¹ g.same n);
  }

  already_patched-IsEntered :
      (vt : ℕ) (s : Install)
      → contains vt vts ≡ true
      → contains vt s.patched ≡ false
      → IsReady s
      → (already_patched vt s ≡ (false, record s { patched = s.patched ++ vt ∷ [] }))
        × IsEntered vt (record s { patched = s.patched ++ vt ∷ [] })
  unfolding already_patched
  already_patched-IsEntered vt s member new r =
      let fewer : missing vts (s.patched ++ vt ∷ []) + 1 ≤ missing vts s.patched =
        missing-snoc_lt vt vts s.patched member new in
      let fits : ltb (length s.patched) max_patched ≡ true = ground (arith, r.room) in
      (
        rw (new, fits) refl,
        (
          s.patched ++ vt ∷ [],
          omega (arith, length-append s.patched (vt ∷ []), r.room),
          ground (arith, contains-snoc vt vt s.patched),
          λ todo. record {
            same = refl;
            safe = record {
              device = r.safe.device;
              factory = r.safe.factory;
              config = r.safe.config;
            };
            others = λ v n. r.fresh v (ground (arith, contains-snoc v vt s.patched));
            left = λ i t. r.fresh vt new i;
          },
        ),
      )

  -- What each of the three hooks does with the answer of AlreadyPatched.
  unless_known-IsReady :
      (vt : ℕ) (f : Install → Install) (s : Install)
      → contains vt vts ≡ true
      → IsReady s
      → ((s' : Install) → IsEntered vt s' → IsReady (f s'))
      → IsReady (
          if (already_patched vt s).0 then (already_patched vt s).1 else f (already_patched vt s).1)
  unfolding already_patched
  unless_known-IsReady vt f s member r then_ready = elim (Bool-cases (contains vt s.patched)) [
    | inl e ↦ let eq : already_patched vt s ≡ (true, s) = rw (e, already_patched) refl in rw eq r
    | inr e ↦
        let (eq, entered) = already_patched-IsEntered vt s member e r in
        rw eq (then_ready _ entered)
  ]

  patch_device_vtable-IsReady :
      (vt : ℕ) (version : Option ℕ) (s : Install)
      → contains vt vts ≡ true
      → IsReady s
      → IsReady (patch_device_vtable code vt version s)
  unfolding patch_device_vtable
  patch_device_vtable-IsReady vt none s member r =
      unless_known-IsReady vt (λ s'. s') s member r
        (λ s' (p, room, into, g). patched-IsReady p vt [] s' room (g []))
  patch_device_vtable-IsReady vt (some v) s member r =
      unless_known-IsReady vt (hook_slots code vt v device_slots) s member r
        (λ s' (p, room, into, g). patched-IsReady p vt [] _ room (
          hook_slots-IsPatching code p vt v device_slots s' into (device_slots-apart code)
            (g (indices code device_slots))))

  updated-IsPatching :
      (p : List ℕ) (vt : ℕ) (update : ℕ → Install → Install)
      → ((f : ℕ) (s : Install)
          → IsForeign code f
          → IsPatching code p vt [] s
          → IsPatching code p vt [] (update f s))
      → (prev : Option ℕ) (s : Install) → IsPatching code p vt [] s
      → MayForeign code prev
      → IsPatching code p vt [] (elim prev [ none ↦ s | some f ↦ update f s ])
  updated-IsPatching p vt update keeps none s g m = g
  updated-IsPatching p vt update keeps (some f) s g m = keeps f s m g

  -- A vtable of which one slot is patched.
  one_slot-IsReady :
      (vt index h : ℕ) (update : ℕ → Install → Install) (s' : Install)
      → ((p : List ℕ) (f : ℕ) (s : Install)
          → IsForeign code f
          → IsPatching code p vt [] s
          → IsPatching code p vt [] (update f s))
      → IsEntered vt s'
      → IsReady (elim (hook_slot code vt index h s').1 [
        | none ↦ (hook_slot code vt index h s').0
        | some f ↦ update f (hook_slot code vt index h s').0
      ])
  unfolding contains
  one_slot-IsReady vt index h update s' keeps e =
      let (p, room, into, g) = e in
      let (g', m) = hook_slot-IsPatching code p vt index h [] s' into refl (g (index ∷ [])) in
      patched-IsReady p vt [] _ room
        (updated-IsPatching p vt update (keeps p) (hook_slot code vt index h s').1 _ g' m)

  patch_factory-IsReady :
      (vt : ℕ) (s : Install)
      → contains vt vts ≡ true
      → IsReady s
      → IsReady (patch_factory code vt s)
  unfolding patch_factory
  patch_factory-IsReady vt s member r = unless_known-IsReady vt _ s member r (λ s'.
      one_slot-IsReady vt 9 code.factory_hook (λ f t. record t { factory_original = f }) s'
        (λ p f t foreign g. record {
          same = g.same;
          safe = record { device = g.safe.device; factory = foreign; config = g.safe.config };
          others = g.others;
          left = g.left;
        }))

  patch_config-IsReady :
      (vt : ℕ) (s : Install) → contains vt vts ≡ true → IsReady s → IsReady (patch_config code vt s)
  unfolding patch_config
  patch_config-IsReady vt s member r = unless_known-IsReady vt _ s member r (λ s'.
      one_slot-IsReady vt 4 code.config_hook (λ f t. record t { config_original = f }) s'
        (λ p f t foreign g. record {
          same = g.same;
          safe = record { device = g.safe.device; factory = g.safe.factory; config = foreign };
          others = g.others;
          left = g.left;
        }))

  abbrev pub AreAmong : List Handed → Type 0
  AreAmong [] = Unit
  AreAmong (Handed.device vt version ∷ hs) = (contains vt vts ≡ true) × AreAmong hs
  AreAmong (Handed.factory vt ∷ hs) = (contains vt vts ≡ true) × AreAmong hs
  AreAmong (Handed.config vt ∷ hs) = (contains vt vts ≡ true) × AreAmong hs

  patch_all-IsReady :
      (hs : List Handed) (s : Install) → AreAmong hs → IsReady s → IsReady (patch_all code hs s)
  unfolding patch_all patch
  patch_all-IsReady [] s a r = r
  patch_all-IsReady (Handed.device vt version ∷ hs) s a r =
      patch_all-IsReady hs _ a.1 (patch_device_vtable-IsReady vt version s a.0 r)
  patch_all-IsReady (Handed.factory vt ∷ hs) s a r =
      patch_all-IsReady hs _ a.1 (patch_factory-IsReady vt s a.0 r)
  patch_all-IsReady (Handed.config vt ∷ hs) s a r =
      patch_all-IsReady hs _ a.1 (patch_config-IsReady vt s a.0 r)

missing_le : (vs xs : List ℕ) → missing vs xs ≤ length vs
unfolding missing
missing_le [] xs = omega arith
missing_le (v ∷ vs) xs = ground (arith, missing_le vs xs)

-- Whatever devices, factories and configurations the application is handed, and whichever slots stay
-- protected: if their vtables are among eight, and neither 0 nor any function in the vtables' memory at
-- first is one of the hooks, then no original that the hooks call is a hook.
pub patch_all-NeverSelf :
    (code : Code) (memory : ℕ → ℕ → ℕ) (vts : List ℕ) (hs : List Handed)
    → length vts ≤ 8
    → AreAmong code vts hs
    → IsForeign code 0
    → ((v i : ℕ) → IsForeign code (memory v i))
    → NeverSelf code (patch_all code hs (nothing_patched memory))
unfolding contains
patch_all-NeverSelf code memory vts hs few among null foreign =
    (patch_all-IsReady code vts hs (nothing_patched memory) among (record {
      safe = record { device = λ i. null; factory = null; config = null };
      room = omega (arith, missing_le vts []);
      fresh = λ v n i. foreign v i;
    })).safe
