-- ===== src/Install/Patching.antt =====
-- Patching the slots of one vtable, and the set of vtables (src/dll/Hooks.cpp).
use dx12track.Prelude.{
  ℕ, ◌+◌, ◌≤◌, ◌≡◌, ◌≢◌, refl, sym, Bool, true, false, List, [], ◌∷◌, ◌++◌, Option, none, some,
  contains, leb, ◌==◌, if◌then◌else◌, if_both, Bool-cases, inl, inr, arith,
}
use dx12track.Install.{
  Slot, Code, Install, store, hook_slot, hook_device_slot, device_slots, hook_slots,
}

-- A function that is none of the hooks.
pub record IsForeign (code : Code) (f : ℕ) : Type 0 where
  pub device : (i : ℕ) → f ≢ code.hook_of i
  pub factory : f ≢ code.factory_hook
  pub config : f ≢ code.config_hook

-- No hook would call itself.
pub record NeverSelf (code : Code) (s : Install) : Type 0 where
  pub device : (i : ℕ) → IsForeign code (s.originals i)
  pub factory : IsForeign code s.factory_original
  pub config : IsForeign code s.config_original

-- How many of some vtables are not in the set.
unfoldable pub missing : List ℕ → List ℕ → ℕ
missing [] patched = 0
missing (v ∷ vs) patched = (if contains v patched then 0 else 1) + missing vs patched

pub contains-snoc :
    (x v : ℕ) (xs : List ℕ) → contains x (xs ++ v ∷ []) ≡ (if contains x xs then true else v == x)
unfolding contains
contains-snoc x v [] = ground arith
contains-snoc x v (y ∷ xs) = ground (arith, contains-snoc x v xs)

missing-snoc_le : (v : ℕ) (vs xs : List ℕ) → missing vs (xs ++ v ∷ []) ≤ missing vs xs
unfolding missing
missing-snoc_le v [] xs = omega arith
missing-snoc_le v (w ∷ vs) xs = ground (arith, contains-snoc w v xs, missing-snoc_le v vs xs)

pub missing-snoc_lt :
    (v : ℕ) (vs xs : List ℕ)
    → contains v vs ≡ true
    → contains v xs ≡ false
    → missing vs (xs ++ v ∷ []) + 1 ≤ missing vs xs
unfolding missing contains
missing-snoc_lt v [] xs h n = ground arith
missing-snoc_lt v (w ∷ vs) xs h n = elim (Bool-cases (w == v)) [
  | inl e ↦ ground (arith, contains-snoc w v xs, missing-snoc_le v vs xs)
  | inr e ↦ ground (arith, contains-snoc w v xs, missing-snoc_lt v vs xs)
]

module _ (code : Code) where
  -- While the slots of a vtable that is in the set are patched: those still to do hold no hook, and
  -- neither does a vtable outside the set.
  pub record IsPatching (p : List ℕ) (vt : ℕ) (todo : List ℕ) (s : Install) : Type 0 where
    pub same : s.patched ≡ p
    pub safe : NeverSelf code s
    pub others : (v : ℕ) → contains v p ≡ false → (i : ℕ) → IsForeign code (s.memory v i)
    pub left : (i : ℕ) → contains i todo ≡ true → IsForeign code (s.memory vt i)

  store_other : (vt index h v i : ℕ) (m : ℕ → ℕ → ℕ) → v ≢ vt → store vt index h m v i ≡ m v i
  unfolding store
  store_other vt index h v i m n = ground arith

  store_later : (vt index h i : ℕ) (m : ℕ → ℕ → ℕ) → i ≢ index → store vt index h m vt i ≡ m vt i
  unfolding store
  store_later vt index h i m n = ground arith

  -- A member and a stranger differ.
  pub contains-ne : (v w : ℕ) (xs : List ℕ) → contains v xs ≡ false → contains w xs ≡ true → v ≢ w
  contains-ne v w xs n y e = ground (arith, e)

  -- What PatchSlot writes to `out_prev`, if anything.
  abbrev pub MayForeign : Option ℕ → Type 0
  MayForeign none = Unit
  MayForeign (some f) = IsForeign code f

  pub hook_slot-IsPatching :
      (p : List ℕ) (vt index h : ℕ) (todo : List ℕ) (s : Install)
      → contains vt p ≡ true
      → contains index todo ≡ false
      → IsPatching p vt (index ∷ todo) s
      → IsPatching p vt todo (hook_slot code vt index h s).0
        × MayForeign (hook_slot code vt index h s).1
  unfolding hook_slot contains
  hook_slot-IsPatching p vt index h todo s into new g =
      let here : contains index (index ∷ todo) ≡ true = ground arith in
      let later : (i : ℕ) → contains i todo ≡ true → contains i (index ∷ todo) ≡ true =
        λ i t. ground arith in
      if_both (λ (r : Install × Option ℕ). IsPatching p vt todo r.0 × MayForeign r.1)
        (code.writable vt index)
        (
          record {
            same = g.same;
            safe = record {
              device = g.safe.device;
              factory = g.safe.factory;
              config = g.safe.config;
            };
            others = λ v n i.
                rw (store_other vt index h v i s.memory (contains-ne v vt p n into))
                  (g.others v n i);
            left = λ i t.
                rw (store_later vt index h i s.memory (λ e. contains-ne index i todo new t (sym e)))
                  (g.left i (later i t));
          },
          g.left index here,
        )
        (
          record {
            same = g.same;
            safe = g.safe;
            others = g.others;
            left = λ i t. g.left i (later i t);
          },
          tt,
        )

  original-IsPatching :
      (p : List ℕ) (vt index : ℕ) (todo : List ℕ) (s : Install) (prev : Option ℕ)
      → IsPatching p vt todo s
      → MayForeign prev
      → IsPatching p vt todo (elim prev [
        | none ↦ s
        | some f ↦ record s { originals = λ i. if i == index then f else s.originals i }
      ])
  original-IsPatching p vt index todo s none g m = g
  original-IsPatching p vt index todo s (some f) g m = record {
    same = g.same;
    safe = record {
      device = λ i. if_both (IsForeign code) (i == index) m (g.safe.device i);
      factory = g.safe.factory;
      config = g.safe.config;
    };
    others = g.others;
    left = g.left;
  }

  hook_device_slot-IsPatching :
      (p : List ℕ) (vt index : ℕ) (todo : List ℕ) (s : Install)
      → contains vt p ≡ true
      → contains index todo ≡ false
      → IsPatching p vt (index ∷ todo) s
      → IsPatching p vt todo (hook_device_slot code vt index s)
  unfolding hook_device_slot
  hook_device_slot-IsPatching p vt index todo s into new g =
      let (g', m) = hook_slot-IsPatching p vt index (code.hook_of index) todo s into new g in
      original-IsPatching p vt index todo _ (hook_slot code vt index (code.hook_of index) s).1 g' m

  abbrev pub indices : List Slot → List ℕ
  indices [] = []
  indices (k ∷ ks) = k.index ∷ indices ks

  abbrev pub are_apart : List ℕ → Bool
  are_apart [] = true
  are_apart (i ∷ is) = if contains i is then false else are_apart is

  pub hook_slots-IsPatching :
      (p : List ℕ) (vt version : ℕ) (ks : List Slot) (s : Install)
      → contains vt p ≡ true
      → are_apart (indices ks) ≡ true
      → IsPatching p vt (indices ks) s
      → IsPatching p vt [] (hook_slots code vt version ks s)
  unfolding hook_slots contains
  hook_slots-IsPatching p vt version [] s into apart g = g
  hook_slots-IsPatching p vt version (k ∷ ks) s into apart g =
      let new : contains k.index (indices ks) ≡ false = ground arith in
      let rest : are_apart (indices ks) ≡ true = ground arith in
      hook_slots-IsPatching p vt version ks _ into rest (
        if_both (IsPatching p vt (indices ks)) (leb k.version version)
          (hook_device_slot-IsPatching p vt k.index (indices ks) s into new g)
          (record {
            same = g.same;
            safe = g.safe;
            others = g.others;
            left = λ i t. g.left i (if_both (λ (b : Bool). b ≡ true) (k.index == i) refl t);
          }))

  pub device_slots-apart : are_apart (indices device_slots) ≡ true
  unfolding contains
  device_slots-apart = refl
