-- ===== src/Dll/Tracking.antt =====
-- Module tracking is started once at most, and what is registered is unregistered (src/dll/Modules.cpp).
use dx12track.Prelude.{
  ◌≡◌, Bool, true, false, not, ◌||◌, List, [], ◌∷◌, Option, none, some, if◌then◌else◌,
}
use dx12track.Wide.{Wide}
use dx12track.Dll.{Call, enumerate_modules, register_modules, unregister_modules, Globals}

-- The state of the tracking, as its calls tell it: whether the modules were listed, and whether a
-- notification is registered. A second listing or registration, a registration before the listing, or an
-- unregistration without a registration is not in order.
abbrev pub Tracked : Type 0
Tracked = Bool × Bool

abbrev note : Call → Tracked → Option Tracked
note enumerate_modules (listed, registered) = if listed then none else some (true, registered)
note register_modules (listed, registered) =
    if registered || not listed then none else some (listed, true)
note unregister_modules (listed, registered) = if registered then some (listed, false) else none
note _ t = some t

unfoldable pub tracked : List Call → Tracked → Option Tracked
tracked [] t = some t
tracked (c ∷ cs) t = elim (note c t) [ none ↦ none | some t' ↦ tracked cs t' ]

abbrev tracked_on : Option Tracked → List Call → Option Tracked
tracked_on o cs = elim o [ none ↦ none | some t ↦ tracked cs t ]

-- A registration needs a listing.
abbrev pub IsSane : Globals → Type 0
IsSane g = g.started ≡ false → g.has_cookie ≡ false

abbrev pub state_of : Globals → Tracked
state_of g = (g.started, g.has_cookie)

-- The calls lead from the state that some globals tell to the one that others tell.
abbrev pub KeepsTrack : Globals → Globals × List Call → Type 0
KeepsTrack g (g', calls) = IsSane g' × (tracked calls (state_of g) ≡ some (state_of g'))
