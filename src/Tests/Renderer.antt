-- ===== src/Tests/Renderer.antt =====
-- The renderer at concrete inputs (src/launcher/Renderer.cpp).
use dx12track.Prelude.{[], ◌∷◌, pos, negsuc}
use dx12track.Renderer.Screen.{Screen, cleared, IsPut, put, put-IsPut}

abbrev small_screen : Screen
small_screen = record { cols = 4; rows = 2; buffer = cleared 7 }

-- The text begins left of the screen.
put-IsPut_example :
    IsPut
      (negsuc 0)
      (pos 1)
      (97 ∷ 98 ∷ 99 ∷ [])
      12
      small_screen
      (put (negsuc 0) (pos 1) (97 ∷ 98 ∷ 99 ∷ []) 12 small_screen)
put-IsPut_example = put-IsPut (negsuc 0) (pos 1) (97 ∷ 98 ∷ 99 ∷ []) 12 small_screen
