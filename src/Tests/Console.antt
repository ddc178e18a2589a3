-- ===== src/Tests/Console.antt =====
-- Two characters on an empty screen, the second at the end of the last row.
use eg_gs.Base.{◌≡◌, [], ◌∷◌, arith}
use eg_gs.Screen.{Screen, putch, puts}
use eg_gs.Screen.Bounds.{OnScreen, putch_outside}
use eg_gs.Screen.Terminal.{Same, view, type_text, puts_refines}

abbrev corner : Screen
corner = record { mem = λ _. 0x0F20; attrib = 0x0F; csr_x = 78; csr_y = 24; ports = [] }

corner-OnScreen : OnScreen corner
corner-OnScreen = record { column = omega arith; row = omega arith }

puts_refines_example :
    Same (view (puts corner (0x41 ∷ 0x42 ∷ []))) (type_text 0x0F (view corner) (0x41 ∷ 0x42 ∷ []))
    × OnScreen (puts corner (0x41 ∷ 0x42 ∷ []))
puts_refines_example = puts_refines corner (0x41 ∷ 0x42 ∷ []) corner-OnScreen

putch_outside_example : (putch corner 0x0A).mem 2000 ≡ 0x0F20
putch_outside_example = putch_outside corner 0x0A 2000 corner-OnScreen (omega arith)
