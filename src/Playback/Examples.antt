-- ===== src/Playback/Examples.antt =====
-- Packets of core/cluster/tts_playback.py, one of them late.
use xiaozhi_desk_robot_serve.Prelude.{true, false, List, [], ◌∷◌}
use xiaozhi_desk_robot_serve.Playback.{Encoded}

abbrev encoded : List Encoded
encoded =
    (true, 1, 0, 7 ∷ [])
    ∷ (true, 2, 0, 7 ∷ [])
    ∷ (true, 3, 0, 7 ∷ [])
    ∷ (true, 4, 0, 7 ∷ [])
    ∷ (true, 5, 0, 7 ∷ [])
    ∷ (true, 6, 0, 7 ∷ [])
    ∷ (true, 200, 0, 7 ∷ [])
    ∷ (false, 210, 0, 7 ∷ [])
    ∷ []
