-- ===== src/LogBuffer/Examples.antt =====
-- Runs of core/utils/ui_log_buffer.py on a buffer with two entries.
use xiaozhi_desk_robot_serve.Prelude.{
  ◌<◌, ◌≡◌, ◌≢◌, ◌↔◌, refl, true, false, some, List, [], ◌∷◌, ◌++◌, arith, map,
}
use xiaozhi_desk_robot_serve.Prelude.Int.{pos}
use xiaozhi_desk_robot_serve.LogBuffer.{
  Origin, LogBuffer, init, truncate_utf8, new_entry, append_line, clear_source, append,
  append_lines, trim, trim_loop, over, without_source, first_sequence, after_of, limit_of,
  last_sequence, newer, publish, is_reset, select, snapshot,
}
use xiaozhi_desk_robot_serve.LogBuffer.Invariant.{
  Inv, init-Inv, Call, append_call, clear_call, run, run-Inv,
}
use xiaozhi_desk_robot_serve.LogBuffer.Paging.{snapshot_pages}

abbrev origin : Origin
origin = record { timestamp = "10:00"; source = "server"; level = "INFO"; tag = "app" }

abbrev calls : List Call
calls = append_call origin ("one" ∷ "two" ∷ []) ∷ clear_call "device" ∷ []

abbrev two_lines : LogBuffer
two_lines = run calls init

two_lines-Inv : Inv two_lines
two_lines-Inv = run-Inv calls init init-Inv

run-Inv_example : Inv two_lines
run-Inv_example = run-Inv calls init init-Inv

cursor_pos : 0 < after_of (some (pos 1))
cursor_pos = omega arith

cursor_live : is_reset (after_of (some (pos 1))) two_lines.entries ≡ false
unfolding is_reset run init first_sequence clear_source append append_lines append_line trim
    trim_loop over new_entry truncate_utf8 without_source
cursor_live = refl

snapshot_pages_example :
    let page = select (after_of (some (pos 1))) (limit_of (some (pos 1))) two_lines.entries in
    let rest = newer (last_sequence (after_of (some (pos 1))) page) two_lines.entries in
    let s = snapshot (some (pos 1)) (some (pos 1)) two_lines in
    (s.entries ≡ map publish page)
    × (newer (after_of (some (pos 1))) two_lines.entries ≡ page ++ rest)
    × ((s.has_more ≡ true) ↔ (rest ≢ []))
snapshot_pages_example =
    snapshot_pages (some (pos 1)) (some (pos 1)) two_lines two_lines-Inv cursor_pos cursor_live
