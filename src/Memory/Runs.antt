-- ===== src/Memory/Runs.antt =====
-- A memory through any calls.
use xiaozhi_desk_robot_serve.Prelude.{◌<◌, String, Bool, List, [], ◌∷◌}
use xiaozhi_desk_robot_serve.Memory.Entries.{Entry, Metadata}
use xiaozhi_desk_robot_serve.Memory.Store.{Settings, remember, forget, update_entry, delete_entry}
use xiaozhi_desk_robot_serve.Memory.Kept.{IsKept}
use xiaozhi_desk_robot_serve.Memory.Remembers.{remember-IsKept}
use xiaozhi_desk_robot_serve.Memory.Changes.{
  forget-IsKept, update_entry-IsKept, delete_entry-IsKept,
}

pub data Call : Type 0 where
  remember_call : String → Metadata → Call
  forget_call : String → Call
  update_call : String → String → Metadata → Call
  delete_call : String → Call

unfoldable pub step : Settings → String → String → Bool → Call → List Entry → List Entry
step s now new_id saves (remember_call content m) es = (remember s now new_id saves content m es).0
step s now new_id saves (forget_call query) es = (forget s now new_id saves query es).0
step s now new_id saves (update_call i content m) es =
    (update_entry s now new_id saves i content m es).0
step s now new_id saves (delete_call i) es = (delete_entry saves i es).0

-- each call with its time, its new identifier, and whether the file can be written
unfoldable pub run : Settings → List (String × String × Bool × Call) → List Entry → List Entry
run s [] es = es
run s ((now, new_id, saves, c) ∷ cs) es = run s cs (step s now new_id saves c es)

step-IsKept :
    (s : Settings) (now new_id : String)
    → 0 < s.entry_max_chars
    → (saves : Bool) (c : Call) (es : List Entry) → IsKept s es
    → IsKept s (step s now new_id saves c es)
unfolding step
step-IsKept s now new_id p saves (remember_call content m) es h =
    remember-IsKept s now new_id p saves content m es h
step-IsKept s now new_id p saves (forget_call query) es h =
    forget-IsKept s now new_id p saves query es h
step-IsKept s now new_id p saves (update_call i content m) es h =
    update_entry-IsKept s now new_id p saves i content m es h
step-IsKept s now new_id p saves (delete_call i) es h =
    delete_entry-IsKept s now new_id p saves i es h

-- Whatever calls a device makes, whether they fail and whether the file can be written, there are
-- at most `max_entries` entries, and each has a content that starts with a character other than
-- white space and an importance from 1 to 5, if it was so before and contents may have a character at all.
pub run-IsKept :
    (s : Settings) (cs : List (String × String × Bool × Call)) (es : List Entry)
    → 0 < s.entry_max_chars
    → IsKept s es
    → IsKept s (run s cs es)
unfolding run
run-IsKept s [] es p h = h
run-IsKept s ((now, new_id, saves, c) ∷ cs) es p h =
    run-IsKept s cs (step s now new_id saves c es) p (step-IsKept s now new_id p saves c es h)
