-- ===== src/Memory/Render.antt =====
-- How ExplicitMemory shows its entries: to the user, and within a budget of characters to the language
-- model.
use Prim.Native.String.{◌++◌, count}
use mathlib.Core.List.{reverse}
use xiaozhi_desk_robot_serve.Text.Words.{join, strip_end, take_chars}
use xiaozhi_desk_robot_serve.Prelude.{
  ℕ, ◌+◌, ◌-◌, String, not, ◌&&◌, Option, none, some, List, [], ◌∷◌, if◌then◌else◌, ltb, ◌==◌,
  str_eq,
}
use xiaozhi_desk_robot_serve.Text.{is_space}
use xiaozhi_desk_robot_serve.Memory.Entries.{Entry}

unfoldable pub project_part : Option String → List String
project_part none = []
project_part (some s) = if str_eq s "" then [] else ("project=" ++ s) ∷ []

-- _render_entry
unfoldable pub render_entry : Entry → String
unfolding project_part
render_entry e =
    "["
    ++ join "; " (("id=" ++ e.id) ∷ ("type=" ++ e.type) ∷ project_part e.project)
    ++ "] "
    ++ e.content

-- list_entries
unfoldable pub render_active : List Entry → List String
render_active [] = []
render_active (e ∷ es) =
    let rest = render_active es in
    if e.active && not (str_eq e.content "") then render_entry e ∷ rest else rest

unfoldable pub list_entries : List Entry → List String
list_entries es = render_active (reverse es)

-- the rounds of the loop after the first: a line that is over the budget ends it
unfoldable pub more_lines : ℕ → ℕ → List Entry → List String
more_lines max_chars used [] = []
more_lines max_chars used (e ∷ es) =
    let line = "- " ++ render_entry e in
    let used' = used + (count line + 1) in
    let rest = line ∷ more_lines max_chars used' es in if ltb max_chars used' then [] else rest

-- the first line is cut to the budget
unfoldable pub first_line : ℕ → Entry → String
first_line max_chars e =
    let line = "- " ++ render_entry e in
    if ltb max_chars (count line) then strip_end is_space (take_chars max_chars line) else line

unfoldable pub render_lines : ℕ → List Entry → List String
render_lines max_chars [] = []
render_lines max_chars (e ∷ es) =
    let line = first_line max_chars e in line ∷ more_lines max_chars (count line) es

-- _render_entries
unfoldable pub render_entries : ℕ → List Entry → String
render_entries max_chars es = if max_chars == 0 then "" else join "\n" (render_lines max_chars es)

-- a section of what `recall` returns, empty if it has no lines
unfoldable pub section : String → ℕ → List Entry → String
section heading max_chars es =
    let rendered = render_entries (max_chars - count heading - 1) es in
    if str_eq rendered "" then "" else heading ++ "\n" ++ rendered
