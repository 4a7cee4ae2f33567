-- ===== src/CloudConfig/Examples.antt =====
-- The layers of a configuration at concrete values.
use mathlib.Core.Option.{map as option_map}
use xiaozhi_desk_robot_serve.Prelude.{String, ◌≡◌, refl, false, none, some, [], ◌∷◌, str_eq}
use xiaozhi_desk_robot_serve.Dict.{lookup, put}
use xiaozhi_desk_robot_serve.CloudConfig.{
  scalar, object, Fields, empty, field, merge, merge_fields, write, get_value, has_key, alter, pop,
}
use xiaozhi_desk_robot_serve.CloudConfig.Laws.{get_path, get_path-merge, WellFormed}
use xiaozhi_desk_robot_serve.CloudConfig.Layers.{
  Node, Layers, CloudObject, central, merge_cloud, without_pointers, with_object, forget_entries,
  forget_entry, forget_optimized, forget_cloud, resolve_layers, update_node_overrides,
  set_overrides,
}
use xiaozhi_desk_robot_serve.CloudConfig.Isolation.{own, update_node_overrides-isolated}

abbrev speech : Fields → Fields
speech settings = field "tts" (object settings) empty

abbrev default_speech : Fields
default_speech = speech (field "voice" (scalar "calm") (field "rate" (scalar "1") empty))

abbrev loud : Fields
loud = speech (field "voice" (scalar "loud") empty)

merge_run :
    merge_fields default_speech loud
    ≡ speech (field "voice" (scalar "loud") (field "rate" (scalar "1") empty))
unfolding merge_fields write
merge_run = refl

get_path-merge_example :
    get_path ("tts" ∷ "voice" ∷ []) (some (merge (object default_speech) (object loud)))
    ≡ some (scalar "loud")
unfolding get_path get_value WellFormed has_key
get_path-merge_example =
    get_path-merge ("tts" ∷ "voice" ∷ []) (object default_speech) (object loud) "loud"
      (refl, (refl, tt, tt), tt) refl

-- a phrase whose sound is replaced by a file loses its place in the cloud
abbrev phrase : Fields → Fields
phrase settings =
    field "static_soundbank"
      (object (field "entries" (object (field "hello" (object settings) empty)) empty)) empty

merge_cloud_run :
    merge_cloud
      (phrase (field "cloud" (scalar "id") (field "file" (scalar "a.wav") empty)))
      (phrase (field "file" (scalar "b.wav") empty))
    ≡ phrase (field "file" (scalar "b.wav") empty)
unfolding merge_cloud merge_fields write get_value has_key without_pointers with_object
    forget_entries forget_entry forget_optimized forget_cloud alter pop
merge_cloud_run = refl

abbrev bare_node : Node
bare_node = record { environment = none; role = some "core"; overrides = empty }

abbrev two_nodes : Layers
two_nodes = record {
  schema_version = 2;
  global = default_speech;
  environments = [];
  roles = ("core", empty) ∷ [];
  nodes = ("a", bare_node) ∷ ("b", bare_node) ∷ [];
  cluster = some empty;
}

abbrev loud_a : CloudObject
loud_a = central (record two_nodes {
  nodes =
      ("a", record { environment = none; role = some "core"; overrides = loud })
      ∷ ("b", bare_node)
      ∷ [];
})

update_node_overrides-isolated_example :
    (option_map own (resolve_layers empty loud_a "a")
      ≡ option_map (λ _. loud) (resolve_layers empty (central two_nodes) "a"))
    × ((j : String)
        → str_eq "a" j ≡ false
        → resolve_layers empty loud_a j ≡ resolve_layers empty (central two_nodes) j)
unfolding update_node_overrides set_overrides lookup put
update_node_overrides-isolated_example =
    update_node_overrides-isolated empty two_nodes "a" loud loud_a refl
