-- ===== src/CloudConfig/Layers.antt =====
-- config/cloud_layers.py: the layers of a cloud configuration, of the shape that `validate_layers` accepts, and
-- the configuration that a node gets of them. An exception is `none`.
use xiaozhi_desk_robot_serve.Prelude.{
  ℕ, String, Bool, true, false, not, ◌&&◌, ◌==◌, Option, none, some, str_eq, if◌then◌else◌,
}
use xiaozhi_desk_robot_serve.Dict.{Dict, lookup, has, put}
use xiaozhi_desk_robot_serve.CloudConfig.{
  Setting, scalar, object, Fields, empty, field, get_value, has_key, merge_fields, pop, alter,
}

pub record Node : Type 0 where
  pub environment : Option String
  pub role : Option String
  pub overrides : Fields

pub record Layers : Type 0 where
  pub schema_version : ℕ
  pub global : Fields
  pub environments : Dict Fields
  pub roles : Dict Fields
  pub nodes : Dict Node
  pub cluster : Option Fields

-- layers with the keys `defaults` and `overrides` (LEGACY_LAYERS), or with those of `Layers`
pub data CloudObject : Type 0 where
  flat : Fields → Fields → CloudObject
  central : Layers → CloudObject

-- the object of an entry loses its "cloud" where the override of the entry has a "file"
unfoldable pub forget_cloud : Fields → Fields → Fields
forget_cloud entry previous = if has_key "file" entry then pop "cloud" previous else previous

unfoldable pub forget_optimized : Option Setting → Fields → Fields
forget_optimized (some (object optimized)) previous =
    alter "optimized" (forget_cloud optimized) previous
forget_optimized (some (scalar x)) previous = previous
forget_optimized none previous = previous

-- one round of the loop over the entries
unfoldable pub forget_entry : Fields → Fields → Fields
forget_entry entry previous =
    forget_optimized (get_value "optimized" entry) (forget_cloud entry previous)

unfoldable pub forget_entries : Fields → Fields → Fields
forget_entries empty inherited = inherited
forget_entries (field phrase (scalar x) entries) inherited = forget_entries entries inherited
forget_entries (field phrase (object entry) entries) inherited =
    forget_entries entries (alter phrase (forget_entry entry) inherited)

-- what is done with the object under a key, where there is one
unfoldable pub with_object : (Fields → Fields → Fields) → Option Setting → Fields → Fields
with_object f none d = d
with_object f (some (scalar x)) d = d
with_object f (some (object e)) d = f e d

-- _without_inherited_asset_pointers
unfoldable pub without_pointers : Fields → Fields → Fields
without_pointers baseline overrides =
    with_object
      (λ narrower. alter "static_soundbank" (
        with_object (λ entries. alter "entries" (forget_entries entries))
          (get_value "entries" narrower)))
      (get_value "static_soundbank" overrides) baseline

-- merge_cloud_configs
unfoldable pub merge_cloud : Fields → Fields → Fields
merge_cloud baseline overrides = merge_fields (without_pointers baseline overrides) overrides

-- shared_cluster
unfoldable pub has_layer : Option Fields → Bool
has_layer none = false
has_layer (some d) = true

unfoldable pub shared_cluster : Layers → Bool
shared_cluster l = l.schema_version == 2 && has_layer l.cluster

-- set(d) == LEGACY_LAYERS
unfoldable pub only_legacy : Fields → Bool
only_legacy empty = true
only_legacy (field k v d) =
    if str_eq k "defaults" then only_legacy d else str_eq k "overrides" && only_legacy d

-- legacy_centralized
unfoldable pub legacy_centralized : Layers → Bool
legacy_centralized l =
    not (has_layer l.cluster)
    && has_key "defaults" l.global
    && has_key "overrides" l.global
    && only_legacy l.global

unfoldable pub frozen : Option Setting → Option Setting → Option Fields
frozen (some (object defaults)) (some (object overrides)) = some (merge_cloud defaults overrides)
frozen _ _ = none

-- a layer that has a name is merged
unfoldable pub merge_scope : Dict Fields → Option String → Option Fields → Option Fields
merge_scope scope name none = none
merge_scope scope none (some baseline) = some baseline
merge_scope scope (some name) (some baseline) = elim (lookup name scope) [
  | none ↦ none
  | some layer ↦ some (merge_cloud baseline layer)
]

unfoldable pub merge_cluster : Bool → Option Fields → Option Fields → Option Fields
merge_cluster true (some layer) (some baseline) = some (merge_cloud baseline layer)
merge_cluster _ _ baseline = baseline

-- the baseline below a node's overrides
unfoldable pub baseline_of : Fields → Layers → Node → Option Fields
baseline_of repo_defaults l node =
    let start =
      if legacy_centralized l
      then frozen (get_value "defaults" l.global) (get_value "overrides" l.global)
      else some (merge_cloud repo_defaults l.global) in
    merge_cluster (shared_cluster l) l.cluster
      (merge_scope l.roles node.role (merge_scope l.environments node.environment start))

unfoldable pub above : Fields → Option Fields → Option (Fields × Fields)
above overrides none = none
above overrides (some baseline) = some (without_pointers baseline overrides, overrides)

unfoldable pub resolve_node : Fields → Layers → Option Node → Option (Fields × Fields)
resolve_node repo_defaults l none = none
resolve_node repo_defaults l (some node) = above node.overrides (baseline_of repo_defaults l node)

-- resolve_layers
unfoldable pub resolve_layers : Fields → CloudObject → String → Option (Fields × Fields)
resolve_layers repo_defaults (flat defaults overrides) node_id =
    some (without_pointers defaults overrides, overrides)
resolve_layers repo_defaults (central l) node_id =
    resolve_node repo_defaults l (lookup node_id l.nodes)

unfoldable pub set_overrides : Fields → Layers → String → Option Node → Option CloudObject
set_overrides config l node_id none = none
set_overrides config l node_id (some node) =
    some (central (record l { nodes = put node_id (record node { overrides = config }) l.nodes }))

-- update_node_overrides
unfoldable pub update_node_overrides : CloudObject → String → Fields → Option CloudObject
update_node_overrides (flat defaults overrides) node_id config = some (flat defaults config)
update_node_overrides (central l) node_id config =
    set_overrides config l node_id (lookup node_id l.nodes)

-- update_settings_overrides
unfoldable pub update_settings_overrides : CloudObject → String → Fields → Option CloudObject
update_settings_overrides (flat defaults overrides) node_id config =
    update_node_overrides (flat defaults overrides) node_id config
update_settings_overrides (central l) node_id config =
    let alone = update_node_overrides (central l) node_id config in
    if shared_cluster l
    then (if has node_id l.nodes then some (central (record l { cluster = some config })) else none)
    else alone
