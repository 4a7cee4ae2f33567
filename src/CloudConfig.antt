-- ===== src/CloudConfig.antt =====
-- config/config_loader.py (merge_configs) and config/cloud_layers.py: the configuration of a node, from
-- layers. A scalar or a list is a text, since the code compares neither.
mod Layers
mod Laws
mod Isolation
mod Examples
use xiaozhi_desk_robot_serve.Prelude.{
  String, Bool, true, false, Option, none, some, str_eq, if◌then◌else◌,
}

mutual
  pub data Setting : Type 0 where
    scalar : String → Setting
    object : Fields → Setting

  pub data Fields : Type 0 where
    empty : Fields
    field : String → Setting → Fields → Fields

-- d.get(k)
unfoldable pub get_value : String → Fields → Option Setting
get_value k empty = none
get_value k (field j v d) = if str_eq j k then some v else get_value k d

-- `k in d`
unfoldable pub has_key : String → Fields → Bool
has_key k empty = false
has_key k (field j v d) = if str_eq j k then true else has_key k d

-- the value at `k` is replaced by `join` of it, or a value is written to a new key
unfoldable pub write : String → (Setting → Setting) → Setting → Fields → Fields
write k join v empty = field k v empty
write k join v (field j w d) =
    let rest = write k join v d in if str_eq j k then field j (join w) d else field j w rest

-- merge_configs
unfoldable mutual
  unfolding write

  pub merge : Setting → Setting → Setting
  merge d (scalar x) = scalar x
  merge (scalar x) (object c) = object c
  merge (object d) (object c) = object (merge_fields d c)

  pub merge_fields : Fields → Fields → Fields
  merge_fields d empty = d
  merge_fields d (field k v c) = merge_fields (write k (λ w. merge w v) v d) c

-- d.pop(k, None)
unfoldable pub pop : String → Fields → Fields
pop k empty = empty
pop k (field j v d) = let rest = pop k d in if str_eq j k then rest else field j v rest

-- an object at `k` is changed in place
unfoldable pub alter : String → (Fields → Fields) → Fields → Fields
alter k f empty = empty
alter k f (field j (scalar x) d) = field j (scalar x) (alter k f d)
alter k f (field j (object e) d) =
    let rest = alter k f d in
    if str_eq j k then field j (object (f e)) d else field j (object e) rest
