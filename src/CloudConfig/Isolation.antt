-- ===== src/CloudConfig/Isolation.antt =====
-- Which nodes see an update of a cloud configuration.
use mathlib.Core.Option.{map as option_map, some-injective}
use xiaozhi_desk_robot_serve.Prelude.{
  String, ◌≡◌, refl, subst, false, Option, none, some, str_eq, eq_refl, Option-cases, inl, inr,
}
use xiaozhi_desk_robot_serve.Dict.{lookup, put}
use xiaozhi_desk_robot_serve.Dict.Laws.{lookup-put}
use xiaozhi_desk_robot_serve.CloudConfig.{Fields}
use xiaozhi_desk_robot_serve.CloudConfig.Layers.{
  Node, Layers, CloudObject, central, above, baseline_of, resolve_node, resolve_layers,
  set_overrides, update_node_overrides, shared_cluster, legacy_centralized,
}

abbrev pub own : Fields × Fields → Fields
own (baseline, overrides) = overrides

own-above :
    (x y : Fields) (b : Option Fields)
    → option_map own (above x b) ≡ option_map (λ _. x) (above y b)
unfolding above
own-above x y none = refl
own-above x y (some b) = refl

abbrev updated : Layers → String → Node → Fields → CloudObject
updated l i node config =
    central (record l { nodes = put i (record node { overrides = config }) l.nodes })

updated-own :
    (repo_defaults : Fields) (l : Layers) (i : String) (node : Node) (config : Fields)
    → lookup i l.nodes ≡ some node
    → option_map own (resolve_layers repo_defaults (updated l i node config) i)
      ≡ option_map (λ _. config) (resolve_layers repo_defaults (central l) i)
unfolding resolve_layers resolve_node baseline_of shared_cluster legacy_centralized
updated-own repo_defaults l i node config found =
    rw (lookup-put i i (record node { overrides = config }) l.nodes) (
      rw (eq_refl i)
        (rw found (own-above config node.overrides (baseline_of repo_defaults l node))))

updated-others :
    (repo_defaults : Fields) (l : Layers) (i : String) (node : Node) (config : Fields) (j : String)
    → str_eq i j ≡ false
    → resolve_layers repo_defaults (updated l i node config) j
      ≡ resolve_layers repo_defaults (central l) j
unfolding resolve_layers resolve_node baseline_of shared_cluster legacy_centralized
updated-others repo_defaults l i node config j other =
    rw (lookup-put i j (record node { overrides = config }) l.nodes)
      (rw other (same (lookup j l.nodes)))
  where
    same :
        (found : Option Node)
        → resolve_node repo_defaults
            (record l { nodes = put i (record node { overrides = config }) l.nodes })
            found
          ≡ resolve_node repo_defaults l found
    same none = refl
    same (some n) = refl

-- If new overrides of one node of a central configuration are accepted, that node resolves where it did
-- before, with the new overrides as its own; each other node resolves exactly as before.
pub update_node_overrides-isolated :
    (repo_defaults : Fields) (l : Layers) (i : String) (config : Fields) (o : CloudObject)
    → update_node_overrides (central l) i config ≡ some o
    → (option_map own (resolve_layers repo_defaults o i)
        ≡ option_map (λ _. config) (resolve_layers repo_defaults (central l) i))
      × ((j : String)
          → str_eq i j ≡ false
          → resolve_layers repo_defaults o j ≡ resolve_layers repo_defaults (central l) j)
unfolding update_node_overrides set_overrides
update_node_overrides-isolated repo_defaults l i config o h =
    elim (Option-cases (lookup i l.nodes)) [
      | inl missing ↦ (let clash : none ≡ some o = rw missing at h in cc)
      | inr (node, found) ↦
          let new : some (updated l i node config) ≡ some o = rw found at h in
          subst
            (λ o.
              (option_map own (resolve_layers repo_defaults o i)
                ≡ option_map (λ _. config) (resolve_layers repo_defaults (central l) i))
              × ((j : String)
                  → str_eq i j ≡ false
                  → resolve_layers repo_defaults o j ≡ resolve_layers repo_defaults (central l) j))
            (some-injective _ _ new)
            (
              updated-own repo_defaults l i node config found,
              updated-others repo_defaults l i node config,
            )
    ]
