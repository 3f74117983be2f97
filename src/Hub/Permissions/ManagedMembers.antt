-- ===== src/Hub/Permissions/ManagedMembers.antt =====
-- The members of a preset of components/idthw_hub/features/permissions/lib/permissionPreset.ts, with
-- the requirements of managed access.
use id_jag_the_hard_way.Base.{◌≡◌, Option, none, some, List, [], ◌∷◌, nat_eq, ◌++◌}
use id_jag_the_hard_way.Base.Ensures.{Ensures}
use id_jag_the_hard_way.Base.Text.{Text, text_eq}
use id_jag_the_hard_way.Hub.Permissions.Resolving.{
  PermissionRequirement, PermissionPresetGroup, PermissionPreset,
}

-- Each group is still there, with what it had and more.
abbrev pub Extends : (before after : List PermissionPresetGroup) → Type 0
Extends [] gs = Unit
Extends (g ∷ gs) [] = ⊥
Extends (g ∷ gs) (k ∷ ks) =
    ((k.tool_name ≡ g.tool_name)
      × ((added : List PermissionRequirement) × (k.requirements ≡ g.requirements ++ added)))
    × Extends gs ks

abbrev pub ExtendsPreset : PermissionPreset → Option PermissionPreset → Type 0
ExtendsPreset preset none = ⊥
ExtendsPreset preset (some after) = Extends preset.groups after.groups
