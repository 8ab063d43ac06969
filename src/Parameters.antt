-- ===== src/Parameters.antt =====
-- src/libmanifest/mappingparameters.c and what it calls of src/libinfrastructure/target.c and
-- src/libmanifest/manifestservice.c. `none` is a NULL pointer that is dereferenced.
use disnix.Prelude.{
  suc, ◌-◌, Bool, true, false, Option, none, some, List, [], String, lookup, ltb, if◌then◌else◌,
}
use disnix.Platform.{Platform, Table, Node, string, int, float, bool, list, attrset}
use disnix.Model.{ManifestService, Target}

-- The value of a scalar property; NULL for a composite one.
unfoldable pub scalar : Node → Option String
scalar (string value) = some value
scalar (int value) = some value
scalar (float value) = some value
scalar (bool value) = some value
scalar (list value) = none
scalar (attrset value) = none

-- Outside `none`: the property does not exist, and its node is dereferenced all the same.
unfoldable pub find_target_property : Target → String → Option (Option String)
unfolding scalar
find_target_property target name = elim (lookup name target.properties_table) [
  | none ↦ none
  | some node ↦ some (scalar node)
]

unfoldable pub find_target_key : Target → Option (Option String)
unfolding find_target_property
find_target_key target = find_target_property target target.target_property

unfoldable pub request_available_target_core : Target → Bool × Target
request_available_target_core target =
    if ltb 0 target.available_cores
    then (true, record target { available_cores = target.available_cores - 1 })
    else (false, target)

unfoldable pub signal_available_target_core : Target → Target
signal_available_target_core target = record target { available_cores = suc target.available_cores }

pub record MappingParameters : Type 0 where
  pub service : ManifestService
  pub container_service : Option ManifestService
  pub type : String
  pub arguments : List String

unfoldable pub determine_type : ManifestService → Option ManifestService → String
determine_type service none = service.type
determine_type service (some container_service) = container_service.pkg

module _ (p : Platform) where
  unfoldable pub generate_activation_arguments_for_target : Target → String → List String
  generate_activation_arguments_for_target target container =
      elim (lookup container target.containers_table) [
        | none ↦ []
        | some properties ↦ p.generate_env_vars (some properties)
      ]

  unfoldable pub generate_activation_arguments_for_container_service :
      ManifestService → String → List String
  generate_activation_arguments_for_container_service service container =
      p.generate_env_vars (lookup container service.provides_containers_table)

  unfoldable pub generate_activation_arguments :
      Option ManifestService → Target → String → List String
  unfolding generate_activation_arguments_for_target
      generate_activation_arguments_for_container_service
  generate_activation_arguments none target container =
      generate_activation_arguments_for_target target container
  generate_activation_arguments (some service) target container =
      generate_activation_arguments_for_container_service service container

  find_container_service : Table ManifestService → Option String → Option ManifestService
  find_container_service services none = none
  find_container_service services (some provider) = lookup provider services

  unfoldable pub create_mapping_parameters :
      (service container : String)
      → Option String
      → Table ManifestService
      → Target
      → Option MappingParameters
  unfolding find_container_service determine_type generate_activation_arguments
  create_mapping_parameters service container provider services target =
      let provided_by = find_container_service services provider in
      elim (lookup service services) [
        | none ↦ none
        | some found ↦ some (record {
          service = found;
          container_service = provided_by;
          type = determine_type found provided_by;
          arguments = generate_activation_arguments provided_by target container;
        })
      ]
