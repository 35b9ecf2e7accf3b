-- ===== src/Config.antt =====
-- The class Config of include/beatrice/Config.hpp and src/Config.cpp. The JSON library, the files,
-- the environment and the standard conversions of a text to a number are parameters.
pub mod Paths
pub mod Nested
pub mod Variables
pub mod Start
mod Tree
mod Tests
use beatrice.Base.{
  ℕ, ◌≡◌, Bool, true, false, not, ◌&&◌, ◌||◌, List, [], ◌∷◌, ◌++◌, Option, none, some, map, Text,
  codes, is_empty, drop, leb, ◌+◌, ◌==◌, if◌then◌else◌,
}
use beatrice.Base.Json.{Json}

-- What of the two error codes and the success initialize gives.
pub data Outcome : Type 0 where
  success initialization_failed resource_unavailable : Outcome

pub record Config (J : Type 0) : Type 0 where
  pub config : J
  pub initialized : Bool

-- read_file is what a stream of an open file gives: nothing when it is no JSON.
pub record Environment (J : Type 0) : Type 0 where
  pub opens_file : Text → Bool
  pub read_file : Text → Option J
  pub getenv : Text → Option Text
  pub stoi : Text → Option ℕ
  pub stod : Text → Option ℕ

abbrev pub dot : ℕ
dot = 46

abbrev pub keep_part : Text → List Text → List Text
keep_part current keys = if is_empty current then keys else current ∷ keys

-- The loop of splitKey over the rest of the key, with the part it has begun.
unfoldable pub split_from : Text → Text → List Text
split_from current [] = keep_part current []
split_from current (c ∷ key) =
    let next = split_from [] key in
    let longer = split_from (current ++ c ∷ []) key in
    if c == dot then keep_part current next else longer

unfoldable pub split_key : Text → List Text
unfolding split_from
split_key key = split_from [] key

-- std::tolower in the C locale.
unfoldable pub to_lower : ℕ → ℕ
to_lower c = if leb 65 c && leb c 90 then c + 32 else c

-- The key of a variable: without "BEATRICE_", in small letters, each '_' a '.'.
unfoldable pub env_key : Text → Text
unfolding to_lower
env_key name = map (λ c. if to_lower c == 95 then dot else to_lower c) (drop 9 name)

abbrev pub env_vars : List Text
env_vars =
    codes "BEATRICE_LOG_LEVEL"
    ∷ codes "BEATRICE_LOG_FILE"
    ∷ codes "BEATRICE_INTERFACE"
    ∷ codes "BEATRICE_BUFFER_SIZE"
    ∷ codes "BEATRICE_NUM_BUFFERS"
    ∷ codes "BEATRICE_PROMISCUOUS"
    ∷ codes "BEATRICE_TIMEOUT"
    ∷ codes "BEATRICE_BATCH_SIZE"
    ∷ codes "BEATRICE_NUM_THREADS"
    ∷ []

module _ {J : Type 0} (json : Json J) where
  unfoldable pub get_nested_value : J → List Text → Option J
  get_nested_value current [] = some current
  get_nested_value current (key ∷ keys) =
      if json.is_object current
      then elim (json.member current key) [ none ↦ none | some next ↦ get_nested_value next keys ]
      else none

  -- The object to go on with: the member, or a new object where there is none.
  unfoldable pub object_at : J → Text → J
  object_at current key = elim (json.member current key) [
    | none ↦ json.empty_object
    | some next ↦ if json.is_object next then next else json.empty_object
  ]

  -- The pointer walk: what is set below a member is set in the whole. `none` is the exception of
  -- operator[], which can only come of the outermost value, before anything is changed.
  unfoldable pub set_nested_value : J → List Text → J → Option J
  unfolding object_at
  set_nested_value current [] value = some value
  set_nested_value current (key ∷ []) value = json.put current key value
  set_nested_value current (key ∷ key' ∷ keys) value =
      elim (set_nested_value (object_at current key) (key' ∷ keys) value) [
        | none ↦ none
        | some inner ↦ json.put current key inner
      ]

  unfoldable pub find_value : Config J → Text → Option J
  unfolding split_key get_nested_value
  find_value c key = get_nested_value c.config (split_key key)

  -- getString, getInt, getBool and getDouble: a value of the wrong type gives the default.
  unfoldable pub get_string : Config J → Text → Text → Text
  unfolding find_value
  get_string c key default_value = elim (find_value c key) [
    | none ↦ default_value
    | some v ↦ if json.is_string v then json.to_text v else default_value
  ]

  unfoldable pub get_int : Config J → Text → ℕ → ℕ
  unfolding find_value
  get_int c key default_value = elim (find_value c key) [
    | none ↦ default_value
    | some v ↦ if json.is_number v then json.to_int v else default_value
  ]

  unfoldable pub get_bool : Config J → Text → Bool → Bool
  unfolding find_value
  get_bool c key default_value = elim (find_value c key) [
    | none ↦ default_value
    | some v ↦ if json.is_boolean v then json.to_bool v else default_value
  ]

  unfoldable pub get_double : Config J → Text → ℕ → ℕ
  unfolding find_value
  get_double c key default_value = elim (find_value c key) [
    | none ↦ default_value
    | some v ↦ if json.is_number v then json.to_double v else default_value
  ]

  unfoldable pub get_array : Config J → Text → J
  unfolding find_value
  get_array c key = elim (find_value c key) [
    | none ↦ json.empty_array
    | some v ↦ if json.is_array v then v else json.empty_array
  ]

  unfoldable pub get_object : Config J → Text → J
  unfolding find_value
  get_object c key = elim (find_value c key) [
    | none ↦ json.empty_object
    | some v ↦ if json.is_object v then v else json.empty_object
  ]

  unfoldable pub has : Config J → Text → Bool
  unfolding find_value
  has c key = elim (find_value c key) [ none ↦ false | some v ↦ not (json.is_null v) ]

  -- Config::set; `none` when it throws.
  unfoldable pub set_config : Config J → Text → J → Option (Config J)
  unfolding set_nested_value split_key
  set_config c key value = elim (set_nested_value c.config (split_key key) value) [
    | none ↦ none
    | some config ↦ some (record c { config = config })
  ]

  unfoldable pub validate : Config J → Bool
  unfolding has
  validate c =
      has c (codes "logging.level")
      && has c (codes "network.interface")
      && has c (codes "network.bufferSize")

  module _ (env : Environment J) where
    -- An int, or a double, or the text itself.
    unfoldable pub env_value : Text → J
    env_value value = elim (env.stoi value) [
      | some int_val ↦ json.of_int int_val
      | none ↦ elim (env.stod value) [
        | some double_val ↦ json.of_double double_val
        | none ↦ json.of_text value
      ]
    ]

    -- The loop over the variables. Where config_[key] throws, it does so on each of the three ways.
    unfoldable pub load_variables : J → List Text → Option (J × Bool)
    unfolding env_key env_value
    load_variables config [] = some (config, false)
    load_variables config (name ∷ names) = elim (env.getenv name) [
      | none ↦ load_variables config names
      | some value ↦ elim (json.put config (env_key name) (env_value value)) [
        | none ↦ none
        | some config' ↦ elim (load_variables config' names) [
          | none ↦ none
          | some out ↦ some (out.0, true)
        ]
      ]
    ]

    unfoldable pub load_from_environment : J → Option (J × Bool)
    unfolding load_variables
    load_from_environment config = load_variables config env_vars

    unfoldable pub load_from_file : J → Text → J × Bool
    load_from_file config filename =
        if env.opens_file filename
        then elim (env.read_file filename) [
          | none ↦ (config, false)
          | some file_config ↦ (json.merge_patch config file_config, true)
        ]
        else (config, false)

    -- After the default and the file: the variables, and the flag.
    unfoldable pub finish_initialize : J → J × Bool × Outcome
    unfolding load_from_environment
    finish_initialize config = elim (load_from_environment config) [
      | none ↦ (config, false, initialization_failed)
      | some out ↦ (out.0, true, success)
    ]

    unfoldable pub initialize_file : J → Text → J × Bool × Outcome
    unfolding load_from_file finish_initialize
    initialize_file config config_file =
        if is_empty config_file
        then finish_initialize config
        else if (load_from_file config config_file).1
        then finish_initialize (load_from_file config config_file).0
        else ((load_from_file config config_file).0, false, resource_unavailable)

    unfoldable pub initialize : Config J → Text → Text → Config J × Outcome
    unfolding initialize_file
    initialize c config_file default_config =
        if c.initialized
        then (c, success)
        else let out =
            if is_empty default_config
            then initialize_file c.config config_file
            else elim (json.parse default_config) [
              | none ↦ (c.config, false, initialization_failed)
              | some parsed ↦ initialize_file parsed config_file
            ] in
          (record { config = out.0; initialized = out.1 }, out.2)
