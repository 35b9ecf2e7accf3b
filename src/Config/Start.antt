-- ===== src/Config/Start.antt =====
-- Config::initialize and Config::validate.
use beatrice.Base.{
  ◌≡◌, refl, ◌∙◌, Bool, true, false, ◌||◌, [], ◌∷◌, some, Text, text_eq, codes, is_empty, ◌⊎◌,
  Bool-cases, Option-cases, inl, inr, arith,
}
use beatrice.Base.Json.{Json}
use beatrice.Config.{
  Config, Environment, Outcome, success, initialization_failed, resource_unavailable,
  load_from_environment, load_from_file, finish_initialize, initialize_file, initialize, find_value,
  has, set_config, validate, split_key, split_from,
}
use beatrice.Config.Nested.{set_config-some, set_config-is_object, set_config-other}

abbrev pub is_success : Outcome → Bool
is_success success = true
is_success initialization_failed = false
is_success resource_unavailable = false

module _ {J : Type 0} (json : Json J) (env : Environment J) where
  finish_initialize-flag :
      (config : J)
      → (finish_initialize json env config).1 ≡ is_success (finish_initialize json env config).2
  unfolding finish_initialize
  finish_initialize-flag config = elim (Option-cases (load_from_environment json env config)) [
    | inl failed ↦ rw failed refl
    | inr (out, loaded) ↦ rw loaded refl
  ]

  initialize_file-flag :
      (config : J) (file : Text)
      → (initialize_file json env config file).1
        ≡ is_success (initialize_file json env config file).2
  unfolding initialize_file
  initialize_file-flag config file = elim (Bool-cases (is_empty file)) [
    | inl none_given ↦ rw none_given (finish_initialize-flag config)
    | inr given ↦ elim (Bool-cases (load_from_file json env config file).1) [
      | inl loaded ↦
          rw (given, loaded) (finish_initialize-flag (load_from_file json env config file).0)
      | inr failed ↦ rw (given, failed) refl
    ]
  ]

  initialize-flag :
      (c : Config J) (file default_config : Text)
      → (initialize json env c file default_config).0.initialized
        ≡ is_success (initialize json env c file default_config).1
  unfolding initialize
  initialize-flag c file default_config = elim (Bool-cases c.initialized) [
    | inl done ↦ rw done refl
    | inr fresh ↦ elim (Bool-cases (is_empty default_config)) [
      | inl none_given ↦ rw (fresh, none_given) (initialize_file-flag c.config file)
      | inr given ↦ elim (Option-cases (json.parse default_config)) [
        | inl failed ↦ rw (fresh, given, failed) refl
        | inr (parsed, found) ↦ rw (fresh, given, found) (initialize_file-flag parsed file)
      ]
    ]
  ]

  initialize-again :
      (c : Config J) (file default_config : Text)
      → c.initialized ≡ true
      → initialize json env c file default_config ≡ (c, success)
  unfolding initialize
  initialize-again c file default_config h = rw h refl

  -- initialize leaves the flag set when it returns success and clear when it returns an error; and
  -- either it returned an error, or a further call returns success and changes nothing, whatever its
  -- arguments.
  pub initialize-once :
      (c : Config J) (file default_config file' default_config' : Text)
      → let out = initialize json env c file default_config in
        (out.0.initialized ≡ is_success out.1)
        × ((is_success out.1 ≡ false)
            ⊎ (initialize json env out.0 file' default_config' ≡ (out.0, success)))
  initialize-once c file default_config file' default_config' = (
    initialize-flag c file default_config,
    elim (Bool-cases (is_success (initialize json env c file default_config).1)) [
      | inr failed ↦ inl failed
      | inl done ↦ inr (
          initialize-again (initialize json env c file default_config).0 file' default_config'
            (initialize-flag c file default_config ∙ done))
    ],
  )

module _ {J : Type 0} (json : Json J) where
  validate-found :
      (c : Config J) (level interface buffer_size : J)
      → find_value json c (codes "logging.level") ≡ some level
      → find_value json c (codes "network.interface") ≡ some interface
      → find_value json c (codes "network.bufferSize") ≡ some buffer_size
      → json.is_null level ≡ false
      → json.is_null interface ≡ false
      → json.is_null buffer_size ≡ false
      → validate json c ≡ true
  unfolding validate has
  validate-found c level interface buffer_size e1 e2 e3 a b d = ground (arith, e1, e2, e3, a, b, d)

  -- A configuration, an object or null, in which the three fields are set to values other than null
  -- is valid.
  validate-set :
      (c : Config J) (level interface buffer_size : J)
      → (json.is_object c.config || json.is_null c.config) ≡ true
      → json.is_null level ≡ false
      → json.is_null interface ≡ false
      → json.is_null buffer_size ≡ false
      → (c' c'' c''' : Config J) × (set_config json c (codes "logging.level") level ≡ some c')
        × (set_config json c' (codes "network.interface") interface ≡ some c'')
        × (set_config json c'' (codes "network.bufferSize") buffer_size ≡ some c''')
        × (validate json c''' ≡ true)
  unfolding split_key split_from text_eq
  validate-set c level interface buffer_size h a b d =
      let (c1, set1, found1) = set_config-some json c (codes "logging.level") level h in
      let object1 =
        set_config-is_object json c (codes "logging.level") level c1 {k = codes "logging"}
          {ks = codes "level" ∷ []} refl set1 in
      let (c2, set2, found2) =
        set_config-some json c1 (codes "network.interface") interface (ground (arith, object1)) in
      let object2 =
        set_config-is_object json c1 (codes "network.interface") interface c2 {k = codes "network"}
          {ks = codes "interface" ∷ []} refl set2 in
      let (c3, set3, found3) =
        set_config-some json c2 (codes "network.bufferSize") buffer_size
          (ground (arith, object2)) in
      let level3 =
        set_config-other json c2 (codes "network.bufferSize") buffer_size c3 (codes "logging.level")
          set3 refl
        ∙ set_config-other json c1 (codes "network.interface") interface c2 (codes "logging.level")
            set2 refl
        ∙ found1 in
      let interface3 =
        set_config-other json c2 (codes "network.bufferSize") buffer_size c3
          (codes "network.interface") set3 refl
        ∙ found2 in
      (
        c1,
        c2,
        c3,
        set1,
        set2,
        set3,
        validate-found c3 level interface buffer_size level3 interface3 found3 a b d,
      )
