-- ===== src/Config/Tests.antt =====
-- The theorems on the configuration applied to concrete values.
use beatrice.Base.{
  ◌≡◌, refl, ◌⊎◌, Bool, true, false, [], ◌∷◌, none, some, text_eq, codes, if◌then◌else◌,
}
use beatrice.Config.{
  Config, Environment, success, find_value, set_config, initialize, split_key, split_from, env_key,
  to_lower, env_value, load_variables, load_from_environment,
}
use beatrice.Config.Paths.{join, split_key-join}
use beatrice.Config.Nested.{set_config-find_value}
use beatrice.Config.Variables.{load_from_environment-unseen}
use beatrice.Config.Start.{is_success, initialize-once}
use beatrice.Config.Tree.{Tree, null, number, text, object, end, member, trees}

split_key-join_example :
    split_key (join (codes "network" ∷ codes "bufferSize" ∷ []))
    ≡ codes "network" ∷ codes "bufferSize" ∷ []
split_key-join_example =
    split_key-join (codes "network" ∷ codes "bufferSize" ∷ []) ((refl, refl), ((refl, refl), tt))

abbrev fresh : Config Tree
fresh = record { config = null; initialized = false }

set_config-find_value_example :
    (c' : Config Tree) × (set_config trees fresh (codes "network.timeout") (number 5) ≡ some c')
    × (find_value trees c' (codes "network.timeout") ≡ some (number 5))
    × (find_value trees c' (codes "network.interface")
        ≡ find_value trees fresh (codes "network.interface"))
unfolding split_key split_from text_eq
set_config-find_value_example =
    set_config-find_value trees fresh (codes "network.timeout") (codes "network.interface")
      (number 5) refl refl

-- One variable is set.
abbrev one_variable : Environment Tree
one_variable = record {
  opens_file = λ s. false;
  read_file = λ s. none;
  getenv = λ s. if text_eq s (codes "BEATRICE_LOG_LEVEL") then some (codes "debug") else none;
  stoi = λ s. none;
  stod = λ s. none;
}

abbrev loaded : Tree × Bool
loaded = (object (member (codes "log.level") (text (codes "debug")) end), true)

load_from_environment-unseen_example :
    find_value trees (record fresh { config = loaded.0 }) (codes "log.level")
    ≡ find_value trees fresh (codes "log.level")
unfolding load_from_environment load_variables env_key env_value to_lower split_key split_from
    text_eq
load_from_environment-unseen_example =
    load_from_environment-unseen trees one_variable fresh loaded (codes "log.level") (codes "log")
      (codes "level" ∷ []) refl refl refl refl refl

initialize-once_example :
    let out = initialize trees one_variable fresh [] [] in
    (out.0.initialized ≡ is_success out.1)
    × ((is_success out.1 ≡ false)
        ⊎ (initialize trees one_variable out.0 (codes "beatrice.json") [] ≡ (out.0, success)))
initialize-once_example = initialize-once trees one_variable fresh [] [] (codes "beatrice.json") []
