-- ===== src/Context/Settings.antt =====
-- The backend's settings and the environment.
use beatrice.Base.{ℕ, ◌≡◌, refl, Bool, true, [], ◌∷◌, some, Text, text_eq, codes}
use beatrice.Base.Json.{Json}
use beatrice.Config.{
  Config, Environment, load_from_environment, find_value, get_string, get_int, get_bool, split_key,
  split_from,
}
use beatrice.Config.Variables.{load_from_environment-unseen}
use beatrice.Context.{backend_config}

-- A key of the network part is found as before.
network_key :
    {J : Type 0} (json : Json J) (env : Environment J) (c : Config J) (out : J × Bool)
    (key last : Text)
    → load_from_environment json env c.config ≡ some out
    → split_key key ≡ codes "network" ∷ last ∷ []
    → find_value json (record c { config = out.0 }) key ≡ find_value json c key
unfolding text_eq
network_key json env c out key last e path =
    load_from_environment-unseen json env c out key (codes "network") (last ∷ []) e path refl refl
      refl

get_string-same :
    {J : Type 0} (json : Json J) (c c' : Config J) (key : Text) (default_value : Text)
    → find_value json c' key ≡ find_value json c key
    → get_string json c' key default_value ≡ get_string json c key default_value
unfolding get_string
get_string-same json c c' key default_value e = rw (get_string, e) refl

get_int-same :
    {J : Type 0} (json : Json J) (c c' : Config J) (key : Text) (default_value : ℕ)
    → find_value json c' key ≡ find_value json c key
    → get_int json c' key default_value ≡ get_int json c key default_value
unfolding get_int
get_int-same json c c' key default_value e = rw (get_int, e) refl

get_bool-same :
    {J : Type 0} (json : Json J) (c c' : Config J) (key : Text) (default_value : Bool)
    → find_value json c' key ≡ find_value json c key
    → get_bool json c' key default_value ≡ get_bool json c key default_value
unfolding get_bool
get_bool-same json c c' key default_value e = rw (get_bool, e) refl

-- None of the settings of the capture backend is changed by loading the environment.
pub load_from_environment-backend_config :
    {J : Type 0} (json : Json J) (env : Environment J) (c : Config J) (out : J × Bool)
    → load_from_environment json env c.config ≡ some out
    → backend_config json (record c { config = out.0 }) ≡ backend_config json c
unfolding backend_config split_key split_from
load_from_environment-backend_config {J} json env c out e =
    rw
      (
        backend_config,
        get_string-same json c loaded (codes "network.interface") (codes "eth0")
            (network_key json env c out (codes "network.interface") (codes "interface") e refl),
        get_int-same json c loaded (codes "network.bufferSize") 4096
            (network_key json env c out (codes "network.bufferSize") (codes "bufferSize") e refl),
        get_int-same json c loaded (codes "network.numBuffers") 1024
            (network_key json env c out (codes "network.numBuffers") (codes "numBuffers") e refl),
        get_bool-same json c loaded (codes "network.promiscuous") true
            (network_key json env c out (codes "network.promiscuous") (codes "promiscuous") e refl),
        get_int-same json c loaded (codes "network.timeout") 1000
            (network_key json env c out (codes "network.timeout") (codes "timeout") e refl),
        get_int-same json c loaded (codes "network.batchSize") 64
            (network_key json env c out (codes "network.batchSize") (codes "batchSize") e refl),
        get_bool-same json c loaded (codes "network.enableTimestamping") true (
            network_key json env c out (codes "network.enableTimestamping")
              (codes "enableTimestamping") e refl),
        get_bool-same json c loaded (codes "network.enableZeroCopy") true (
            network_key json env c out (codes "network.enableZeroCopy") (codes "enableZeroCopy") e
              refl),
      )
      refl
  where
    loaded : Config J
    loaded = record c { config = out.0 }
