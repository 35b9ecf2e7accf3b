-- ===== src/Config/Variables.antt =====
-- Config::loadFromEnvironment of src/Config.cpp against the lookups: the variables are put under flat
-- keys, and most of those have a dot, which no part of a path has.
use beatrice.Base.{
  ◌≡◌, refl, ap, subst, Bool, true, false, List, [], ◌∷◌, map, some, Text, text_eq, text_eq_iff,
  codes, Bool-cases, Option-cases, inl, inr, arith, All,
}
use beatrice.Base.Maps.{listed}
use beatrice.Base.Json.{Json}
use beatrice.Config.{
  Config, Environment, get_nested_value, find_value, split_key, env_key, env_vars, env_value,
  load_variables, load_from_environment,
}
use beatrice.Config.Nested.{put-get_nested}
use beatrice.Config.Paths.{has_dot, IsPart, split_key-IsPart}

-- A text with a dot is none without.
apart_by_dot : (n k : Text) → has_dot n ≡ true → has_dot k ≡ false → text_eq n k ≡ false
apart_by_dot n k h h' = elim (Bool-cases (text_eq n k)) [
  | inr apart ↦ apart
  | inl same ↦ absurd (ground (arith, ap has_dot ((text_eq_iff n k).0 same), h, h'))
]

-- The keys that have no dot.
env_key-env_vars :
    (k : Text)
    → has_dot k ≡ false
    → text_eq (codes "interface") k ≡ false
    → text_eq (codes "promiscuous") k ≡ false
    → text_eq (codes "timeout") k ≡ false
    → listed k (map env_key env_vars) ≡ false
unfolding env_key
env_key-env_vars k plain a b c =
    rw
      (
        apart_by_dot (codes "log.level") k refl plain,
        apart_by_dot (codes "log.file") k refl plain,
        a,
        apart_by_dot (codes "buffer.size") k refl plain,
        apart_by_dot (codes "num.buffers") k refl plain,
        b,
        c,
        apart_by_dot (codes "batch.size") k refl plain,
        apart_by_dot (codes "num.threads") k refl plain,
      )
      refl

module _ {J : Type 0} (json : Json J) (env : Environment J) where
  load_variables-get_nested :
      (names : List Text) (config : J) (out : J × Bool) (k : Text) (ks : List Text)
      → load_variables json env config names ≡ some out
      → listed k (map env_key names) ≡ false
      → get_nested_value json out.0 (k ∷ ks) ≡ get_nested_value json config (k ∷ ks)
  unfolding load_variables
  load_variables-get_nested [] config out k ks e h = ground (arith, e)
  load_variables-get_nested (name ∷ names) config out k ks e h =
      elim (Option-cases (env.getenv name)) [
        | inl unset ↦
            load_variables-get_nested names config out k ks (ground (arith, unset, e))
              (ground (arith, h))
        | inr (value, given) ↦
            elim (Option-cases (json.put config (env_key name) (env_value json env value))) [
              | inl failed ↦ absurd (ground (arith, given, failed, e))
              | inr (next, done) ↦ elim (Option-cases (load_variables json env next names)) [
                | inl failed ↦ absurd (ground (arith, given, done, failed, e))
                | inr (rest, loaded) ↦ ground (
                  arith,
                  given,
                  done,
                  loaded,
                  e,
                  h,
                  load_variables-get_nested names next rest k ks loaded (ground (arith, h)),
                  put-get_nested json config (env_key name) (env_value json env value) next k ks
                      done,
                )
              ]
            ]
      ]

  -- Whatever the environment, loading it changes what is found under no key, but an empty one and
  -- those that begin with one of the parts interface, promiscuous and timeout.
  pub load_from_environment-unseen :
      (c : Config J) (out : J × Bool) (key k : Text) (ks : List Text)
      → load_from_environment json env c.config ≡ some out
      → split_key key ≡ k ∷ ks
      → text_eq (codes "interface") k ≡ false
      → text_eq (codes "promiscuous") k ≡ false
      → text_eq (codes "timeout") k ≡ false
      → find_value json (record c { config = out.0 }) key ≡ find_value json c key
  unfolding load_from_environment find_value
  load_from_environment-unseen c out key k ks e path a b d = rw path (
      load_variables-get_nested env_vars c.config out k ks e
        (env_key-env_vars k (subst (All IsPart) path (split_key-IsPart key)).0.1 a b d))
