-- ===== src/Config/Nested.antt =====
-- Config::set and the lookups of src/Config.cpp: a value that is set is found, and no other is changed.
use beatrice.Base.{
  ◌≡◌, refl, ◌∙◌, ap, subst, Bool, true, false, ◌||◌, List, [], ◌∷◌, some, Text, text_eq,
  text_eq_iff, if◌then◌else◌, Bool-cases, Option-cases, inl, inr, arith,
}
use beatrice.Base.Json.{Json}
use beatrice.Config.{
  Config, get_nested_value, object_at, set_nested_value, find_value, set_config, split_key,
}

-- Neither path goes on from the other.
abbrev pub diverge : List Text → List Text → Bool
diverge [] is = false
diverge (k ∷ ks) [] = false
diverge (k ∷ ks) (i ∷ is) = if text_eq k i then diverge ks is else true

module _ {J : Type 0} (json : Json J) where
  pub put-get_nested :
      (current : J) (k : Text) (inner c' : J) (i : Text) (is : List Text)
      → json.put current k inner ≡ some c'
      → get_nested_value json c' (i ∷ is) ≡ (
          if text_eq k i
          then get_nested_value json inner is
          else get_nested_value json current (i ∷ is))
  unfolding get_nested_value
  put-get_nested current k inner c' i is e = ground (
    arith,
    json.put-is_object current k inner c' e,
    json.put-member current k i inner c' e,
    json.member-none current i,
  )

  object_at-get_nested :
      (current : J) (k i : Text) (is : List Text)
      → get_nested_value json (object_at json current k) (i ∷ is)
        ≡ get_nested_value json current (k ∷ i ∷ is)
  unfolding get_nested_value object_at
  object_at-get_nested current k i is =
      ground
        (arith, json.member-none current k, json.member-empty_object i, json.is_object-empty_object)

  -- How setting a longer path ends.
  set_nested-inner :
      (current : J) (k k' : Text) (ks : List Text) (v c' : J)
      → set_nested_value json current (k ∷ k' ∷ ks) v ≡ some c'
      → (inner : J) × (set_nested_value json (object_at json current k) (k' ∷ ks) v ≡ some inner)
        × (json.put current k inner ≡ some c')
  unfolding set_nested_value
  set_nested-inner current k k' ks v c' e =
      elim (Option-cases (set_nested_value json (object_at json current k) (k' ∷ ks) v)) [
        | inl failed ↦ absurd (ground (arith, failed, e))
        | inr (inner, found) ↦ (inner, found, ground (arith, found, e))
      ]

  pub set_nested-get_nested :
      (current : J) (ks : List Text) (v c' : J)
      → set_nested_value json current ks v ≡ some c'
      → get_nested_value json c' ks ≡ some v
  unfolding set_nested_value get_nested_value
  set_nested-get_nested current [] v c' e = ground (arith, e)
  set_nested-get_nested current (k ∷ []) v c' e =
      ground (arith, put-get_nested current k v c' k [] e, text_eq_iff k k)
  set_nested-get_nested current (k ∷ k' ∷ ks) v c' e =
      let (inner, found, set_it) = set_nested-inner current k k' ks v c' e in
      ground (
        arith,
        put-get_nested current k inner c' k (k' ∷ ks) set_it,
        text_eq_iff k k,
        set_nested-get_nested (object_at json current k) (k' ∷ ks) v inner found,
      )

  pub set_nested-other :
      (current : J) (ks is : List Text) (v c' : J)
      → set_nested_value json current ks v ≡ some c'
      → diverge ks is ≡ true
      → get_nested_value json c' is ≡ get_nested_value json current is
  unfolding set_nested_value
  set_nested-other current [] is v c' e apart = cc
  set_nested-other current (k ∷ ks) [] v c' e apart = cc
  set_nested-other current (k ∷ []) (i ∷ is) v c' e apart =
      ground (arith, apart, put-get_nested current k v c' i is e)
  set_nested-other current (k ∷ k' ∷ ks) (i ∷ []) v c' e apart =
      let (inner, found, set_it) = set_nested-inner current k k' ks v c' e in
      ground (arith, apart, put-get_nested current k inner c' i [] set_it)
  set_nested-other current (k ∷ k' ∷ ks) (i ∷ i' ∷ is) v c' e apart =
      let (inner, found, set_it) = set_nested-inner current k k' ks v c' e in
      put-get_nested current k inner c' i (i' ∷ is) set_it ∙ elim (Bool-cases (text_eq k i)) [
        | inr other ↦ ground (arith, other)
        | inl same ↦ rw same (
            set_nested-other (object_at json current k) (k' ∷ ks) (i' ∷ is) v inner found
              (ground (arith, same, apart))
            ∙ object_at-get_nested current k i' is
            ∙ ap (λ n. get_nested_value json current (n ∷ i' ∷ is)) ((text_eq_iff k i).0 same))
      ]

  object_at-is_object : (current : J) (k : Text) → json.is_object (object_at json current k) ≡ true
  unfolding object_at
  object_at-is_object current k = ground (arith, json.is_object-empty_object)

  set_nested-some :
      (current : J) (ks : List Text) (v : J)
      → (json.is_object current || json.is_null current) ≡ true
      → (c' : J) × (set_nested_value json current ks v ≡ some c')
  unfolding set_nested_value
  set_nested-some current [] v h = (v, refl)
  set_nested-some current (k ∷ []) v h = json.put-some current k v h
  set_nested-some current (k ∷ k' ∷ ks) v h =
      let (inner, found) =
        set_nested-some (object_at json current k) (k' ∷ ks) v
          (ground (arith, object_at-is_object current k)) in
      let (c', set_it) = json.put-some current k inner h in (c', ground (arith, found, set_it))

  set_nested-is_object :
      (current : J) (k : Text) (ks : List Text) (v c' : J)
      → set_nested_value json current (k ∷ ks) v ≡ some c'
      → json.is_object c' ≡ true
  unfolding set_nested_value
  set_nested-is_object current k [] v c' e = json.put-is_object current k v c' e
  set_nested-is_object current k (k' ∷ ks) v c' e =
      let (inner, found, set_it) = set_nested-inner current k k' ks v c' e in
      json.put-is_object current k inner c' set_it

  -- The configuration that set leaves, with the value under the key.
  pub set_config-some :
      (c : Config J) (key : Text) (value : J)
      → (json.is_object c.config || json.is_null c.config) ≡ true
      → (c' : Config J) × (set_config json c key value ≡ some c')
        × (find_value json c' key ≡ some value)
  unfolding set_config find_value
  set_config-some c key value h =
      let (config, done) = set_nested-some c.config (split_key key) value h in
      (
        record c { config = config },
        ground (arith, done),
        set_nested-get_nested c.config (split_key key) value config done,
      )

  set_config-nested :
      (c : Config J) (key : Text) (value : J) (c' : Config J)
      → set_config json c key value ≡ some c'
      → set_nested_value json c.config (split_key key) value ≡ some c'.config
  unfolding set_config
  set_config-nested c key value c' e =
      elim (Option-cases (set_nested_value json c.config (split_key key) value)) [
        | inl failed ↦ absurd (ground (arith, failed, e))
        | inr (config, done) ↦ ground (arith, done, e)
      ]

  pub set_config-is_object :
      (c : Config J) (key : Text) (value : J) (c' : Config J) {k : Text} {ks : List Text}
      → split_key key ≡ k ∷ ks
      → set_config json c key value ≡ some c'
      → json.is_object c'.config ≡ true
  set_config-is_object c key value c' {k} {ks} path e =
      set_nested-is_object c.config k ks value c'.config (
        subst (λ p. set_nested_value json c.config p value ≡ some c'.config) path
          (set_config-nested c key value c' e))

  pub set_config-other :
      (c : Config J) (key : Text) (value : J) (c' : Config J) (other : Text)
      → set_config json c key value ≡ some c'
      → diverge (split_key key) (split_key other) ≡ true
      → find_value json c' other ≡ find_value json c other
  unfolding find_value
  set_config-other c key value c' other e apart =
      set_nested-other c.config (split_key key) (split_key other) value c'.config
        (set_config-nested c key value c' e) apart

  -- On a configuration that is an object or null, set succeeds: the key then has the value, and
  -- another key whose path neither goes on from the key's nor the other way round has what it had.
  pub set_config-find_value :
      (c : Config J) (key other : Text) (value : J)
      → (json.is_object c.config || json.is_null c.config) ≡ true
      → diverge (split_key key) (split_key other) ≡ true
      → (c' : Config J) × (set_config json c key value ≡ some c')
        × (find_value json c' key ≡ some value)
        × (find_value json c' other ≡ find_value json c other)
  set_config-find_value c key other value h apart =
      let (c', done, found) = set_config-some c key value h in
      (c', done, found, set_config-other c key value c' other done apart)
