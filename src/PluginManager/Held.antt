-- ===== src/PluginManager/Held.antt =====
-- The names of the loaded plugins, and the handles kept under them.
use beatrice.Base.{
  ℕ, suc, ◌+◌, ◌≤◌, ◌≡◌, refl, ◌∙◌, ap, true, false, List, [], ◌∷◌, ◌++◌, some, Text, is_empty,
  text_eq, text_eq_iff, if◌then◌else◌, Bool-cases, ◌⊎◌, inl, inr, All, arith,
}
use beatrice.Base.Maps.{Map, lookup, insert, erase, lookup-insert, lookup-erase}
use beatrice.PluginManager.{Host, Plugin, has_name, erase_plugin, pass, pass_all, pass_batch}

module _ {S P : Type 0} (host : Host S P) where
  abbrev pub name_of : Plugin S → Text
  name_of p = host.get_name p.state

  -- How many have the name.
  abbrev pub named : Text → List (Plugin S) → ℕ
  named n [] = 0
  named n (p ∷ ps) = if text_eq (name_of p) n then suc (named n ps) else named n ps

  -- A plugin with a name has its library's handle under it.
  abbrev pub HasHandle : Map ℕ → Plugin S → Type 0
  HasHandle handles p = is_empty (name_of p) ≡ false → lookup (name_of p) handles ≡ some p.library

  pub has_name-named :
      (n : Text) (ps : List (Plugin S)) → has_name host n ps ≡ false → named n ps ≡ 0
  unfolding has_name
  has_name-named n [] h = refl
  has_name-named n (p ∷ ps) h = ground (arith, h, has_name-named n ps)

  pub named-append :
      (n : Text) (ps : List (Plugin S)) (p : Plugin S)
      → named n (ps ++ p ∷ []) ≡ named n ps + named n (p ∷ [])
  named-append n [] p = ground arith
  named-append n (q ∷ ps) p = ground (arith, named-append n ps p)

  pub named-erase_plugin :
      (m n : Text) (ps : List (Plugin S)) → named m (erase_plugin host n ps) ≤ named m ps
  unfolding erase_plugin
  named-erase_plugin m n [] = omega arith
  named-erase_plugin m n (p ∷ ps) = ground (arith, named-erase_plugin m n ps)

  HasHandle-insert :
      (n : Text) (handle : ℕ) (handles : Map ℕ) (p : Plugin S)
      → text_eq (name_of p) n ≡ false
      → HasHandle handles p
      → HasHandle (insert n handle handles) p
  HasHandle-insert n handle handles p apart held full = ground (
    arith,
    apart,
    held full,
    text_eq_iff n (name_of p),
    text_eq_iff (name_of p) n,
    lookup-insert n (name_of p) handle handles,
  )

  HasHandle-erase :
      (n : Text) (handles : Map ℕ) (p : Plugin S)
      → (is_empty (name_of p) ≡ false → text_eq (name_of p) n ≡ false)
      → HasHandle handles p
      → HasHandle (erase n handles) p
  HasHandle-erase n handles p apart held full = ground (
    arith,
    apart full,
    held full,
    text_eq_iff n (name_of p),
    text_eq_iff (name_of p) n,
    lookup-erase n (name_of p) handles,
  )

  -- The handle of a plugin whose name the others do not have.
  pub insert-HasHandle :
      (n : Text) (handle : ℕ) (handles : Map ℕ) (s : S) (ps : List (Plugin S))
      → (is_empty (host.get_name s) ≡ false → n ≡ host.get_name s)
      → has_name host n ps ≡ false
      → All (HasHandle handles) ps
      → All
          (HasHandle (insert n handle handles))
          (ps ++ record { library = handle; state = s } ∷ [])
  unfolding has_name
  insert-HasHandle n handle handles s [] e h hs = (
    λ full. ground (
      arith,
      e full,
      text_eq_iff n (host.get_name s),
      lookup-insert n (host.get_name s) handle handles,
    ),
    tt,
  )
  insert-HasHandle n handle handles s (p ∷ ps) e h (held, hs) = (
    HasHandle-insert n handle handles p (ground (arith, h)) held,
    insert-HasHandle n handle handles s ps e (ground (arith, h)) hs,
  )

  apart_from :
      (n : Text) (p : Plugin S)
      → is_empty n ≡ true
      → is_empty (name_of p) ≡ false
      → text_eq (name_of p) n ≡ false
  apart_from n p none_given full =
      ground
        (arith, none_given, full, text_eq_iff (name_of p) n, λ (e : name_of p ≡ n). ap is_empty e)

  unnamed-HasHandle :
      (n : Text) (handles : Map ℕ) (ps : List (Plugin S))
      → (is_empty n ≡ true) ⊎ (named n ps ≡ 0)
      → All (HasHandle handles) ps
      → All (HasHandle (erase n handles)) ps
  unnamed-HasHandle n handles [] h hs = tt
  unnamed-HasHandle n handles (p ∷ ps) (inl e) (held, hs) = (
    HasHandle-erase n handles p (apart_from n p e) held,
    unnamed-HasHandle n handles ps (inl e) hs,
  )
  unnamed-HasHandle n handles (p ∷ ps) (inr e) (held, hs) = (
    HasHandle-erase n handles p (λ full. ground (arith, e)) held,
    unnamed-HasHandle n handles ps (inr (ground (arith, e))) hs,
  )

  -- A name that at most one plugin has, or an empty one.
  pub erase-HasHandle :
      (n : Text) (handles : Map ℕ) (ps : List (Plugin S))
      → (is_empty n ≡ true) ⊎ (named n ps ≤ 1)
      → All (HasHandle handles) ps
      → All (HasHandle (erase n handles)) (erase_plugin host n ps)
  unfolding erase_plugin
  erase-HasHandle n handles [] h hs = tt
  erase-HasHandle n handles (p ∷ ps) h (held, hs) = elim (Bool-cases (text_eq (name_of p) n)) [
    | inl same ↦ rw same (
        unnamed-HasHandle n handles ps
          (elim h [ inl e ↦ inl e | inr one ↦ inr (ground (arith, same, one)) ]) hs)
    | inr apart ↦ rw apart (
      HasHandle-erase n handles p (λ full. apart) held,
      erase-HasHandle n handles ps
          (elim h [ inl e ↦ inl e | inr one ↦ inr (ground (arith, apart, one)) ]) hs,
    )
  ]

  -- The same plugins, with other states that have the same names.
  abbrev pub Updated : List (Plugin S) → List (Plugin S) → Type 0
  Updated [] [] = Unit
  Updated [] (q ∷ qs) = ⊥
  Updated (p ∷ ps) [] = ⊥
  Updated (p ∷ ps) (q ∷ qs) = (q.library ≡ p.library) × (name_of q ≡ name_of p) × Updated ps qs

  pub Updated-named : (n : Text) (ps qs : List (Plugin S)) → Updated ps qs → named n qs ≡ named n ps
  Updated-named n [] [] u = refl
  Updated-named n [] (q ∷ qs) u = absurd u
  Updated-named n (p ∷ ps) [] u = absurd u
  Updated-named n (p ∷ ps) (q ∷ qs) (l, e, u) =
      ground (arith, e, named n ps, Updated-named n ps qs u)

  pub Updated-HasHandle :
      (handles : Map ℕ) (ps qs : List (Plugin S))
      → Updated ps qs
      → All (HasHandle handles) ps
      → All (HasHandle handles) qs
  Updated-HasHandle handles [] [] u hs = tt
  Updated-HasHandle handles [] (q ∷ qs) u hs = absurd u
  Updated-HasHandle handles (p ∷ ps) [] u hs = absurd u
  Updated-HasHandle handles (p ∷ ps) (q ∷ qs) (l, e, u) (h, hs) =
      (λ full. ground (arith, l, e, full, h), Updated-HasHandle handles ps qs u hs)

  -- onPacket keeps the name.
  module _
      (keeps : (s : S) (packet : P)
        → host.get_name (host.on_packet s packet).1 ≡ host.get_name s) where
    pub pass-Updated : (ps : List (Plugin S)) (packet : P) → Updated ps (pass host ps packet).0
    unfolding pass
    pass-Updated [] packet = tt
    pass-Updated (p ∷ ps) packet =
        (refl, keeps p.state packet, pass-Updated ps (host.on_packet p.state packet).2)

    pass_all-get_name :
        (s : S) (packets : List P) → host.get_name (pass_all host s packets).0 ≡ host.get_name s
    unfolding pass_all
    pass_all-get_name s [] = refl
    pass_all-get_name s (packet ∷ packets) = elim (Bool-cases (host.on_packet s packet).0) [
      | inl thrown ↦ rw thrown (keeps s packet)
      | inr fine ↦ rw fine (pass_all-get_name (host.on_packet s packet).1 packets ∙ keeps s packet)
    ]

    pub pass_batch-Updated :
        (ps : List (Plugin S)) (packets : List P) → Updated ps (pass_batch host ps packets).0
    unfolding pass_batch
    pass_batch-Updated [] packets = tt
    pass_batch-Updated (p ∷ ps) packets = (
      refl,
      pass_all-get_name p.state packets,
      pass_batch-Updated ps (pass_all host p.state packets).1,
    )
