-- ===== src/PluginManager/Loads.antt =====
-- loadPlugin on every branch.
use beatrice.Base.{
  ℕ, suc, ◌+◌, ◌<◌, ◌≡◌, refl, Bool, false, [], ◌∷◌, ◌++◌, some, Text, is_empty, if◌then◌else◌,
  ◌==◌, leb, length, Bool-cases, Option-cases, inl, inr, arith,
}
use beatrice.Base.Maps.{insert}
use beatrice.PluginManager.{
  Host, opens, closes, starts, World, call, Created, no_symbol, null, throws, object, has_name,
  plugin_name, store_plugin, start_plugin, create_plugin, load_plugin,
}
use beatrice.PluginManager.Libraries.{opened, closed}

module _ {S P : Type 0} (host : Host S P) where
  -- What loadPlugin promises for its two results.
  pub record Refused (w out : World S) : Type 0 where
    pub manager : out.manager ≡ w.manager
    pub references :
        (h : ℕ) → opened h out.calls + closed h w.calls ≡ opened h w.calls + closed h out.calls

  pub record Stored (w out : World S) (path : Text) : Type 0 where
    pub library : ℕ
    pub state : S
    pub below : length w.manager.plugins < w.manager.max_plugins
    pub found : host.open_library path ≡ some library
    pub fresh : has_name host (plugin_name host path state) w.manager.plugins ≡ false
    pub manager : out.manager ≡ record w.manager {
      plugins = w.manager.plugins ++ record { library = library; state = state } ∷ [];
      handles = insert (plugin_name host path state) library w.manager.handles;
    }
    pub references :
        (h : ℕ)
        → opened h out.calls + closed h w.calls ≡ (
            if library == h
            then suc (opened h w.calls + closed h out.calls)
            else opened h w.calls + closed h out.calls)

  -- By the result of the call.
  abbrev pub Promised : World S → Text → World S × Bool → Type 0
  Promised w path out = if out.1 then Stored w out.0 path else Refused w out.0

  -- After dlopen, with the world before it.
  abbrev Opened : World S → Text → ℕ → Type 0
  Opened w path handle =
      (length w.manager.plugins < w.manager.max_plugins) × (host.open_library path ≡ some handle)

  store_plugin-Promised :
      (w : World S) (path : Text) (handle : ℕ) (s : S)
      → Opened w path handle
      → Promised w path
          (store_plugin host (call host (call host w (opens handle)) (starts handle)) path handle s)
  unfolding store_plugin call
  store_plugin-Promised w path handle s (below, found) =
      elim (Bool-cases (has_name host (plugin_name host path s) w.manager.plugins)) [
        | inl taken ↦ rw taken (record { manager = refl; references = λ h. ground arith })
        | inr free ↦ rw free (record {
          library = handle;
          state = s;
          below = below;
          found = found;
          fresh = free;
          manager = refl;
          references = λ h. ground arith;
        })
      ]

  start_plugin-Promised :
      (w : World S) (path : Text) (handle : ℕ) (s : S)
      → Opened w path handle
      → Promised w path (start_plugin host (call host w (opens handle)) path handle s)
  unfolding start_plugin call
  start_plugin-Promised w path handle s o = elim (Bool-cases (host.on_start s).0) [
    | inl thrown ↦ rw thrown (record { manager = refl; references = λ h. ground arith })
    | inr fine ↦ rw fine (store_plugin-Promised w path handle (host.on_start s).1 o)
  ]

  create_plugin-Promised :
      (w : World S) (path : Text) (handle : ℕ)
      → Opened w path handle
      → Promised w path (create_plugin host (call host w (opens handle)) path handle)
  unfolding create_plugin call
  create_plugin-Promised w path handle o = with_created (host.create handle)
    where
      closed_again : Refused w (call host (call host w (opens handle)) (closes handle))
      closed_again = record { manager = refl; references = λ h. ground arith }

      with_created :
          (c : Created S)
          → Promised w path (elim c as (λ c. World S × Bool) [
            | no_symbol ↦ (call host (call host w (opens handle)) (closes handle), false)
            | null ↦ (call host (call host w (opens handle)) (closes handle), false)
            | throws ↦ (call host (call host w (opens handle)) (closes handle), false)
            | object s ↦ start_plugin host (call host w (opens handle)) path handle s
          ])
      with_created no_symbol = closed_again
      with_created null = closed_again
      with_created throws = closed_again
      with_created (object s) = start_plugin-Promised w path handle s o

  -- When loadPlugin returns true there was room below the maximum, dlopen gave the library, no loaded
  -- plugin had the new name, and what changed is: the new plugin is last, its handle stands under its
  -- name, and its library alone has a reference more. When it returns false the manager is as before,
  -- and what was opened has been closed.
  pub load_plugin-Promised : (w : World S) (path : Text) → Promised w path (load_plugin host w path)
  unfolding load_plugin
  load_plugin-Promised w path = elim (Bool-cases (is_empty path)) [
    | inl e ↦ rw e untouched
    | inr e ↦ elim (Bool-cases (host.exists path)) [
      | inr e' ↦ rw (e, e') untouched
      | inl e' ↦ elim (Bool-cases (leb w.manager.max_plugins (length w.manager.plugins))) [
        | inl e'' ↦ rw (e, e', e'') untouched
        | inr e'' ↦ elim (Option-cases (host.open_library path)) [
          | inl missing ↦ rw (e, e', e'', missing) untouched
          | inr (handle, found) ↦
              rw (e, e', e'', found)
                (create_plugin-Promised w path handle (ground (arith, e''), found))
        ]
      ]
    ]
  ]
    where
      untouched : Refused w w
      untouched = record { manager = refl; references = λ h. refl }
