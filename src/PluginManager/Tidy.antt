-- ===== src/PluginManager/Tidy.antt =====
-- What loadPlugin keeps of the names, the handles and the references to the libraries.
use beatrice.Base.{
  ℕ, suc, ◌+◌, ◌≤◌, ◌≡◌, subst, Bool, true, false, [], ◌∷◌, ◌++◌, Text, is_empty, text_eq,
  text_eq_iff, if◌then◌else◌, ◌==◌, leb, length, Bool-cases, Option-cases, inl, inr, All, arith,
}
use beatrice.PluginManager.{
  Host, opens, closes, starts, destroys, World, call, Created, no_symbol, null, throws, object,
  has_name, plugin_name, store_plugin, start_plugin, create_plugin, load_plugin,
}
use beatrice.PluginManager.Held.{named, HasHandle, has_name-named, named-append, insert-HasHandle}
use beatrice.PluginManager.Libraries.{opened, closed, entries, entries-insert}

module _ {S P : Type 0} (host : Host S P) where
  pub record IsTidy (w : World S) : Type 0 where
    pub unique : (n : Text) → is_empty n ≡ false → named host n w.manager.plugins ≤ 1
    pub held : All (HasHandle host w.manager.handles) w.manager.plugins
    pub balanced : (h : ℕ) → closed h w.calls + entries h w.manager.handles ≤ opened h w.calls

  -- With a reference more to one library.
  record IsPending (handle : ℕ) (w : World S) : Type 0 where
    unique : (n : Text) → is_empty n ≡ false → named host n w.manager.plugins ≤ 1
    held : All (HasHandle host w.manager.handles) w.manager.plugins
    balanced :
        (h : ℕ)
        → (if handle == h
            then suc (closed h w.calls + entries h w.manager.handles)
            else closed h w.calls + entries h w.manager.handles)
          ≤ opened h w.calls

  closed-IsTidy :
      (w : World S) (handle : ℕ) → IsPending handle w → IsTidy (call host w (closes handle))
  unfolding call
  closed-IsTidy w handle p = record {
    unique = p.unique;
    held = p.held;
    balanced = λ h. ground (arith, p.balanced h);
  }

  destroyed-IsTidy : (w : World S) (handle : ℕ) → IsTidy w → IsTidy (call host w (destroys handle))
  unfolding call
  destroyed-IsTidy w handle p = record {
    unique = p.unique;
    held = p.held;
    balanced = λ h. p.balanced h;
  }

  new_name_unique :
      (w : World S) (path : Text) (handle : ℕ) (s : S)
      → ((n : Text) → is_empty n ≡ false → named host n w.manager.plugins ≤ 1)
      → has_name host (plugin_name host path s) w.manager.plugins ≡ false
      → (n : Text) → is_empty n ≡ false
      → named host n (w.manager.plugins ++ record { library = handle; state = s } ∷ []) ≤ 1
  unfolding plugin_name
  new_name_unique w path handle s unique free n full =
      elim (Bool-cases (text_eq (host.get_name s) n)) [
        | inr apart ↦ ground (
          arith,
          apart,
          unique n full,
          named-append host n w.manager.plugins (record { library = handle; state = s }),
        )
        | inl same ↦ omega (
          arith,
          one same,
          named-append host n w.manager.plugins (record { library = handle; state = s }),
          none_before same,
        )
      ]
    where
      one :
          text_eq (host.get_name s) n ≡ true
          → named host n (record { library = handle; state = s } ∷ []) ≡ 1
      one same = ground (arith, same)

      none_before : text_eq (host.get_name s) n ≡ true → named host n w.manager.plugins ≡ 0
      none_before same = has_name-named host n w.manager.plugins (
          subst (λ m. has_name host m w.manager.plugins ≡ false)
            (ground (arith, full, (text_eq_iff (host.get_name s) n).0 same)) free)

  store_plugin-IsTidy :
      (w : World S) (path : Text) (handle : ℕ) (s : S)
      → IsPending handle w
      → IsTidy (store_plugin host w path handle s).0
  unfolding store_plugin plugin_name
  store_plugin-IsTidy w path handle s p =
      elim (Bool-cases (has_name host (plugin_name host path s) w.manager.plugins)) [
        | inl taken ↦
            rw taken
              (destroyed-IsTidy (call host w (closes handle)) handle (closed-IsTidy w handle p))
        | inr free ↦ rw free (record {
          unique = λ n full. new_name_unique w path handle s p.unique free n full;
          held =
              insert-HasHandle host (plugin_name host path s) handle w.manager.handles s
                w.manager.plugins (λ full. ground (arith, full)) free p.held;
          balanced = λ h. ground (
            arith,
            p.balanced h,
            entries-insert (plugin_name host path s) handle h w.manager.handles,
          );
        })
      ]

  start_plugin-IsTidy :
      (w : World S) (path : Text) (handle : ℕ) (s : S)
      → IsPending handle w
      → IsTidy (start_plugin host w path handle s).0
  unfolding start_plugin call
  start_plugin-IsTidy w path handle s p = elim (Bool-cases (host.on_start s).0) [
    | inl thrown ↦ rw thrown (
        destroyed-IsTidy (call host (call host w (starts handle)) (closes handle)) handle
          (closed-IsTidy (call host w (starts handle)) handle started))
    | inr fine ↦
        rw fine (
          store_plugin-IsTidy (call host w (starts handle)) path handle (host.on_start s).1 started)
  ]
    where
      started : IsPending handle (call host w (starts handle))
      started = record { unique = p.unique; held = p.held; balanced = λ h. p.balanced h }

  create_plugin-IsTidy :
      (w : World S) (path : Text) (handle : ℕ)
      → IsPending handle w
      → IsTidy (create_plugin host w path handle).0
  unfolding create_plugin
  create_plugin-IsTidy w path handle p = with_created (host.create handle)
    where
      with_created :
          (c : Created S)
          → IsTidy
              (elim c as (λ c. World S × Bool) [
                | no_symbol ↦ (call host w (closes handle), false)
                | null ↦ (call host w (closes handle), false)
                | throws ↦ (call host w (closes handle), false)
                | object s ↦ start_plugin host w path handle s
              ]).0
      with_created no_symbol = closed-IsTidy w handle p
      with_created null = closed-IsTidy w handle p
      with_created throws = closed-IsTidy w handle p
      with_created (object s) = start_plugin-IsTidy w path handle s p

  pub load_plugin-IsTidy :
      (w : World S) (path : Text) → IsTidy w → IsTidy (load_plugin host w path).0
  unfolding load_plugin call
  load_plugin-IsTidy w path v = elim (Bool-cases (is_empty path)) [
    | inl e ↦ rw e v
    | inr e ↦ elim (Bool-cases (host.exists path)) [
      | inr e' ↦ rw (e, e') v
      | inl e' ↦ elim (Bool-cases (leb w.manager.max_plugins (length w.manager.plugins))) [
        | inl e'' ↦ rw (e, e', e'') v
        | inr e'' ↦ elim (Option-cases (host.open_library path)) [
          | inl closed_still ↦ rw (e, e', e'', closed_still) v
          | inr (handle, found) ↦
              rw (e, e', e'', found)
                (create_plugin-IsTidy (call host w (opens handle)) path handle (record {
                  unique = v.unique;
                  held = v.held;
                  balanced = λ h. ground (arith, v.balanced h);
                }))
        ]
      ]
    ]
  ]
