-- ===== src/PluginManager/Reached.antt =====
-- What any sequence of calls of the plugin manager keeps.
use beatrice.Base.{
  ℕ, ◌≤◌, ◌<◌, ◌≡◌, refl, sym, ap, subst, true, false, List, [], ◌∷◌, none, some, Text, is_empty,
  ◌||◌, get_elem?, Bool-cases, Option-cases, ◌⊎◌, inl, inr, All, All-get_elem?, arith,
}
use beatrice.Base.Maps.{lookup, erase}
use beatrice.PluginManager.{
  Host, Plugin, World, new_manager, call, has_name, find_plugin, erase_plugin, load_plugin,
  stop_plugin, unload_plugin, reload_plugin, process_packet, process_packets, set_max_plugins, pass,
  pass_batch,
}
use beatrice.PluginManager.Held.{
  named, HasHandle, named-erase_plugin, erase-HasHandle, Updated, Updated-named, Updated-HasHandle,
  pass-Updated, pass_batch-Updated,
}
use beatrice.PluginManager.Tidy.{IsTidy, load_plugin-IsTidy}
use beatrice.PluginManager.Libraries.{opened, closed, entries, entries-lookup, entries-erase}

-- The calls of the manager's users.
pub data Step {S P : Type 0} (host : Host S P) : World S → World S → Type 0 where
  loads : {w : World S} (path : Text) → Step host w (load_plugin host w path).0
  unloads : {w : World S} (name : Text) → Step host w (unload_plugin host w name)
  reloads : {w : World S} (name : Text) → Step host w (reload_plugin host w name)
  processes : {w : World S} (packet : P) → Step host w (process_packet host w packet).0
  processes_batch :
      {w : World S} (packets : List P) → Step host w (process_packets host w packets).0
  limits : {w : World S} (n : ℕ) → Step host w (set_max_plugins host w n)

pub data Reach {S P : Type 0} (host : Host S P) : World S → Type 0 where
  begin : Reach host (new_manager S)
  after : {w w' : World S} → Reach host w → Step host w w' → Reach host w'

module _ {S P : Type 0} (host : Host S P) where
  erase_plugin-none :
      (name : Text) (ps : List (Plugin S))
      → find_plugin host name ps ≡ none
      → erase_plugin host name ps ≡ ps
  unfolding find_plugin erase_plugin
  erase_plugin-none name [] e = refl
  erase_plugin-none name (p ∷ ps) e = ground (arith, e, erase_plugin-none name ps)

  record Stopped (w : World S) (name : Text) (out : World S) : Type 0 where
    plugins : out.manager.plugins ≡ erase_plugin host name w.manager.plugins
    handles : out.manager.handles ≡ w.manager.handles
    opens_same : (h : ℕ) → opened h out.calls ≡ opened h w.calls
    closes_same : (h : ℕ) → closed h out.calls ≡ closed h w.calls

  stop_plugin-Stopped : (w : World S) (name : Text) → Stopped w name (stop_plugin host w name)
  unfolding stop_plugin call
  stop_plugin-Stopped w name = elim (Option-cases (find_plugin host name w.manager.plugins)) [
    | inl missing ↦
        rw (stop_plugin, missing)
          (record {
            plugins = sym (erase_plugin-none name w.manager.plugins missing);
            handles = refl;
            opens_same = λ h. refl;
            closes_same = λ h. refl;
          })
    | inr (p, found) ↦
        rw (stop_plugin, found)
          (record {
            plugins = refl;
            handles = refl;
            opens_same = λ h. refl;
            closes_same = λ h. refl;
          })
  ]

  at_most_one :
      (w : World S) (name : Text)
      → IsTidy host w
      → (is_empty name ≡ true) ⊎ (named host name w.manager.plugins ≤ 1)
  at_most_one w name v = elim (Bool-cases (is_empty name)) [
    | inl e ↦ inl e
    | inr full ↦ inr (v.unique name full)
  ]

  unload_plugin-IsTidy :
      (w : World S) (name : Text) → IsTidy host w → IsTidy host (unload_plugin host w name)
  unfolding unload_plugin call
  unload_plugin-IsTidy w name v = elim (Option-cases (lookup name w.manager.handles)) [
    | inl missing ↦ rw (unload_plugin, missing) v
    | inr (handle, found) ↦
        rw (unload_plugin, found)
          (record {
            unique = λ n full. omega (
              arith,
              ap (named host n) s.plugins,
              named-erase_plugin host n name w.manager.plugins,
              v.unique n full,
            );
            held =
                subst
                  (λ ps.
                    All (HasHandle host (erase name (stop_plugin host w name).manager.handles)) ps)
                  (sym s.plugins)
                  (subst
                    (λ m.
                      All (HasHandle host (erase name m))
                        (erase_plugin host name w.manager.plugins))
                    (sym s.handles)
                    (erase-HasHandle host name w.manager.handles w.manager.plugins
                      (at_most_one w name v) v.held));
            balanced = λ h. ground (
              arith,
              ap (λ m. entries h (erase name m)) s.handles,
              entries-erase name handle h w.manager.handles found,
              s.opens_same h,
              s.closes_same h,
              v.balanced h,
            );
          })
  ]
    where
      s : Stopped w name (stop_plugin host w name)
      s = stop_plugin-Stopped w name

  reload_plugin-IsTidy :
      (w : World S) (name : Text) → IsTidy host w → IsTidy host (reload_plugin host w name)
  unfolding reload_plugin
  reload_plugin-IsTidy w name v = elim (Bool-cases (has_name host name w.manager.plugins)) [
    | inr missing ↦ rw missing v
    | inl there ↦ elim (Option-cases (lookup name w.manager.handles)) [
      | inl unheld ↦ rw (there, unheld) v
      | inr (handle, found) ↦ rw (there, found) (unload_plugin-IsTidy w name v)
    ]
  ]

  Updated-IsTidy :
      (w : World S) (ps : List (Plugin S))
      → Updated host w.manager.plugins ps
      → IsTidy host w
      → IsTidy host (record w { manager = record w.manager { plugins = ps } })
  Updated-IsTidy w ps u v = record {
    unique = λ n full. omega (arith, Updated-named host n w.manager.plugins ps u, v.unique n full);
    held = Updated-HasHandle host w.manager.handles w.manager.plugins ps u v.held;
    balanced = v.balanced;
  }

  module _
      (keeps : (s : S) (packet : P)
        → host.get_name (host.on_packet s packet).1 ≡ host.get_name s) where
    IsTidy-Step : {w w' : World S} → IsTidy host w → Step host w w' → IsTidy host w'
    unfolding process_packet process_packets set_max_plugins
    IsTidy-Step v (loads {w} path) = load_plugin-IsTidy host w path v
    IsTidy-Step v (unloads {w} name) = unload_plugin-IsTidy w name v
    IsTidy-Step v (reloads {w} name) = reload_plugin-IsTidy w name v
    IsTidy-Step v (processes {w} packet) =
        Updated-IsTidy w (pass host w.manager.plugins packet).0
          (pass-Updated host keeps w.manager.plugins packet) v
    IsTidy-Step v (processes_batch {w} packets) =
        elim (Bool-cases (is_empty w.manager.plugins || is_empty packets)) [
          | inl nothing ↦ rw nothing v
          | inr work ↦ rw work (
              Updated-IsTidy w (pass_batch host w.manager.plugins packets).0
                (pass_batch-Updated host keeps w.manager.plugins packets) v)
        ]
    IsTidy-Step v (limits {w} n) = record {
      unique = v.unique;
      held = v.held;
      balanced = v.balanced;
    }

    Reach-IsTidy : {w : World S} → Reach host w → IsTidy host w
    unfolding new_manager
    Reach-IsTidy begin = record {
      unique = λ n full. omega arith;
      held = tt;
      balanced = λ h. omega arith;
    }
    Reach-IsTidy (after r s) = IsTidy-Step (Reach-IsTidy r) s

    -- Where onPacket does not change what getName gives, after any calls of the manager's functions:
    -- a name that is not empty is that of one loaded plugin at most, and if it is that of the plugin at
    -- a place, the library of that plugin has been opened more often than closed.
    pub Reach-opened :
        (w : World S) (i : ℕ) (p : Plugin S)
        → Reach host w
        → get_elem? w.manager.plugins i ≡ some p
        → is_empty (host.get_name p.state) ≡ false
        → (named host (host.get_name p.state) w.manager.plugins ≤ 1)
          × (closed p.library w.calls < opened p.library w.calls)
    Reach-opened w i p r found full =
        let v = Reach-IsTidy r in
        (
          v.unique (host.get_name p.state) full,
          omega (
            arith,
            entries-lookup (host.get_name p.state) p.library w.manager.handles (
                All-get_elem? (HasHandle host w.manager.handles) w.manager.plugins i v.held found
                  full),
            v.balanced p.library,
          ),
        )
