-- ===== src/PluginManager.antt =====
-- The class PluginManager of include/beatrice/PluginManager.hpp and src/PluginManager.cpp. What it
-- calls is a parameter: the dynamic linker, the file system, and the plugins.
pub mod Held
pub mod Libraries
pub mod Tidy
pub mod Reached
pub mod Loads
pub mod Batches
mod Tests
use beatrice.Base.{
  ℕ, zero, suc, ◌+◌, ◌≤◌, ◌≡◌, Bool, true, false, not, ◌&&◌, ◌||◌, List, [], ◌∷◌, ◌++◌, Option,
  none, some, map, length, Text, is_empty, text_eq, if◌then◌else◌, leb,
}
use beatrice.Base.Maps.{Map, lookup, insert, erase}

-- What comes of dlsym for createPlugin and of the call.
pub data Created (S : Type 0) : Type 0 where
  no_symbol null throws : Created S
  object : S → Created S

-- S is what a plugin object holds, and P a packet. A callback's Boolean is true when it throws a
-- std::exception. dlopen of one path gives one handle: the linker counts the references.
pub record Host (S P : Type 0) : Type 0 where
  pub exists : Text → Bool
  pub stem : Text → Text
  pub open_library : Text → Option ℕ
  pub create : ℕ → Created S
  pub on_start : S → Bool × S
  pub on_stop : S → Bool × S
  pub on_packet : S → P → Bool × S × P
  pub get_name : S → Text

-- A plugin object, and the handle of the library its code is in.
pub record Plugin (S : Type 0) : Type 0 where
  pub library : ℕ
  pub state : S

-- The calls that matter to the linker, with the library's handle.
pub data Call : Type 0 where
  opens closes starts stops destroys : ℕ → Call

pub record PluginManager (S : Type 0) : Type 0 where
  pub plugins : List (Plugin S)
  pub handles : Map ℕ
  pub max_plugins : ℕ

-- The manager, and the calls it has made, the last one first.
pub record World (S : Type 0) : Type 0 where
  pub manager : PluginManager S
  pub calls : List Call

unfoldable pub new_manager : (S : Type 0) → World S
new_manager S = record {
  manager = record { plugins = []; handles = []; max_plugins = 10 };
  calls = [];
}

module _ {S P : Type 0} (host : Host S P) where
  unfoldable pub call : World S → Call → World S
  call w c = record w { calls = c ∷ w.calls }

  unfoldable pub has_name : Text → List (Plugin S) → Bool
  has_name name [] = false
  has_name name (p ∷ ps) = text_eq (host.get_name p.state) name || has_name name ps

  -- std::find_if for the name.
  unfoldable pub find_plugin : Text → List (Plugin S) → Option (Plugin S)
  find_plugin name [] = none
  find_plugin name (p ∷ ps) =
      if text_eq (host.get_name p.state) name then some p else find_plugin name ps

  -- The vector without the plugin that std::find_if gives.
  unfoldable pub erase_plugin : Text → List (Plugin S) → List (Plugin S)
  erase_plugin name [] = []
  erase_plugin name (p ∷ ps) =
      if text_eq (host.get_name p.state) name then ps else p ∷ erase_plugin name ps

  unfoldable pub plugin_name : Text → S → Text
  plugin_name path s = if is_empty (host.get_name s) then host.stem path else host.get_name s

  -- The object is destroyed at the return, after dlclose.
  unfoldable pub store_plugin : World S → Text → ℕ → S → World S × Bool
  unfolding call
  store_plugin w path handle s =
      if has_name (plugin_name path s) w.manager.plugins
      then (call (call w (closes handle)) (destroys handle), false)
      else (
        record w {
          manager = record w.manager {
            plugins = w.manager.plugins ++ record { library = handle; state = s } ∷ [];
            handles = insert (plugin_name path s) handle w.manager.handles;
          };
        },
        true,
      )

  unfoldable pub start_plugin : World S → Text → ℕ → S → World S × Bool
  unfolding call
  start_plugin w path handle s =
      if (host.on_start s).0
      then (call (call (call w (starts handle)) (closes handle)) (destroys handle), false)
      else store_plugin (call w (starts handle)) path handle (host.on_start s).1

  unfoldable pub create_plugin : World S → Text → ℕ → World S × Bool
  unfolding call
  create_plugin w path handle = elim (host.create handle) [
    | no_symbol ↦ (call w (closes handle), false)
    | null ↦ (call w (closes handle), false)
    | throws ↦ (call w (closes handle), false)
    | object s ↦ start_plugin w path handle s
  ]

  unfoldable pub load_plugin : World S → Text → World S × Bool
  unfolding call
  load_plugin w path =
      if is_empty path
      then (w, false)
      else if not (host.exists path)
      then (w, false)
      else if leb w.manager.max_plugins (length w.manager.plugins)
      then (w, false)
      else elim (host.open_library path) [
        | none ↦ (w, false)
        | some handle ↦ create_plugin (call w (opens handle)) path handle
      ]

  -- onStop and the object's destruction; a std::exception of onStop is caught.
  unfoldable pub stop_plugin : World S → Text → World S
  unfolding call
  stop_plugin w name = elim (find_plugin name w.manager.plugins) [
    | none ↦ w
    | some p ↦ record (call (call w (stops p.library)) (destroys p.library)) {
      manager = record w.manager { plugins = erase_plugin name w.manager.plugins };
    }
  ]

  unfoldable pub unload_plugin : World S → Text → World S
  unfolding call stop_plugin
  unload_plugin w name = elim (lookup name w.manager.handles) [
    | none ↦ w
    | some handle ↦
        let stopped = call (stop_plugin w name) (closes handle) in
        record stopped {
          manager = record stopped.manager { handles = erase name stopped.manager.handles };
        }
  ]

  -- The path is not kept, so that nothing is loaded again.
  unfoldable pub reload_plugin : World S → Text → World S
  unfolding unload_plugin
  reload_plugin w name =
      if has_name name w.manager.plugins
      then elim (lookup name w.manager.handles) [ none ↦ w | some handle ↦ unload_plugin w name ]
      else w

  -- One packet through the plugins in order; who throws keeps what it has done.
  unfoldable pub pass : List (Plugin S) → P → List (Plugin S) × P
  pass [] packet = ([], packet)
  pass (p ∷ ps) packet =
      let out = host.on_packet p.state packet in
      let rest = pass ps out.2 in (record p { state = out.1 } ∷ rest.0, rest.1)

  unfoldable pub process_packet : World S → P → World S × P
  unfolding pass
  process_packet w packet = (
    record w { manager = record w.manager { plugins = (pass w.manager.plugins packet).0 } },
    (pass w.manager.plugins packet).1,
  )

  -- One plugin over a batch: from the packet on which it throws, the rest is left as it is.
  unfoldable pub pass_all : S → List P → S × List P
  pass_all s [] = (s, [])
  pass_all s (packet ∷ packets) =
      let out = host.on_packet s packet in
      let rest = pass_all out.1 packets in
      if out.0 then (out.1, out.2 ∷ packets) else (rest.0, out.2 ∷ rest.1)

  unfoldable pub pass_batch : List (Plugin S) → List P → List (Plugin S) × List P
  pass_batch [] packets = ([], packets)
  pass_batch (p ∷ ps) packets =
      let out = pass_all p.state packets in
      let rest = pass_batch ps out.1 in (record p { state = out.0 } ∷ rest.0, rest.1)

  -- An empty batch is turned away before the plugins.
  unfoldable pub process_packets : World S → List P → World S × List P
  unfolding pass_batch
  process_packets w packets =
      if is_empty w.manager.plugins || is_empty packets then (w, packets) else (
        record w {
          manager = record w.manager { plugins = (pass_batch w.manager.plugins packets).0 };
        },
        (pass_batch w.manager.plugins packets).1,
      )

  unfoldable pub has_plugin : World S → Text → Bool
  has_plugin w name = has_name name w.manager.plugins

  unfoldable pub get_loaded_plugin_names : World S → List Text
  get_loaded_plugin_names w = map (λ p. host.get_name p.state) w.manager.plugins

  unfoldable pub get_plugin_count : World S → ℕ
  get_plugin_count w = length w.manager.plugins

  unfoldable pub set_max_plugins : World S → ℕ → World S
  set_max_plugins w n = record w { manager = record w.manager { max_plugins = n } }

  -- The destructor: onStop from the last plugin to the first, dlclose of every handle, and only then
  -- the objects.
  unfoldable pub stop_all : World S → List (Plugin S) → World S
  unfolding call
  stop_all w [] = w
  stop_all w (p ∷ ps) = call (stop_all w ps) (stops p.library)

  unfoldable pub close_all : World S → Map ℕ → World S
  unfolding call
  close_all w [] = w
  close_all w ((name, handle) ∷ handles) = close_all (call w (closes handle)) handles

  unfoldable pub destroy_all : World S → List (Plugin S) → World S
  unfolding call
  destroy_all w [] = w
  destroy_all w (p ∷ ps) = destroy_all (call w (destroys p.library)) ps

  unfoldable pub destroy_manager : World S → World S
  unfolding stop_all close_all destroy_all
  destroy_manager w =
      let stopped = stop_all w w.manager.plugins in
      let closed = close_all stopped w.manager.handles in
      let destroyed = destroy_all closed w.manager.plugins in
      record destroyed { manager = record w.manager { plugins = []; handles = [] } }
