-- ===== src/PluginManager/Tests.antt =====
-- The theorems on the plugin manager applied to concrete plugins.
use beatrice.Base.{
  ℕ, ◌+◌, ◌≡◌, ◌≤◌, ◌<◌, refl, true, false, [], ◌∷◌, none, some, codes, text_eq, if◌then◌else◌,
}
use beatrice.Base.Maps.{lookup, insert}
use beatrice.PluginManager.{
  Host, Plugin, World, object, load_plugin, create_plugin, start_plugin, store_plugin, has_name,
  plugin_name, new_manager, call, process_packets,
}
use beatrice.PluginManager.Held.{named}
use beatrice.PluginManager.Libraries.{opened, closed}
use beatrice.PluginManager.Reached.{begin, after, loads, Reach-opened}
use beatrice.PluginManager.Loads.{Promised, load_plugin-Promised}
use beatrice.PluginManager.Batches.{process_each, process_packets-each}

-- A plugin counts its packets, which are numbers, and adds 1 to each. Its name goes with its library.
abbrev counting : Host ℕ ℕ
counting = record {
  exists = λ path. true;
  stem = λ path. path;
  open_library = λ path. if text_eq path (codes "a.so") then some 1 else none;
  create = λ h. object 0;
  on_start = λ s. (false, s);
  on_stop = λ s. (false, s);
  on_packet = λ s p. (false, s + 1, p + 1);
  get_name = λ s. codes "counter";
}

abbrev with_one : World ℕ
with_one = (load_plugin counting (new_manager ℕ) (codes "a.so")).0

abbrev one_plugin : Plugin ℕ
one_plugin = record { library = 1; state = 0 }

Reach-opened_example :
    (named counting (codes "counter") with_one.manager.plugins ≤ 1)
    × (closed 1 with_one.calls < opened 1 with_one.calls)
unfolding load_plugin create_plugin start_plugin store_plugin has_name plugin_name new_manager call
    text_eq lookup insert
Reach-opened_example =
    Reach-opened counting (λ s packet. refl) with_one 0 one_plugin
      (after begin (loads (codes "a.so"))) refl refl

load_plugin-Promised_example :
    Promised counting
      (new_manager ℕ)
      (codes "a.so")
      (load_plugin counting (new_manager ℕ) (codes "a.so"))
load_plugin-Promised_example = load_plugin-Promised counting (new_manager ℕ) (codes "a.so")

process_packets-each_example :
    process_packets counting with_one (4 ∷ 9 ∷ []) ≡ process_each counting with_one (4 ∷ 9 ∷ [])
process_packets-each_example =
    process_packets-each counting (λ s packet. refl) with_one (4 ∷ 9 ∷ [])
