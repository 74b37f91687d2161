-- ===== src/Server/Plugins.antt =====
-- server/Server.go: the clients of the plugins of a site, as updateExtInfo brings them in line with the
-- configuration. What goes to the log and the closing of connections are left out.
use vweb.Common.{
  Bool, false, ◌||◌, not, Option, none, some, List, [], ◌∷◌, Bytes, same, lookup, insert, erase,
  is_empty, if◌then◌else◌,
}
use vweb.Vmap.Assoc.{visits}

-- The configuration of a plugin; `rest` is all but what is read here.
pub record Plugin (P : Type 0) : Type 0 where
  pub status : Bool
  pub addr : Bytes
  pub rest : P

-- The clients of a kind of plugin, with what package config does to them: `merge` is the merging with
-- the public settings where there is something to merge and it succeeds, `configure` writes to a
-- client and tells whether it succeeded.
pub record PluginKind : Type 1 where
  pub Conf : Type 0
  pub Client : Type 0
  pub new_client : Client
  pub merge : Plugin Conf → Option (Plugin Conf)
  pub configure : Plugin Conf → Client → Client × Bool

unfoldable pub str_slice_contains : List Bytes → Bytes → Bool
str_slice_contains [] c = false
str_slice_contains (v ∷ ss) c = same v c || str_slice_contains ss c

module _ (kind : PluginKind) where
  abbrev pub Conf : Type 0
  Conf = Plugin (kind.Conf)

  -- The loop that merges the plugins of a site.
  unfoldable pub merge_plugins : List (Bytes × Conf) → List (Bytes × Conf)
  merge_plugins [] = []
  merge_plugins ((name, p) ∷ ps) = elim (kind.merge p) [
    | none ↦ (name, p) ∷ merge_plugins ps
    | some q ↦ (name, q) ∷ merge_plugins ps
  ]

  -- One round of the loop over the plugins of a site that is on. A client that is in the map is
  -- written to there, also where its configuration fails.
  unfoldable pub config_plugin :
      Bytes → Conf → List (Bytes × kind.Client) → List (Bytes × kind.Client)
  config_plugin name p clients =
      if not p.status || is_empty p.addr then clients else elim (lookup name clients) [
        | none ↦
            let (c, ok) = kind.configure p kind.new_client in
            if ok then insert name c clients else clients
        | some old ↦ insert name (kind.configure p old).0 clients
      ]

  unfoldable pub config_plugins :
      List (Bytes × Conf) → List (Bytes × kind.Client) → List (Bytes × kind.Client)
  unfolding config_plugin
  config_plugins [] clients = clients
  config_plugins ((name, p) ∷ ps) clients = config_plugins ps (config_plugin name p clients)

  unfoldable pub effective_names : List (Bytes × Conf) → List Bytes
  effective_names [] = []
  effective_names ((name, p) ∷ ps) =
      let rest = effective_names ps in if p.status then name ∷ rest else rest

  -- The clients without an effective name leave the map.
  unfoldable pub drop_plugins :
      List (Bytes × kind.Client)
      → List Bytes
      → List (Bytes × kind.Client)
      → List (Bytes × kind.Client)
  drop_plugins [] names clients = clients
  drop_plugins ((name, c) ∷ es) names clients =
      let rest = drop_plugins es names in
      if str_slice_contains names name then rest clients else rest (erase name clients)

  -- What updateExtInfo does with the plugins of one kind.
  unfoldable pub update_plugins :
      Bool → List (Bytes × Conf) → List (Bytes × kind.Client) → List (Bytes × kind.Client)
  unfolding config_plugins effective_names drop_plugins
  update_plugins status ps clients =
      let now = if status then config_plugins ps clients else clients in
      drop_plugins (visits (kind.Client) now) (if status then effective_names ps else []) now
