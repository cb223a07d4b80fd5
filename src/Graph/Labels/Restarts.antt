-- ===== src/Graph/Labels/Restarts.antt =====
-- The graph of nexus/internal/graph/engine.go over the restarts of its process: each makes a new engine of the same
-- configuration, which may load a snapshot that was saved before.
use mmh.Prelude.{◌≡◌, ℕ, String, Bool, Option, none, some, List, [], ◌∷◌, All, Map, Holds}
use mmh.Numbers.{Numbers}
use mmh.Graph.{Config, Engine, new_engine}
use mmh.Graph.Search.Walk.{Walk}
use mmh.Graph.Upkeep.{
  GraphSnapshot, Decoded, decoded, end_of_file, bad_file, save_snapshot, load_snapshot,
}
use mmh.Graph.Labels.Firewall.{IsClear, IsFenced, Outs}
use mmh.Graph.Labels.Exchanges.{Call, call}

module _ ⦃N : Numbers⦄ where
  -- The engine of the running process, and the files.
  pub record World (File : Type 0) : Type 0 where
    pub engine : Engine
    pub files : Map File

  pub data Action : Type 0 where
    calls : Call → Action
    saves : ℕ → String → Action
    loads : String → Action
    restarts : Action

  module _ {File : Type 0} (encode : GraphSnapshot → Option File) (decode : File → Decoded) where
    -- `none` is a panic, or a search without fuel.
    unfoldable pub act : Config → Action → World File → Option (World File)
    act c (calls k) w = elim (call k w.engine) [
      | none ↦ none
      | some e ↦ some (record w { engine = e })
    ]
    act c (saves now path) w =
        some (record w { files = (save_snapshot encode now path w.engine w.files).0 })
    act c (loads path) w =
        some (record w { engine = (load_snapshot decode path w.files w.engine).0 })
    act c restarts w = some (record w { engine = new_engine c })

    unfoldable pub live : Config → List Action → World File → Option (World File)
    live c [] w = some w
    live c (a ∷ as') w = elim (act c a w) [ none ↦ none | some w' ↦ live c as' w' ]

  -- A file that gives a snapshot gives one whose edges touch no exchange.
  abbrev IsSafe : Map Bool → ℕ → Decoded → Type 0
  IsSafe cexs cap (decoded snap) =
      Holds (Outs cexs cap) snap.adj_out × Holds (All (IsClear cexs)) snap.adj_in
  IsSafe cexs cap end_of_file = Unit
  IsSafe cexs cap bad_file = Unit

  module _ {File : Type 0} (encode : GraphSnapshot → Option File) (decode : File → Decoded)
      (decodes : (snap : GraphSnapshot) (file : File)
        → encode snap ≡ some file
        → decode file ≡ decoded snap)
      (cexs : Map Bool) (cap : ℕ) where
    record IsGuarded (w : World File) : Type 0 where
      fenced : IsFenced cexs cap w.engine
      safe : Holds (λ file. IsSafe cexs cap (decode file)) w.files
