-- ===== src/Graph/Upkeep/Snapshots.antt =====
-- Saving the graph of nexus/internal/graph/persistence.go and loading it again.
use mmh.Prelude.{
  ◌≡◌, refl, ap, sym, subst, ◌↔◌, ◌∙◌, inl, inr, ℕ, String, Bool, true, Option, some, [], ◌∷◌, ◌-◌,
  arith, length, Map, lookup-insert_self, Option-cases,
}
use mmh.Prelude.Int.{ℤ, pos}
use mmh.Numbers.{Numbers}
use mmh.Graph.{GraphNode, Engine}
use mmh.Graph.Queries.{
  EntityReport, analyze_one, analyze, cluster_size, blank_report, confidence_of,
  calculate_risk_score, report_on, MayReport, not_found, found,
}
use mmh.Graph.Upkeep.{
  GraphSnapshot, Decoded, decoded, snapshot_of, restore, save_snapshot, load_snapshot,
}

module _ ⦃N : Numbers⦄ {File : Type 0} (encode : GraphSnapshot → Option File)
    (decode : File → Decoded)
    (decodes : (snap : GraphSnapshot) (file : File)
      → encode snap ≡ some file
      → decode file ≡ decoded snap) where
  load-save :
      (now : ℕ) (path : String) (e e' : Engine) (files : Map File)
      → (save_snapshot encode now path e files).1 ≡ true
      → load_snapshot decode path (save_snapshot encode now path e files).0 e'
        ≡ (restore (snapshot_of now e) e', true)
  unfolding save_snapshot load_snapshot
  load-save now path e e' files saved = elim (Option-cases (encode (snapshot_of now e))) [
    | inl fails ↦ ground (arith, saved, fails)
    | inr (file, written) ↦ ground (
      arith,
      written,
      decodes (snapshot_of now e) file written,
      lookup-insert_self path file files,
    )
  ]

  -- The parts of an engine that no report depends on.
  abbrev reset : ℤ → ℕ → ℕ → Map Bool → Engine → Engine
  reset nodes edges queries cexs e = record e {
    node_count = nodes;
    edge_count = edges;
    query_count = queries;
    cex_addrs = cexs;
  }

  analyze-reset :
      (i : ℤ) (j k : ℕ) (cexs : Map Bool) (e : Engine) (address : String) (m : Map ℕ)
      (r : EntityReport)
      → analyze (reset i j k cexs e) address m r ≡ analyze e address m r
  unfolding analyze analyze_one
  analyze-reset i j k cexs e address [] r = refl
  analyze-reset i j k cexs e address ((a, d) ∷ m) r =
      analyze-reset i j k cexs e address m (analyze_one e address a d r)

  report_on-reset :
      (i : ℤ) (j k : ℕ) (cexs : Map Bool) (e : Engine) (address : String) (node : GraphNode)
      (m : Map ℕ)
      → report_on (reset i j k cexs e) address node m ≡ report_on e address node m
  unfolding report_on cluster_size
  report_on-reset i j k cexs e address node m =
      let r = record (blank_report address) {
        labels = node.labels;
        cluster_size = cluster_size address e;
      } in
      ap
        (λ (r' : EntityReport). record r' {
          risk_score = calculate_risk_score e.config node r';
          confidence = confidence_of (length m - 1);
        })
        (analyze-reset i j k cexs e address m r)

  from_reset :
      (i : ℤ) (j k : ℕ) (cexs : Map Bool) (e : Engine) (address : String) (r : EntityReport)
      → MayReport (reset i j k cexs e) address r
      → MayReport e address r
  from_reset i j k cexs e address r (not_found absent same) = not_found absent same
  from_reset i j k cexs e address r (found node s order there ends perm same) =
      found node s order there ends perm (same ∙ report_on-reset i j k cexs e address node order)

  to_reset :
      (i : ℤ) (j k : ℕ) (cexs : Map Bool) (e : Engine) (address : String) (r : EntityReport)
      → MayReport e address r
      → MayReport (reset i j k cexs e) address r
  to_reset i j k cexs e address r (not_found absent same) = not_found absent same
  to_reset i j k cexs e address r (found node s order there ends perm same) =
      found node s order there ends perm
        (same ∙ sym (report_on-reset i j k cexs e address node order))

  restored :
      (now : ℕ) (e e' : Engine)
      → e'.config ≡ e.config
      → restore (snapshot_of now e) e'
        ≡ reset (pos (length e.nodes)) e'.edge_count e'.query_count e'.cex_addrs e
  unfolding restore snapshot_of
  restored now e e' same =
      ap
        (λ c. record e {
          config = c;
          node_count = pos (length e.nodes);
          edge_count = e'.edge_count;
          query_count = e'.query_count;
          cex_addrs = e'.cex_addrs;
        })
        same

  -- Where decoding gives back what was encoded: an engine of the same configuration that loads a
  -- snapshot which another has saved reports no error and may give on every address exactly the
  -- reports that the other may give, the order in which a query reads its map being free.
  pub loaded_reports :
      (now : ℕ) (path : String) (e e' : Engine) (files : Map File)
      → e'.config ≡ e.config
      → (save_snapshot encode now path e files).1 ≡ true
      → ((load_snapshot decode path (save_snapshot encode now path e files).0 e').1 ≡ true)
        × ((address : String) (r : EntityReport)
            → MayReport
                (load_snapshot decode path (save_snapshot encode now path e files).0 e').0
                address
                r
              ↔ MayReport e address r)
  loaded_reports now path e e' files same saved =
      let loads = load-save now path e e' files saved in
      let is_reset = ap (λ x. x.0) loads ∙ restored now e e' same in
      (
        ap (λ x. x.1) loads,
        λ address r. (
          λ may.
              from_reset (pos (length e.nodes)) e'.edge_count e'.query_count e'.cex_addrs e address
                r (subst (λ x. MayReport x address r) is_reset may),
          λ may.
              subst (λ x. MayReport x address r) (sym is_reset)
                (to_reset (pos (length e.nodes)) e'.edge_count e'.query_count e'.cex_addrs e address
                  r may),
        ),
      )
