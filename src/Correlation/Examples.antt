-- ===== src/Correlation/Examples.antt =====
-- Tests of the detector of clusters on whole numbers, and its theorems at small runs.
use mmh.Prelude.{
  ◌≡◌, refl, inr, ℕ, suc, ◌≤◌, true, String, none, some, List, [], ◌∷◌, length, arith,
}
use mmh.Prelude.Int.{ℤ, pos, negsuc, ◌*ℤ◌}
use mmh.Numbers.Whole.{whole}
use mmh.Correlation.{
  DetectorConfig, Detector, CrossTokenState, TokenRef, status_rugged, pattern_serial, risk_critical,
  new_detector, get_cluster_state, should_panic_sell, score_impact, update_token_status,
  record_token_launch, mark_rugged,
}
use mmh.Correlation.Clusters.{Call, launches, rugs, run, call, clusters_bounded}
use mmh.Correlation.Rugs.{count_rugged, two_rugs_panic, rug_forgotten}

abbrev config : DetectorConfig
config = record {
  rotation_window_h = 6;
  serial_threshold = 3;
  rotation_drop_pct = pos 50;
  max_clusters_tracked = 2;
}

abbrev rug_pulls : List Call
rug_pulls =
    launches 10 7 "a" (pos 1000) ∷ launches 20 7 "b" (pos 500) ∷ rugs 30 7 "a" ∷ rugs 40 7 "b" ∷ []

abbrev rugged : String → ℕ → ℤ → TokenRef
rugged a t mcap = record {
  address = a;
  launched_at = t;
  status = status_rugged;
  peak_mcap = mcap;
  current_mcap = mcap;
}

abbrev detector : Detector
detector = run rug_pulls (new_detector config)

abbrev cluster : CrossTokenState
cluster = record {
  cluster_id = 7;
  active_tokens = rugged "a" 10 (pos 1000) ∷ rugged "b" 20 (pos 500) ∷ [];
  token_count_24h = 2;
  pattern_found = pattern_serial;
  risk_level = risk_critical;
  last_updated = 20;
}

cluster_found : get_cluster_state 7 detector ≡ some cluster
unfolding get_cluster_state run call record_token_launch mark_rugged new_detector
cluster_found = refl

two_rugs_panic_example :
    (should_panic_sell "b" (some cluster) ≡ true) × (score_impact (some cluster) ≡ negsuc 99)
two_rugs_panic_example = two_rugs_panic config rug_pulls 7 cluster "b" cluster_found (omega arith)

abbrev crowd : List Call
crowd = launches 10 1 "a" (pos 5) ∷ launches 20 2 "b" (pos 5) ∷ launches 30 3 "c" (pos 5) ∷ []

clusters_bounded_example : length (run crowd (new_detector config)).clusters ≤ 2
clusters_bounded_example =
    clusters_bounded config crowd (omega arith) (omega arith, (omega arith, (omega arith, tt)))

-- The cluster is evicted that was updated first.
crowd_evicts_first : get_cluster_state 1 (run crowd (new_detector config)) ≡ none
unfolding get_cluster_state run call record_token_launch new_detector
crowd_evicts_first = refl

rug_forgotten_example :
    (s' : CrossTokenState) × (get_cluster_state 7 (update_token_status 50 7 "a" (pos 1000) detector)
      ≡ some s')
    × (suc (count_rugged s'.active_tokens) ≡ 2)
unfolding ◌*ℤ◌
rug_forgotten_example =
    rug_forgotten 50 7 "a" (pos 1000) detector cluster (rugged "a" 10 (pos 1000)) cluster_found refl
      refl (refl, inr refl)
