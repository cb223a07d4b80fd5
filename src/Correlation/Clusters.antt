-- ===== src/Correlation/Clusters.antt =====
-- The calls of the detector of nexus/internal/correlation/crosstoken.go, and the number of clusters that it keeps.
use mmh.Prelude.{
  ◌≡◌, refl, subst, ap, inl, inr, ◌⊎◌, ℕ, suc, ◌+◌, ◌≤◌, ◌<◌, String, true, some, List, [], ◌∷◌,
  if◌then◌else◌, leb, ltb, arith, length, All, Bool-cases, Option-cases,
}
use mmh.Numbers.{Numbers}
use mmh.Correlation.Ids.{
  length-delete_id_found, length-insert_id_le, length-insert_id_found, insert_id-All, delete_id-All,
  lookup_id-All, lookup_id_further, lookup_id_head,
}
use mmh.Correlation.{
  IdMap, lookup_id, insert_id, CrossTokenState, DetectorConfig, Detector, new_detector,
  record_token_launch, update_token_status, mark_rugged, cleanup, clean, launch, recalculate,
  find_oldest, evict_oldest, change_token, reprice, set_rugged, fresh_state,
}

module _ ⦃N : Numbers⦄ where
  -- The calls that change the detector, each at its time.
  pub data Call : Type 0 where
    launches updates : ℕ → ℕ → String → N.Float → Call
    rugs : ℕ → ℕ → String → Call
    cleans : ℕ → ℕ → Call

  unfoldable pub call : Call → Detector → Detector
  call (launches now id a mcap) d = record_token_launch now id a mcap d
  call (updates now id a mcap) d = update_token_status now id a mcap d
  call (rugs now id a) d = mark_rugged now id a d
  call (cleans now max_age) d = (cleanup now max_age d).0

  unfoldable pub run : List Call → Detector → Detector
  run [] d = d
  run (c ∷ cs) d = run cs (call c d)

  -- The time of a call is below the greatest int64.
  abbrev pub IsTimed : Call → Type 0
  IsTimed (launches now id a mcap) = now < 9_223_372_036_854_775_807
  IsTimed (updates now id a mcap) = now < 9_223_372_036_854_775_807
  IsTimed (rugs now id a) = Unit
  IsTimed (cleans now max_age) = Unit

  abbrev IsDated : CrossTokenState → Type 0
  IsDated s = s.last_updated < 9_223_372_036_854_775_807

  record IsBounded (c : DetectorConfig) (d : Detector) : Type 0 where
    same_config : d.config ≡ c
    bounded : length d.clusters ≤ c.max_clusters_tracked
    dated : All (λ entry. IsDated (entry.1)) d.clusters

  -- The search for the oldest keeps its start, or finds an entry.
  find_oldest_among :
      (m : IdMap CrossTokenState) (id time : ℕ)
      → (find_oldest m id time ≡ id)
        ⊎ ((s : CrossTokenState) × (lookup_id (find_oldest m id time) m ≡ some s))
  unfolding find_oldest
  find_oldest_among [] id time = inl refl
  find_oldest_among ((j, s) ∷ m) id time = elim (Bool-cases (ltb s.last_updated time)) [
    | inl older ↦ rw older (elim (find_oldest_among m j s.last_updated) [
      | inl start ↦ inr (s, rw start (lookup_id_head j s m))
      | inr (t, found) ↦ inr (lookup_id_further (find_oldest m j s.last_updated) (j, s) m t found)
    ])
    | inr newer ↦ rw newer (elim (find_oldest_among m id time) [
      | inl start ↦ inl start
      | inr (t, found) ↦ inr (lookup_id_further (find_oldest m id time) (j, s) m t found)
    ])
  ]

  find_oldest_found :
      (j : ℕ) (s : CrossTokenState) (m : IdMap CrossTokenState) (id time : ℕ)
      → s.last_updated < time
      → (t : CrossTokenState) × (lookup_id (find_oldest ((j, s) ∷ m) id time) ((j, s) ∷ m) ≡ some t)
  unfolding find_oldest
  find_oldest_found j s m id time h =
      let older : ltb s.last_updated time ≡ true = ground (arith, h) in
      rw older (elim (find_oldest_among m j s.last_updated) [
        | inl start ↦ (s, rw start (lookup_id_head j s m))
        | inr (t, found) ↦ lookup_id_further (find_oldest m j s.last_updated) (j, s) m t found
      ])

  -- An eviction removes a cluster if there is one.
  evict_oldest-shorter :
      (j : ℕ) (s : CrossTokenState) (m : IdMap CrossTokenState)
      → IsDated s
      → suc (length (evict_oldest ((j, s) ∷ m))) ≤ length ((j, s) ∷ m)
  unfolding evict_oldest
  evict_oldest-shorter j s m h =
      let (t, found) = find_oldest_found j s m 0 9_223_372_036_854_775_807 h in
      length-delete_id_found (find_oldest ((j, s) ∷ m) 0 9_223_372_036_854_775_807) ((j, s) ∷ m) t
        found

  clean-length : (now age : ℕ) (m : IdMap CrossTokenState) → length (clean now age m).0 ≤ length m
  clean-length now age [] = omega arith
  clean-length now age ((id, s) ∷ m) = ground (arith, clean-length now age m)

  pub clean-All :
      (now age : ℕ) (P : CrossTokenState → Type 0) (m : IdMap CrossTokenState)
      → All (λ entry. P (entry.1)) m
      → All (λ entry. P (entry.1)) (clean now age m).0
  clean-All now age P [] h = tt
  clean-All now age P ((id, s) ∷ m) h = elim (Bool-cases (ltb (s.last_updated + age) now)) [
    | inl stale ↦ rw stale (clean-All now age P m h.1)
    | inr active ↦ rw active (h.0, clean-All now age P m h.1)
  ]

  -- What a launch at a new cluster makes of the map.
  unfoldable pub room : DetectorConfig → IdMap CrossTokenState → IdMap CrossTokenState
  room c m = if leb c.max_clusters_tracked (length m) then evict_oldest m else m

  pub room-All :
      (c : DetectorConfig) (P : CrossTokenState → Type 0) (m : IdMap CrossTokenState)
      → All (λ entry. P (entry.1)) m
      → All (λ entry. P (entry.1)) (room c m)
  unfolding room evict_oldest
  room-All c P m h = elim (Bool-cases (leb c.max_clusters_tracked (length m))) [
    | inl full ↦ rw full (delete_id-All P (find_oldest m 0 9_223_372_036_854_775_807) m h)
    | inr free ↦ rw free h
  ]

  room-length :
      (c : DetectorConfig) (m : IdMap CrossTokenState)
      → 1 ≤ c.max_clusters_tracked
      → length m ≤ c.max_clusters_tracked
      → All (λ entry. IsDated (entry.1)) m
      → suc (length (room c m)) ≤ c.max_clusters_tracked
  unfolding room
  room-length c [] one h dated = ground (arith, one)
  room-length c ((j, s) ∷ m) one h dated = ground (arith, h, evict_oldest-shorter j s m dated.0)

  -- What a call does: nothing, a cluster more, a cluster judged again, or a cleanup.
  pub data View (k : Call) (d : Detector) : Detector → Type 0 where
    unchanged : View k d d
    added :
        (id now : ℕ) (s : CrossTokenState)
        → (IsTimed k → IsDated s)
        → View k d (record d {
          clusters = insert_id id (recalculate d.config now s) (room d.config d.clusters);
        })
    changed :
        (id now : ℕ) (old s : CrossTokenState)
        → lookup_id id d.clusters ≡ some old
        → (IsTimed k → IsDated old → IsDated s)
        → View k d (record d { clusters = insert_id id (recalculate d.config now s) d.clusters })
    cleaned : (now age : ℕ) → View k d (record d { clusters = (clean now age d.clusters).0 })

  pub call-View : (k : Call) (d : Detector) → View k d (call k d)
  unfolding call record_token_launch update_token_status mark_rugged cleanup room
  call-View (launches now id a mcap) d =
      let k = launches now id a mcap in
      elim (Option-cases (lookup_id id d.clusters)) [
        | inl fresh ↦
            subst (View k d) (ground (arith, fresh))
              (added id now (launch now a mcap (fresh_state id)) (λ timed. timed))
        | inr (s, known) ↦
            subst (View k d) (ground (arith, known))
              (changed id now s (launch now a mcap s) known (λ timed dated. timed))
      ]
  call-View (updates now id a mcap) d =
      let k = updates now id a mcap in
      elim (Option-cases (lookup_id id d.clusters)) [
        | inl missing ↦ subst (View k d) (ground (arith, missing)) unchanged
        | inr (s, known) ↦ subst (View k d) (ground (arith, known)) (
            changed id now s
              (record s {
                active_tokens = change_token (reprice d.config mcap) a s.active_tokens;
                last_updated = now;
              })
              known (λ timed dated. timed))
      ]
  call-View (rugs now id a) d =
      let k = rugs now id a in
      elim (Option-cases (lookup_id id d.clusters)) [
        | inl missing ↦ subst (View k d) (ground (arith, missing)) unchanged
        | inr (s, known) ↦ subst (View k d) (ground (arith, known)) (
            changed id now s
              (record s { active_tokens = change_token set_rugged a s.active_tokens }) known
              (λ timed dated. dated))
      ]
  call-View (cleans now age) d = cleaned now age

  call-IsBounded :
      (c : DetectorConfig) (one : 1 ≤ c.max_clusters_tracked) (k : Call) (d e : Detector)
      → View k d e
      → IsTimed k
      → IsBounded c d
      → IsBounded c e
  unfolding recalculate
  call-IsBounded c one k d e unchanged timed h = h
  call-IsBounded c one k d e (added id now s dated) timed h =
      let limit : d.config.max_clusters_tracked ≡ c.max_clusters_tracked =
        ap (λ c. c.max_clusters_tracked) h.same_config in
      record {
        same_config = h.same_config;
        bounded =
            let short =
              room-length d.config d.clusters (omega (arith, one, limit))
                (omega (arith, h.bounded, limit)) h.dated in
            omega (
              arith,
              limit,
              short,
              length-insert_id_le id (recalculate d.config now s) (room d.config d.clusters),
            );
        dated =
            insert_id-All IsDated id _ (room d.config d.clusters) (dated timed)
              (room-All d.config IsDated d.clusters h.dated);
      }
  call-IsBounded c one k d e (changed id now old s known dated) timed h = record {
    same_config = h.same_config;
    bounded = omega (
      arith,
      h.bounded,
      length-insert_id_found id (recalculate d.config now s) old d.clusters known,
    );
    dated =
        insert_id-All IsDated id _ d.clusters
          (dated timed (lookup_id-All IsDated id d.clusters old h.dated known)) h.dated;
  }
  call-IsBounded c one k d e (cleaned now age) timed h = record {
    same_config = h.same_config;
    bounded = omega (arith, h.bounded, clean-length now age d.clusters);
    dated = clean-All now age IsDated d.clusters h.dated;
  }

  run-IsBounded :
      (c : DetectorConfig) (one : 1 ≤ c.max_clusters_tracked) (ks : List Call) (d : Detector)
      → All IsTimed ks
      → IsBounded c d
      → IsBounded c (run ks d)
  unfolding run
  run-IsBounded c one [] d timed h = h
  run-IsBounded c one (k ∷ ks) d timed h =
      run-IsBounded c one ks (call k d) timed.1
        (call-IsBounded c one k d (call k d) (call-View k d) timed.0 h)

  -- Whatever calls a new detector has had, at times below the greatest int64, it keeps at most the
  -- configured number of clusters, if that is not 0.
  pub clusters_bounded :
      (c : DetectorConfig) (ks : List Call)
      → 1 ≤ c.max_clusters_tracked
      → All IsTimed ks
      → length (run ks (new_detector c)).clusters ≤ c.max_clusters_tracked
  unfolding new_detector
  clusters_bounded c ks one timed =
      (run-IsBounded c one ks (new_detector c) timed
        (record { same_config = refl; bounded = omega arith; dated = tt })).bounded
