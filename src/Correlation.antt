-- ===== src/Correlation.antt =====
-- nexus/internal/correlation/crosstoken.go: the detector of tokens that share a deployer. `now` is in nanoseconds
-- since the Unix epoch, and a time that is compared with `now - window` is shifted instead. The
-- configuration's limits are not negative, and windows fit an int64. A missing cluster is `none`,
-- the nil pointer. Loops over the map go in the order of the list. Mutexes and logging are left out.
pub mod Ids
pub mod Clusters
pub mod Rugs
pub mod Examples
use mmh.Prelude.{
  ℕ, suc, ◌+◌, ◌*◌, String, Bool, true, false, not, ◌&&◌, ◌||◌, Option, none, some, List, [], ◌∷◌,
  ◌++◌, if◌then◌else◌, ltb, leb, ◌==◌, str_eq, length,
}
use mmh.Numbers.{Numbers}

pub data CorrelationPattern : Type 0 where
  pattern_rotation pattern_distraction pattern_serial pattern_none : CorrelationPattern

pub data RiskLevel : Type 0 where
  risk_low risk_medium risk_high risk_critical : RiskLevel

pub data TokenStatus : Type 0 where
  status_alive status_pumping status_dumped status_rugged : TokenStatus

abbrev pub is_rotation : CorrelationPattern → Bool
is_rotation pattern_rotation = true
is_rotation _ = false

abbrev pub is_distraction : CorrelationPattern → Bool
is_distraction pattern_distraction = true
is_distraction _ = false

abbrev pub is_serial : CorrelationPattern → Bool
is_serial pattern_serial = true
is_serial _ = false

abbrev pub is_critical : RiskLevel → Bool
is_critical risk_critical = true
is_critical _ = false

abbrev pub is_pumping : TokenStatus → Bool
is_pumping status_pumping = true
is_pumping _ = false

abbrev pub is_dumped : TokenStatus → Bool
is_dumped status_dumped = true
is_dumped _ = false

abbrev pub is_rugged : TokenStatus → Bool
is_rugged status_rugged = true
is_rugged _ = false

-- A map[uint32]V: the entry of a key stands once.
abbrev pub IdMap : Type 0 → Type 0
IdMap V = List (ℕ × V)

module _ {V : Type 0} where
  unfoldable pub lookup_id : ℕ → IdMap V → Option V
  lookup_id k [] = none
  lookup_id k ((j, v) ∷ m) = if j == k then some v else lookup_id k m

  unfoldable pub insert_id : ℕ → V → IdMap V → IdMap V
  insert_id k v [] = (k, v) ∷ []
  insert_id k v ((j, w) ∷ m) = if j == k then (k, v) ∷ m else (j, w) ∷ insert_id k v m

  unfoldable pub delete_id : ℕ → IdMap V → IdMap V
  delete_id k [] = []
  delete_id k ((j, v) ∷ m) = let rest = delete_id k m in if j == k then rest else (j, v) ∷ rest

module _ ⦃N : Numbers⦄ where
  pub record TokenRef : Type 0 where
    pub address : String
    pub launched_at : ℕ
    pub status : TokenStatus
    pub peak_mcap : N.Float
    pub current_mcap : N.Float

  pub record CrossTokenState : Type 0 where
    pub cluster_id : ℕ
    pub active_tokens : List TokenRef
    pub token_count_24h : ℕ
    pub pattern_found : CorrelationPattern
    pub risk_level : RiskLevel
    pub last_updated : ℕ

  pub record DetectorConfig : Type 0 where
    pub rotation_window_h : ℕ
    pub serial_threshold : ℕ
    pub rotation_drop_pct : N.Float
    pub max_clusters_tracked : ℕ

  pub record Detector : Type 0 where
    pub config : DetectorConfig
    pub clusters : IdMap CrossTokenState

  unfoldable pub default_detector_config : DetectorConfig
  default_detector_config = record {
    rotation_window_h = 6;
    serial_threshold = 3;
    rotation_drop_pct = N.literal 50 1;
    max_clusters_tracked = 5000;
  }

  unfoldable pub new_detector : DetectorConfig → Detector
  new_detector c = record { config = c; clusters = [] }

  -- What the loop of `recalculate` counts.
  pub record Tally : Type 0 where
    pub active_in_window : ℕ
    pub count_24h : ℕ
    pub dumped_count : ℕ
    pub rugged_count : ℕ
    pub has_pumping : Bool
    pub has_dumped : Bool

  abbrev is_within : ℕ → ℕ → TokenRef → Bool
  is_within now hours t = leb now (t.launched_at + hours * 3_600_000_000_000)

  abbrev bump : Bool → ℕ → ℕ
  bump b n = if b then suc n else n

  abbrev pub tally : DetectorConfig → ℕ → List TokenRef → Tally
  tally c now [] = record {
    active_in_window = 0;
    count_24h = 0;
    dumped_count = 0;
    rugged_count = 0;
    has_pumping = false;
    has_dumped = false;
  }
  tally c now (t ∷ ts) =
      let k = tally c now ts in
      record {
        active_in_window = bump (is_within now c.rotation_window_h t) k.active_in_window;
        count_24h = bump (is_within now 24 t) k.count_24h;
        dumped_count = bump (is_dumped t.status) k.dumped_count;
        rugged_count = bump (is_rugged t.status) k.rugged_count;
        has_pumping = is_pumping t.status || k.has_pumping;
        has_dumped = is_dumped t.status || k.has_dumped;
      }

  -- The assignments to `state.Pattern`, the last one first.
  unfoldable pub pattern_of : DetectorConfig → Tally → CorrelationPattern
  pattern_of c k =
      if leb 2 k.rugged_count
      then pattern_serial
      else if leb c.serial_threshold k.count_24h
      then pattern_serial
      else if k.has_pumping && (k.has_dumped && leb 2 k.active_in_window)
      then pattern_rotation
      else if leb 2 k.active_in_window && (not k.has_dumped && not k.has_pumping)
      then pattern_distraction
      else pattern_none

  unfoldable pub assess_risk : DetectorConfig → CrossTokenState → ℕ → ℕ → RiskLevel
  assess_risk c state rugged_count active_in_window =
      if leb 2 rugged_count
      then risk_critical
      else if is_rotation state.pattern_found
      then risk_high
      else if leb (c.serial_threshold + 2) state.token_count_24h
      then risk_critical
      else if is_serial state.pattern_found
      then risk_high
      else if leb 2 active_in_window
      then risk_medium
      else risk_low

  unfoldable pub recalculate : DetectorConfig → ℕ → CrossTokenState → CrossTokenState
  unfolding pattern_of assess_risk
  recalculate c now state =
      let k = tally c now state.active_tokens in
      let found = record state { token_count_24h = k.count_24h; pattern_found = pattern_of c k } in
      record found { risk_level = assess_risk c found k.rugged_count k.active_in_window }

  -- The loop of `evictOldest`: the least time that is below the start, and its cluster.
  unfoldable pub find_oldest : IdMap CrossTokenState → ℕ → ℕ → ℕ
  find_oldest [] oldest_id oldest_time = oldest_id
  find_oldest ((id, state) ∷ m) oldest_id oldest_time =
      if ltb state.last_updated oldest_time
      then find_oldest m id state.last_updated
      else find_oldest m oldest_id oldest_time

  -- The start is `1<<63 - 1`.
  unfoldable pub evict_oldest : IdMap CrossTokenState → IdMap CrossTokenState
  unfolding find_oldest delete_id
  evict_oldest m = delete_id (find_oldest m 0 9_223_372_036_854_775_807) m

  abbrev pub fresh_state : ℕ → CrossTokenState
  fresh_state id = record {
    cluster_id = id;
    active_tokens = [];
    token_count_24h = 0;
    pattern_found = pattern_none;
    risk_level = risk_low;
    last_updated = 0;
  }

  abbrev pub launch : ℕ → String → N.Float → CrossTokenState → CrossTokenState
  launch now a mcap state = record state {
    active_tokens =
        state.active_tokens
        ++ (record {
          address = a;
          launched_at = now;
          status = status_alive;
          peak_mcap = mcap;
          current_mcap = mcap;
        }
            ∷ []);
    last_updated = now;
  }

  unfoldable pub record_token_launch : ℕ → ℕ → String → N.Float → Detector → Detector
  unfolding lookup_id insert_id recalculate evict_oldest
  record_token_launch now id a mcap d =
      let fresh = recalculate d.config now (launch now a mcap (fresh_state id)) in
      elim (lookup_id id d.clusters) [
        | none ↦
            let room =
              if leb (d.config).max_clusters_tracked (length d.clusters)
              then evict_oldest d.clusters
              else d.clusters in
            record d { clusters = insert_id id fresh room }
        | some state ↦
            let known = recalculate d.config now (launch now a mcap state) in
            record d { clusters = insert_id id known d.clusters }
      ]

  -- The status of a token whose price moved: its peak is the new one.
  unfoldable pub status_at : DetectorConfig → N.Float → N.Float → TokenStatus → TokenStatus
  status_at c mcap peak old =
      let drop_pct = N.fmul (N.fdiv (N.fsub peak mcap) peak) (N.literal 100 1) in
      if N.flt (N.literal 0 1) peak
      then (if N.fle c.rotation_drop_pct drop_pct
          then status_dumped
          else if N.flt (N.fmul peak (N.literal 8 10)) mcap
          then status_pumping
          else old)
      else old

  unfoldable pub reprice : DetectorConfig → N.Float → TokenRef → TokenRef
  unfolding status_at
  reprice c mcap t =
      let peak = if N.flt t.peak_mcap mcap then mcap else t.peak_mcap in
      record t { current_mcap = mcap; peak_mcap = peak; status = status_at c mcap peak t.status }

  -- The loops that change the first token of an address.
  unfoldable pub change_token : (TokenRef → TokenRef) → String → List TokenRef → List TokenRef
  change_token g a [] = []
  change_token g a (t ∷ ts) = if str_eq t.address a then g t ∷ ts else t ∷ change_token g a ts

  unfoldable pub update_token_status : ℕ → ℕ → String → N.Float → Detector → Detector
  unfolding lookup_id insert_id recalculate change_token reprice
  update_token_status now id a mcap d = elim (lookup_id id d.clusters) [
    | none ↦ d
    | some state ↦
        let moved = record state {
          active_tokens = change_token (reprice d.config mcap) a state.active_tokens;
          last_updated = now;
        } in
        record d { clusters = insert_id id (recalculate d.config now moved) d.clusters }
  ]

  abbrev pub set_rugged : TokenRef → TokenRef
  set_rugged t = record t { status = status_rugged }

  unfoldable pub mark_rugged : ℕ → ℕ → String → Detector → Detector
  unfolding lookup_id insert_id recalculate change_token
  mark_rugged now id a d = elim (lookup_id id d.clusters) [
    | none ↦ d
    | some state ↦
        let marked = record state {
          active_tokens = change_token set_rugged a state.active_tokens;
        } in
        record d { clusters = insert_id id (recalculate d.config now marked) d.clusters }
  ]

  unfoldable pub get_cluster_state : ℕ → Detector → Option CrossTokenState
  unfolding lookup_id
  get_cluster_state id d = lookup_id id d.clusters

  unfoldable pub score_impact : Option CrossTokenState → N.Float
  score_impact none = N.literal 0 1
  score_impact (some state) =
      if is_critical state.risk_level
      then N.fneg (N.literal 100 1)
      else if is_rotation state.pattern_found
      then N.fneg (N.literal 40 1)
      else if is_serial state.pattern_found && leb 3 state.token_count_24h
      then N.fneg (N.literal 25 1)
      else if is_distraction state.pattern_found
      then N.fneg (N.literal 10 1)
      else N.literal 0 1

  -- The loop of `ShouldPanicSell`.
  abbrev pub is_dumping : String → List TokenRef → Bool
  is_dumping a [] = false
  is_dumping a (t ∷ ts) = (str_eq t.address a && is_dumped t.status) || is_dumping a ts

  unfoldable pub should_panic_sell : String → Option CrossTokenState → Bool
  should_panic_sell a none = false
  should_panic_sell a (some state) =
      if is_rotation state.pattern_found && is_dumping a state.active_tokens
      then true
      else is_critical state.risk_level

  -- The clusters that stay, and how many do not.
  abbrev pub clean : ℕ → ℕ → IdMap CrossTokenState → IdMap CrossTokenState × ℕ
  clean now max_age [] = ([], 0)
  clean now max_age ((id, state) ∷ m) =
      let (rest, n) = clean now max_age m in
      if ltb (state.last_updated + max_age) now then (rest, suc n) else ((id, state) ∷ rest, n)

  unfoldable pub cleanup : ℕ → ℕ → Detector → Detector × ℕ
  cleanup now max_age d =
      let (kept, removed) = clean now max_age d.clusters in (record d { clusters = kept }, removed)
