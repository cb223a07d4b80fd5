-- ===== src/Correlation/Rugs.antt =====
-- Rugged tokens in nexus/internal/correlation/crosstoken.go.
use mathlib.Core.Option.{some-injective}
use mmh.Prelude.{
  ◌≡◌, refl, inl, inr, ◌⊎◌, ℕ, suc, ◌≤◌, String, true, false, Option, none, some, List, [], ◌∷◌,
  if◌then◌else◌, arith, All, Bool-cases, str_eq,
}
use mmh.Numbers.{Numbers}
use mmh.Correlation.{
  CrossTokenState, TokenRef, is_rugged, risk_critical, DetectorConfig, Detector, new_detector,
  update_token_status, recalculate, tally, assess_risk, get_cluster_state, score_impact,
  should_panic_sell, change_token, reprice, status_at,
}
use mmh.Correlation.Ids.{insert_id-All, lookup_id-All, lookup_id-insert_id}
use mmh.Correlation.Clusters.{
  clean-All, room, room-All, Call, call, run, View, unchanged, added, changed, cleaned, call-View,
}

module _ ⦃N : Numbers⦄ where
  -- The tokens of a cluster that are rugged.
  abbrev pub count_rugged : List TokenRef → ℕ
  count_rugged [] = 0
  count_rugged (t ∷ ts) = if is_rugged t.status then suc (count_rugged ts) else count_rugged ts

  tally-rugged :
      (c : DetectorConfig) (now : ℕ) (ts : List TokenRef)
      → (tally c now ts).rugged_count ≡ count_rugged ts
  tally-rugged c now [] = refl
  tally-rugged c now (t ∷ ts) = ground (arith, tally-rugged c now ts)

  -- Two rugged tokens make a cluster critical.
  abbrev IsJudged : CrossTokenState → Type 0
  IsJudged s = 2 ≤ count_rugged s.active_tokens → s.risk_level ≡ risk_critical

  recalculate-IsJudged :
      (c : DetectorConfig) (now : ℕ) (s : CrossTokenState) → IsJudged (recalculate c now s)
  unfolding recalculate assess_risk
  recalculate-IsJudged c now s two = ground (arith, two, tally-rugged c now s.active_tokens)

  abbrev AllJudged : Detector → Type 0
  AllJudged d = All (λ entry. IsJudged (entry.1)) d.clusters

  call-AllJudged : (k : Call) (d e : Detector) → View k d e → AllJudged d → AllJudged e
  call-AllJudged k d e unchanged h = h
  call-AllJudged k d e (added id now s dated) h =
      insert_id-All IsJudged id _ (room d.config d.clusters) (recalculate-IsJudged d.config now s)
        (room-All d.config IsJudged d.clusters h)
  call-AllJudged k d e (changed id now old s known dated) h =
      insert_id-All IsJudged id _ d.clusters (recalculate-IsJudged d.config now s) h
  call-AllJudged k d e (cleaned now age) h = clean-All now age IsJudged d.clusters h

  run-AllJudged : (cs : List Call) (d : Detector) → AllJudged d → AllJudged (run cs d)
  unfolding run
  run-AllJudged [] d h = h
  run-AllJudged (c ∷ cs) d h =
      run-AllJudged cs (call c d) (call-AllJudged c d (call c d) (call-View c d) h)

  -- Whatever calls a new detector has had, in a cluster with two rugged tokens every held token is
  -- to be panic-sold and the score impact is -100.
  pub two_rugs_panic :
      (c : DetectorConfig) (cs : List Call) (id : ℕ) (s : CrossTokenState) (held : String)
      → get_cluster_state id (run cs (new_detector c)) ≡ some s
      → 2 ≤ count_rugged s.active_tokens
      → (should_panic_sell held (some s) ≡ true)
        × (score_impact (some s) ≡ N.fneg (N.literal 100 1))
  unfolding get_cluster_state new_detector should_panic_sell score_impact
  two_rugs_panic c cs id s held e two =
      let critical : s.risk_level ≡ risk_critical =
        lookup_id-All IsJudged id (run cs (new_detector c)).clusters s
          (run-AllJudged cs (new_detector c) tt) e two in
      (ground (arith, critical), ground (arith, critical))

  -- The first token of an address.
  abbrev pub find_token : String → List TokenRef → Option TokenRef
  find_token a [] = none
  find_token a (t ∷ ts) = if str_eq t.address a then some t else find_token a ts

  reprice-forgets :
      (c : DetectorConfig) (mcap : N.Float) (a : String) (ts : List TokenRef) (t : TokenRef)
      → find_token a ts ≡ some t
      → is_rugged t.status ≡ true
      → is_rugged (reprice c mcap t).status ≡ false
      → suc (count_rugged (change_token (reprice c mcap) a ts)) ≡ count_rugged ts
  unfolding change_token
  reprice-forgets c mcap a [] t found old new = cc
  reprice-forgets c mcap a (u ∷ us) t found old new = elim (Bool-cases (str_eq u.address a)) [
    | inl same ↦
        let this : u ≡ t = some-injective u t (rw same at found) in
        let u_old : is_rugged u.status ≡ true = rw this old in
        let u_new : is_rugged (reprice c mcap u).status ≡ false = rw this new in
        ground (arith, same, u_old, u_new)
    | inr other ↦ ground (arith, other, reprice-forgets c mcap a us t (rw other at found) old new)
  ]

  abbrev peak_at : N.Float → TokenRef → N.Float
  peak_at mcap t = if N.flt t.peak_mcap mcap then mcap else t.peak_mcap

  -- A move that makes a status: a fall by the configured part of the peak, or a price above 0.8 of
  -- the peak.
  abbrev pub Moves : DetectorConfig → N.Float → TokenRef → Type 0
  Moves c mcap t =
      let peak = peak_at mcap t in
      let drop_pct = N.fmul (N.fdiv (N.fsub peak mcap) peak) (N.literal 100 1) in
      (N.flt (N.literal 0 1) peak ≡ true)
      × ((N.fle c.rotation_drop_pct drop_pct ≡ true)
          ⊎ (N.flt (N.fmul peak (N.literal 8 10)) mcap ≡ true))

  reprice_moved :
      (c : DetectorConfig) (mcap : N.Float) (t : TokenRef)
      → Moves c mcap t
      → is_rugged (reprice c mcap t).status ≡ false
  unfolding reprice status_at
  reprice_moved c mcap t (peak, inl fell) = ground (arith, peak, fell)
  reprice_moved c mcap t (peak, inr rose) = ground (arith, peak, rose)

  -- If the first token of an address in a cluster is rugged and its price moves (it falls by the
  -- configured part of its peak, or is above 0.8 of it), UpdateTokenStatus takes the mark away:
  -- the cluster has one rugged token less.
  pub rug_forgotten :
      (now id : ℕ) (a : String) (mcap : N.Float) (d : Detector) (s : CrossTokenState) (t : TokenRef)
      → get_cluster_state id d ≡ some s
      → find_token a s.active_tokens ≡ some t
      → is_rugged t.status ≡ true
      → Moves d.config mcap t
      → (s' : CrossTokenState) × (get_cluster_state id (update_token_status now id a mcap d)
          ≡ some s')
        × (suc (count_rugged s'.active_tokens) ≡ count_rugged s.active_tokens)
  unfolding get_cluster_state update_token_status recalculate
  rug_forgotten now id a mcap d s t known found old moves =
      let moved : CrossTokenState = record s {
        active_tokens = change_token (reprice d.config mcap) a s.active_tokens;
        last_updated = now;
      } in
      let s' = recalculate d.config now moved in
      (
        s',
        ground (arith, known, lookup_id-insert_id id s' d.clusters),
        reprice-forgets d.config mcap a s.active_tokens t found old
            (reprice_moved d.config mcap t moves),
      )
