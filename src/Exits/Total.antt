-- ===== src/Exits/Total.antt =====
-- When nexus/internal/sniper/exits.go does not panic, and what a decision of `Evaluate` tells.
use mmh.Prelude.{
  ◌≡◌, refl, ap, ◌∙◌, ◌⊎◌, ℕ, suc, zero, ◌+◌, ◌≤◌, ◌<◌, Bool, true, false, not, ◌||◌, Option, some,
  List, [], ◌∷◌, arith, length, get_elem?, Bool-cases, inl, inr, length-replicate, String,
}
use native.Mathlib.Nat.{add-zero, add-suc, suc-add}
use mmh.Numbers.{Numbers, is_positive}
use mmh.Exits.{
  Reason, take_profit, Position, open_status, TpLevel, TimedExit, ExitConfig, ExitTracker,
  ExitDecision, no_decision, sell_share, new_exit_tracker, check_stop_loss, multi_tp,
  check_multi_tp, check_trailing_stop, timed, check_timed_exits, timed_exit_reason, is_due,
  evaluate, level_reasons, timed_reasons, is_open, float,
}

module _ ⦃N : Numbers⦄ where
  -- A tracker has a mark for every level and every timed exit of a configuration.
  pub record Fits (c : ExitConfig) (t : ExitTracker) : Type 0 where
    pub tp_fits : length t.tp_levels_hit ≡ length c.tp_levels
    pub timed_fits : length t.timed_exits_hit ≡ length c.timed_exits

  pub new_exit_tracker-Fits :
      (id : String) (amount : N.Decimal) (c : ExitConfig) → Fits c (new_exit_tracker id amount c)
  unfolding new_exit_tracker
  new_exit_tracker-Fits id amount c = record {
    tp_fits = length-replicate (length c.tp_levels) false;
    timed_fits = length-replicate (length c.timed_exits) false;
  }

  -- What a decision of a loop is: none, or a share for the reason at an index with no mark.
  abbrev pub Picks : List Bool → List Reason → ℕ → ExitDecision → Type 0
  Picks hits rs i d =
      (d.should_sell ≡ true)
      → (k : ℕ) × (get_elem? rs k ≡ some d.reason) × (get_elem? hits (i + k) ≡ some false)

  get_elem?-lt :
      {A : Type 0} (xs : List A) (i : ℕ) → i < length xs → (x : A) × (get_elem? xs i ≡ some x)
  get_elem?-lt [] i h = absurd (omega arith)
  get_elem?-lt (x ∷ xs) zero h = (x, refl)
  get_elem?-lt (x ∷ xs) (suc i) h = get_elem?-lt xs i (omega arith)

  Picks-tail :
      (hits : List Bool) (r : Reason) (rs : List Reason) (i : ℕ) (d : ExitDecision)
      → Picks hits rs (suc i) d
      → Picks hits (r ∷ rs) i d
  Picks-tail hits r rs i d p e =
      let (k, at, unset) = p e in (suc k, at, rw (add-suc, ← suc-add) unset)

  Picks-head :
      (hits : List Bool) (rs : List Reason) (i : ℕ) (d : ExitDecision)
      → get_elem? hits i ≡ some false
      → Picks hits (d.reason ∷ rs) i d
  Picks-head hits rs i d h e = (0, refl, rw add-zero h)

  -- The result of a loop: a decision, which picks.
  abbrev pub Finds : Option ExitDecision → List Bool → List Reason → ℕ → Type 0
  Finds o hits rs i = (d : ExitDecision) × (o ≡ some d) × Picks hits rs i d

  multi_tp-Finds :
      (pos : Position) (t : ExitTracker) (i : ℕ) (levels : List TpLevel)
      → i + length levels ≤ length t.tp_levels_hit
      → Finds (multi_tp pos t i levels) t.tp_levels_hit (level_reasons i levels) i
  unfolding multi_tp level_reasons
  multi_tp-Finds pos t i [] h = (no_decision, refl, λ e. cc)
  multi_tp-Finds pos t i (l ∷ ls) h =
      let (hit, found) = get_elem?-lt t.tp_levels_hit i (omega arith) in
      let (d, e, p) = multi_tp-Finds pos t (suc i) ls (omega arith) in
      let rs = level_reasons (suc i) ls in
      let reached =
        N.greater_than_or_equal pos.current_price
          (N.mul pos.entry_price_usd (N.new_from_float l.multiplier)) in
      let sale = sell_share t l.sell_pct (take_profit (i + 1)) in
      let later = Picks-tail t.tp_levels_hit (take_profit (i + 1)) rs i d p in
      elim (Bool-cases hit) [
        | inl a ↦ (d, ground (arith, found, a, e), later)
        | inr a ↦ elim (Bool-cases reached) [
          | inl b ↦ (
            sale,
            ground (arith, found, a, b),
            Picks-head t.tp_levels_hit rs i sale (found ∙ ap some a),
          )
          | inr b ↦ (d, ground (arith, found, a, b, e), later)
        ]
      ]

  timed-Finds :
      (now : ℕ) (pos : Position) (t : ExitTracker) (i : ℕ) (tes : List TimedExit)
      → i + length tes ≤ length t.timed_exits_hit
      → Finds (timed now pos t i tes) t.timed_exits_hit (timed_reasons tes) i
  unfolding timed timed_reasons
  timed-Finds now pos t i [] h = (no_decision, refl, λ e. cc)
  timed-Finds now pos t i (te ∷ tes) h =
      let (hit, found) = get_elem?-lt t.timed_exits_hit i (omega arith) in
      let (d, e, p) = timed-Finds now pos t (suc i) tes (omega arith) in
      let rs = timed_reasons tes in
      let reason = timed_exit_reason te.after_minutes in
      let sale = sell_share t te.sell_pct reason in
      let later = Picks-tail t.timed_exits_hit reason rs i d p in
      elim (Bool-cases hit) [
        | inl a ↦ (d, ground (arith, found, a, e), later)
        | inr a ↦ elim (Bool-cases (is_due now pos.opened_at te.after_minutes)) [
          | inl b ↦ (
            sale,
            ground (arith, found, a, b),
            Picks-head t.timed_exits_hit rs i sale (found ∙ ap some a),
          )
          | inr b ↦ (d, ground (arith, found, a, b, e), later)
        ]
      ]

  check_multi_tp-Finds :
      (c : ExitConfig) (pos : Position) (t : ExitTracker)
      → Fits c t
      → Finds (check_multi_tp c pos t) t.tp_levels_hit (level_reasons 0 c.tp_levels) 0
  unfolding check_multi_tp
  check_multi_tp-Finds c pos t f = elim (Bool-cases (is_positive pos.entry_price_usd)) [
    | inl a ↦ rw a (multi_tp-Finds pos t 0 c.tp_levels (omega (arith, f.tp_fits)))
    | inr a ↦ (no_decision, rw a, λ e. cc)
  ]

  check_timed_exits-Finds :
      (c : ExitConfig) (now : ℕ) (pos : Position) (t : ExitTracker)
      → Fits c t
      → Finds (check_timed_exits c now pos t) t.timed_exits_hit (timed_reasons c.timed_exits) 0
  unfolding check_timed_exits
  check_timed_exits-Finds c now pos t f =
      timed-Finds now pos t 0 c.timed_exits (omega (arith, f.timed_fits))

  -- A decision to sell everything, or a share for an exit that has not been made.
  abbrev pub IsJustified : ExitConfig → ExitTracker → ExitDecision → Type 0
  IsJustified c t d =
      (d.is_full_close ≡ true)
      ⊎ (((k : ℕ) × (get_elem? (level_reasons 0 c.tp_levels) k ≡ some d.reason)
            × (get_elem? t.tp_levels_hit (0 + k) ≡ some false))
          ⊎ ((k : ℕ) × (get_elem? (timed_reasons c.timed_exits) k ≡ some d.reason)
              × (get_elem? t.timed_exits_hit (0 + k) ≡ some false)))

  live :
      (pos : Position) (t : ExitTracker)
      → (not (is_open pos.status) || N.fle t.remaining_pct (float 0)) ≡ false
      → (pos.status ≡ open_status) × (N.fle t.remaining_pct (float 0) ≡ false)
  live pos t h = ground arith

  stop_full :
      (c : ExitConfig) (pos : Position) (t : ExitTracker)
      → (check_stop_loss c pos t).should_sell ≡ true
      → (check_stop_loss c pos t).is_full_close ≡ true
  unfolding check_stop_loss
  stop_full c pos t h = ground arith

  trail_full :
      (c : ExitConfig) (pos : Position) (t : ExitTracker)
      → (check_trailing_stop c pos t).should_sell ≡ true
      → (check_trailing_stop c pos t).is_full_close ≡ true
  unfolding check_trailing_stop
  trail_full c pos t h = ground arith

  -- For a tracker made for the configuration, `Evaluate` does not panic. It decides to sell only
  -- for an open position of which something remains; it then sells everything, or a share for a
  -- level or a timed exit that has not been made yet.
  pub evaluate_total :
      (c : ExitConfig) (now : ℕ) (pos : Position) (t : ExitTracker)
      → Fits c t
      → (d : ExitDecision) × (evaluate c now pos t ≡ some d)
        × (d.should_sell ≡ true
            → (pos.status ≡ open_status)
              × (N.fle t.remaining_pct (float 0) ≡ false)
              × IsJustified c t d)
  unfolding evaluate
  evaluate_total c now pos t f =
      let (lv, lv_eq, lv_picks) = check_multi_tp-Finds c pos t f in
      let (tm, tm_eq, tm_picks) = check_timed_exits-Finds c now pos t f in
      let stop = check_stop_loss c pos t in
      let trail = check_trailing_stop c pos t in
      elim (Bool-cases (not (is_open pos.status) || N.fle t.remaining_pct (float 0))) [
        | inl a ↦ (no_decision, rw a, λ e. cc)
        | inr a ↦
            let open_and_left = live pos t a in
            elim (Bool-cases stop.should_sell) [
              | inl s ↦ (
                stop,
                rw (a, s),
                λ e. (open_and_left.0, open_and_left.1, inl (stop_full c pos t s)),
              )
              | inr s ↦ elim (Bool-cases lv.should_sell) [
                | inl l ↦ (
                  lv,
                  rw (a, s, lv_eq, l),
                  λ e. (open_and_left.0, open_and_left.1, inr (inl (lv_picks l))),
                )
                | inr l ↦ elim (Bool-cases trail.should_sell) [
                  | inl r ↦ (
                    trail,
                    rw (a, s, lv_eq, l, r),
                    λ e. (open_and_left.0, open_and_left.1, inl (trail_full c pos t r)),
                  )
                  | inr r ↦ elim (Bool-cases tm.should_sell) [
                    | inl m ↦ (
                      tm,
                      rw (a, s, lv_eq, l, r, tm_eq, m),
                      λ e. (open_and_left.0, open_and_left.1, inr (inr (tm_picks m))),
                    )
                    | inr m ↦ (no_decision, rw (a, s, lv_eq, l, r, tm_eq, m), λ e. cc)
                  ]
                ]
              ]
            ]
      ]
