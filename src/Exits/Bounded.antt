-- ===== src/Exits/Bounded.antt =====
-- How often the exit engine of nexus/internal/sniper/exits.go sells from one position.
use mmh.Prelude.{
  ◌≡◌, refl, ap, ◌∙◌, ℕ, suc, zero, ◌+◌, ◌≤◌, ◌<◌, Bool, true, false, some, List, [], ◌∷◌, arith,
  length, get_elem?, replicate, Bool-cases, inl, inr, if◌then◌else◌, String, str_eq_iff,
}
use mathlib.Core.Option.{some-injective}
use native.Mathlib.Nat.{zero-add}
use mmh.Numbers.{Numbers}
use mmh.Exits.{
  Reason, no_reason, take_profit, other_reason, sell_failed, Position, ExitConfig, ExitTracker,
  ExitDecision, TpLevel, TimedExit, new_exit_tracker, evaluate, level_reasons, timed_reasons,
  timed_exit_reason, same_reason, float, percent, apply_decision, exit_step, count_sales, mark_all,
}
use mmh.Exits.Hits.{
  unhit, unhit_lt, unhit_le, hit_all, length-hit_all, mark_all-hit_all, get_elem?-hit_all,
  get_elem?-hit_all_keep,
}
use mmh.Exits.Total.{Fits, IsJustified, evaluate_total, new_exit_tracker-Fits}

same_reason_refl : (r : Reason) → same_reason r r ≡ true
same_reason_refl no_reason = refl
same_reason_refl (take_profit i) = ground arith
same_reason_refl (other_reason s) = (str_eq_iff s s).1 refl
same_reason_refl (sell_failed r) = same_reason_refl r
same_reason_refl _ = refl

unhit-replicate : (n : ℕ) → unhit (replicate n false) ≡ n
unhit-replicate zero = refl
unhit-replicate (suc n) = ap suc (unhit-replicate n)

get_elem?-lt : {A : Type 0} (xs : List A) (k : ℕ) {b : A} → get_elem? xs k ≡ some b → k < length xs
get_elem?-lt [] k e = cc
get_elem?-lt (x ∷ xs) zero e = omega arith
get_elem?-lt (x ∷ xs) (suc k) e = omega (arith, get_elem?-lt xs k e)

module _ ⦃N : Numbers⦄ where
  length-level_reasons : (i : ℕ) (ls : List TpLevel) → length (level_reasons i ls) ≡ length ls
  unfolding level_reasons
  length-level_reasons i [] = refl
  length-level_reasons i (l ∷ ls) = ap suc (length-level_reasons (suc i) ls)

  length-timed_reasons : (tes : List TimedExit) → length (timed_reasons tes) ≡ length tes
  unfolding timed_reasons
  length-timed_reasons [] = refl
  length-timed_reasons (te ∷ tes) = ap suc (length-timed_reasons tes)

  abbrev pub left : N.Float → ℕ
  left x = if N.fle x (float 0) then 0 else 1

  -- The sales that can still follow.
  abbrev pub chances : ExitTracker → ℕ
  chances t = unhit t.tp_levels_hit + unhit t.timed_exits_hit + left t.remaining_pct

  left-le : (x : N.Float) → left x ≤ 1
  left-le x = ground arith

  -- A loop of marks, with the marks that fit: all that is needed of it.
  marks :
      (r : Reason) (rs : List Reason) (hits : List Bool)
      → length hits ≡ length rs
      → (hits' : List Bool) × (mark_all r 0 rs hits ≡ some hits')
        × (length hits' ≡ length hits)
        × (unhit hits' ≤ unhit hits)
        × ((k : ℕ)
            → get_elem? rs k ≡ some r
            → get_elem? hits (0 + k) ≡ some false
            → unhit hits' < unhit hits)
  marks r rs hits l =
      let hits' = hit_all r 0 rs hits in
      let same = length-hit_all r 0 rs hits in
      let keep = get_elem?-hit_all_keep r 0 rs hits in
      (
        hits',
        mark_all-hit_all r 0 rs hits (omega arith),
        same,
        unhit_le hits hits' same keep,
        λ k e unset. unhit_lt (0 + k) hits hits' same keep unset (
            get_elem?-hit_all r 0 rs hits k e (same_reason_refl r)
              (get_elem?-lt hits (0 + k) unset)),
      )

  -- A decision to sell that is justified: the tracker still fits, and fewer sales can follow.
  apply_decision_lem :
      (c : ExitConfig) (d : ExitDecision) (t : ExitTracker)
      → Fits c t
      → N.fle (float 0) (float 0) ≡ true
      → N.fle t.remaining_pct (float 0) ≡ false
      → IsJustified c t d
      → (t' : ExitTracker) × (apply_decision c d t ≡ some t') × Fits c t' × (chances t' < chances t)
  unfolding apply_decision
  apply_decision_lem c d t f zero_le some_left why =
      let tp =
        marks d.reason (level_reasons 0 c.tp_levels) t.tp_levels_hit
          (omega (arith, f.tp_fits, length-level_reasons 0 c.tp_levels)) in
      let tm =
        marks d.reason (timed_reasons c.timed_exits) t.timed_exits_hit
          (omega (arith, f.timed_fits, length-timed_reasons c.timed_exits)) in
      let rest = N.fmul t.remaining_pct (N.fsub (float 1) (percent d.sell_pct)) in
      elim (Bool-cases d.is_full_close) [
        | inl full ↦ (
          record t { remaining_pct = float 0 },
          rw full,
          record { tp_fits = f.tp_fits; timed_fits = f.timed_fits },
          rw (zero_le, some_left) (omega arith),
        )
        | inr part ↦ (
          record t { remaining_pct = rest; tp_levels_hit = tp.0; timed_exits_hit = tm.0 },
          rw (part, tp.1, tm.1),
          record { tp_fits = tp.2 ∙ f.tp_fits; timed_fits = tm.2 ∙ f.timed_fits },
          elim why [
            | inl full ↦ absurd (ground (arith, full, part))
            | inr (inl (k, e, unset)) ↦
                rw some_left (omega (arith, left-le rest, tp.4 k e unset, tm.3))
            | inr (inr (k, e, unset)) ↦
                rw some_left (omega (arith, left-le rest, tp.3, tm.4 k e unset))
          ],
        )
      ]

  exit_step_sells :
      (c : ExitConfig) (now : ℕ) (pos : Position) (t t' : ExitTracker) (d : ExitDecision)
      → evaluate c now pos t ≡ some d
      → d.should_sell ≡ true
      → apply_decision c d t ≡ some t'
      → exit_step c now pos t ≡ some (t', true)
  unfolding exit_step
  exit_step_sells c now pos t t' d e sells applied = ground arith

  exit_step_keeps :
      (c : ExitConfig) (now : ℕ) (pos : Position) (t : ExitTracker) (d : ExitDecision)
      → evaluate c now pos t ≡ some d
      → d.should_sell ≡ false
      → exit_step c now pos t ≡ some (t, false)
  unfolding exit_step
  exit_step_keeps c now pos t d e keeps = ground arith

  count_sales-cons :
      (c : ExitConfig) (now : ℕ) (pos : Position) (t t' : ExitTracker) (sold : Bool) (n : ℕ)
      (updates : List (ℕ × Position))
      → exit_step c now pos t ≡ some (t', sold)
      → count_sales c t' updates ≡ some n
      → count_sales c t ((now, pos) ∷ updates) ≡ some (if sold then suc n else n)
  unfolding count_sales
  count_sales-cons c now pos t t' sold n updates e counted = ground arith

  exit_step_lem :
      (c : ExitConfig) (now : ℕ) (pos : Position) (t : ExitTracker)
      → Fits c t
      → N.fle (float 0) (float 0) ≡ true
      → (t' : ExitTracker) × (sold : Bool) × (exit_step c now pos t ≡ some (t', sold))
        × Fits c t'
        × ((if sold then suc (chances t') else chances t') ≤ chances t)
  exit_step_lem c now pos t f zero_le =
      let (d, e, why) = evaluate_total c now pos t f in
      elim (Bool-cases d.should_sell) [
        | inl sells ↦
            let facts = why sells in
            let (t', applied, fits, less) = apply_decision_lem c d t f zero_le facts.1 facts.2 in
            (t', true, exit_step_sells c now pos t t' d e sells applied, fits, less)
        | inr keeps ↦ (t, false, exit_step_keeps c now pos t d e keeps, f, omega arith)
      ]

  count_sales_lem :
      (c : ExitConfig) (t : ExitTracker) (updates : List (ℕ × Position))
      → Fits c t
      → N.fle (float 0) (float 0) ≡ true
      → (n : ℕ) × (count_sales c t updates ≡ some n) × (n ≤ chances t)
  unfolding count_sales
  count_sales_lem c t [] f zero_le = (0, refl, omega arith)
  count_sales_lem c t ((now, pos) ∷ updates) f zero_le =
      let (t', sold, e, fits, less) = exit_step_lem c now pos t f zero_le in
      let (n, counted, small) = count_sales_lem c t' updates fits zero_le in
      (
        (if sold then suc n else n),
        count_sales-cons c now pos t t' sold n updates e counted,
        elim (Bool-cases sold) [
          | inl a ↦ ground (arith, less, small, a)
          | inr a ↦ ground (arith, less, small, a)
        ],
      )

  -- Where 0 ≤ 0 holds of floats: from a new tracker, over any price updates at any times, the exit
  -- engine neither panics nor decides to sell more often than once for each level and each timed
  -- exit and once more for the rest.
  pub sales_bounded :
      (c : ExitConfig) (id : String) (amount : N.Decimal) (updates : List (ℕ × Position))
      → N.fle (float 0) (float 0) ≡ true
      → (n : ℕ) × (count_sales c (new_exit_tracker id amount c) updates ≡ some n)
        × (n ≤ length c.tp_levels + length c.timed_exits + 1)
  unfolding new_exit_tracker
  sales_bounded c id amount updates zero_le =
      let (n, counted, small) =
        count_sales_lem c (new_exit_tracker id amount c) updates (new_exit_tracker-Fits id amount c)
          zero_le in
      (
        n,
        counted,
        omega (
          arith,
          small,
          left-le (float 100),
          unhit-replicate (length c.tp_levels),
          unhit-replicate (length c.timed_exits),
        ),
      )

  get_elem?-timed_reasons :
      (tes : List TimedExit) (k : ℕ) {te : TimedExit}
      → get_elem? tes k ≡ some te
      → get_elem? (timed_reasons tes) k ≡ some (timed_exit_reason te.after_minutes)
  unfolding timed_reasons
  get_elem?-timed_reasons [] k e = cc
  get_elem?-timed_reasons (x ∷ tes) zero {te} e =
      ap (λ (y : TimedExit). some (timed_exit_reason y.after_minutes)) (some-injective x te e)
  get_elem?-timed_reasons (x ∷ tes) (suc k) e = get_elem?-timed_reasons tes k e

  -- On a tracker made for the configuration, applying a partial sale for a timed exit marks every
  -- timed exit whose minutes lie in the same band as done.
  pub timed_exits_share_marks :
      (c : ExitConfig) (d : ExitDecision) (t : ExitTracker) (minutes k : ℕ) (te : TimedExit)
      → Fits c t
      → d.reason ≡ timed_exit_reason minutes
      → d.is_full_close ≡ false
      → get_elem? c.timed_exits k ≡ some te
      → timed_exit_reason te.after_minutes ≡ timed_exit_reason minutes
      → (t' : ExitTracker) × (apply_decision c d t ≡ some t')
        × (get_elem? t'.timed_exits_hit k ≡ some true)
  unfolding apply_decision
  timed_exits_share_marks c d t minutes k te f named part at band =
      let tps =
        marks d.reason (level_reasons 0 c.tp_levels) t.tp_levels_hit
          (omega (arith, f.tp_fits, length-level_reasons 0 c.tp_levels)) in
      let rs = timed_reasons c.timed_exits in
      let tes =
        mark_all-hit_all d.reason 0 rs t.timed_exits_hit
          (omega (arith, f.timed_fits, length-timed_reasons c.timed_exits)) in
      let found = get_elem?-timed_reasons c.timed_exits k at in
      let same : same_reason d.reason (timed_exit_reason te.after_minutes) ≡ true =
        rw (named, band) (same_reason_refl (timed_exit_reason minutes)) in
      (
        record t {
          remaining_pct = N.fmul t.remaining_pct (N.fsub (float 1) (percent d.sell_pct));
          tp_levels_hit = tps.0;
          timed_exits_hit = hit_all d.reason 0 rs t.timed_exits_hit;
        },
        rw (part, tps.1, tes),
        rw (← zero-add k) (
            get_elem?-hit_all d.reason 0 rs t.timed_exits_hit k found same (
              omega (
                arith,
                get_elem?-lt rs k found,
                f.timed_fits,
                length-timed_reasons c.timed_exits,
              ))),
      )
