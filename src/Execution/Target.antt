-- ===== src/Execution/Target.antt =====
-- The order that nexus/internal/execution/engine.go derives from a target position.
use mmh.Prelude.{
  ◌≡◌, ap, ◌∙◌, ℕ, String, true, false, Option, none, some, [], ◌∷◌, arith, str_eq, str_eq_iff,
  str_eq_refl, lookup,
}
use mmh.Numbers.{Numbers, is_zero}
use mmh.Numbers.Laws.{IsGroup, HasAbs}
use mmh.Order.{OrderIntent}
use mmh.Position.{
  Fill, Position, PositionManager, signed_qty_of, apply_fill, apply_at, get_position, position_key,
  flat,
}
use mmh.Position.Effect.{apply_fill_to_position_effect}
use mmh.Position.Refinement.{book, key_of, flat_of, lookup-apply_at}
use mmh.Execution.{Engine}
use mmh.Execution.Signals.{
  StrategySignal, exchange_of, qty_of, current_qty, compute_target_position_intents,
}

module _ ⦃N : Numbers⦄ where
  -- A fill of the whole intent, for its strategy, exchange and symbol.
  abbrev pub Fulfils : Fill → OrderIntent → Type 0
  Fulfils f i =
      (f.qty ≡ i.qty)
      × (f.side ≡ i.side)
      × (f.strategy_id ≡ i.strategy_id)
      × (f.exchange ≡ i.exchange)
      × (f.symbol ≡ i.symbol)

  -- The quantity of a new position that a fill is booked on is 0.
  book-qty :
      (o : Option Position) (f : Fill) → (book flat_of o f).qty ≡ N.add (qty_of o) (signed_qty_of f)
  unfolding flat
  book-qty none f =
      (apply_fill_to_position_effect (flat_of f) f.price (signed_qty_of f) f.fee f.timestamp).0
  book-qty (some p) f =
      (apply_fill_to_position_effect p f.price (signed_qty_of f) f.fee f.timestamp).0

  apply_fill-qty :
      (f : Fill) (strategy_id exchange symbol : String) (pm : PositionManager)
      → f.strategy_id ≡ strategy_id
      → f.exchange ≡ exchange
      → f.symbol ≡ symbol
      → qty_of (get_position strategy_id exchange symbol (apply_fill f pm))
        ≡ N.add (qty_of (get_position strategy_id exchange symbol pm)) (signed_qty_of f)
  unfolding get_position apply_fill
  apply_fill-qty f strategy_id exchange symbol pm s x y =
      let k = position_key strategy_id exchange symbol in
      let same : key_of f ≡ k = cc in
      let test : str_eq (key_of f) k ≡ true = ap (λ key. str_eq key k) same ∙ str_eq_refl k in
      let stored : lookup k (apply_at (key_of f) (flat_of f) f pm.positions)
          ≡ some (book flat_of (lookup k pm.positions) f) =
        (rw test at (lookup-apply_at k (key_of f) flat_of f pm.positions))
        ∙ ap (λ key. some (book flat_of (lookup key pm.positions) f)) same in
      ap qty_of stored ∙ book-qty (lookup k pm.positions) f

  module _ (laws : IsGroup) (abs_laws : HasAbs) where
    signed_diff :
        (uuid : ℕ → String) (signal : StrategySignal) (trace : String) (e : Engine)
        (i : OrderIntent) (f : Fill)
        → compute_target_position_intents uuid signal trace e ≡ i ∷ []
        → Fulfils f i
        → signed_qty_of f
          ≡ N.sub signal.target_position (current_qty signal (exchange_of signal e) e)
    unfolding compute_target_position_intents signed_qty_of
    signed_diff uuid signal trace e i f h (q, s, st, ex, sy) =
        let diff = N.sub signal.target_position (current_qty signal (exchange_of signal e) e) in
        ground (arith, abs_laws.neg-abs diff, str_eq_iff f.side "sell", str_eq_iff "buy" "sell")

    -- With exact additions: once the position manager has applied a fill of the whole of the derived
    -- intent, the strategy's position on the intent's exchange and symbol has the target quantity;
    -- the intent is a market order for the signal's strategy and symbol, and the signed quantity of the fill
    -- is not zero.
    pub target_reached :
        (uuid : ℕ → String) (signal : StrategySignal) (trace : String) (e : Engine)
        (i : OrderIntent) (f : Fill)
        → compute_target_position_intents uuid signal trace e ≡ i ∷ []
        → Fulfils f i
        → (qty_of (
              get_position signal.strategy_id
                (exchange_of signal e)
                signal.symbol
                (apply_fill f e.pos_mgr))
            ≡ signal.target_position)
          × (i.strategy_id ≡ signal.strategy_id)
          × (i.symbol ≡ signal.symbol)
          × (i.exchange ≡ exchange_of signal e)
          × (i.order_type ≡ "market")
          × (is_zero (signed_qty_of f) ≡ false)
    unfolding compute_target_position_intents current_qty
    target_reached uuid signal trace e i f h (q, s, st, ex, sy) =
        let w : Fulfils f i = (q, s, st, ex, sy) in
        let exchange = exchange_of signal e in
        let cur = current_qty signal exchange e in
        let for_strategy : i.strategy_id ≡ signal.strategy_id = ground arith in
        let for_symbol : i.symbol ≡ signal.symbol = ground arith in
        let on_exchange : i.exchange ≡ exchange = ground arith in
        (
          apply_fill-qty f signal.strategy_id exchange signal.symbol e.pos_mgr (st ∙ for_strategy)
                (ex ∙ on_exchange) (sy ∙ for_symbol)
              ∙ ap (N.add cur) (signed_diff uuid signal trace e i f h w)
              ∙ laws.add-sub cur signal.target_position,
          for_strategy,
          for_symbol,
          on_exchange,
          ground arith,
          ap is_zero (signed_diff uuid signal trace e i f h w) ∙ ground arith,
        )
