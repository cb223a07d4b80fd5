-- ===== src/Execution/Signals.antt =====
-- Signals of nexus/internal/execution/engine.go: from a strategy's signal to intents, and `Execute`.
-- `uuid n` is the text of the n-th call of `uuid.New()`; the same texts cut to 16 characters are
-- `short_uuid`. Of `Metadata` the entry "exchange" is kept, where it is a text.
use mmh.Prelude.{ℕ, ◌+◌, String, Option, none, some, List, [], ◌∷◌, if◌then◌else◌, Map, str_eq}
use mmh.Numbers.{Numbers, is_zero, is_negative}
use mmh.Order.{OrderIntent}
use mmh.Position.{Position, get_position}
use mmh.Execution.{Engine, Error, ExchangeAdapter, execute_all}

module _ ⦃N : Numbers⦄ where
  -- bus.StrategySignal, with the fields of its BaseEvent that are read.
  pub record StrategySignal : Type 0 where
    pub event_id : String
    pub trace_id : String
    pub correlation_id : String
    pub strategy_id : String
    pub symbol : String
    pub signal_type : String
    pub confidence : N.Float
    pub target_position : N.Decimal
    pub orders_intent : List OrderIntent
    pub reason_codes : List String
    pub metadata_exchange : Option String

  abbrev or_text : String → String → String
  or_text s default = if str_eq s "" then default else s

  -- The loop that fills in what an explicit intent leaves out.
  unfoldable pub complete_intents :
      (ℕ → String) → ℕ → StrategySignal → String → List OrderIntent → List OrderIntent
  complete_intents uuid n signal trace [] = []
  complete_intents uuid n signal trace (i ∷ is) =
      record i {
        trace_id = or_text i.trace_id trace;
        strategy_id = or_text i.strategy_id signal.strategy_id;
        intent_id = or_text i.intent_id (uuid n);
        causation_id = or_text i.causation_id signal.event_id;
        correlation_id = or_text i.correlation_id signal.correlation_id;
      }
      ∷ complete_intents uuid (n + 1) signal trace is

  -- The first adapter of the map, whose order Go leaves open; "" where there is none.
  abbrev pub first_adapter : Map ExchangeAdapter → String
  first_adapter [] = ""
  first_adapter (a ∷ as') = a.0

  unfoldable pub exchange_of : StrategySignal → Engine → String
  exchange_of signal e = elim signal.metadata_exchange [
    | some ex ↦ ex
    | none ↦ first_adapter e.adapters
  ]

  abbrev pub qty_of : Option Position → N.Decimal
  qty_of none = N.zero
  qty_of (some p) = p.qty

  unfoldable pub current_qty : StrategySignal → String → Engine → N.Decimal
  current_qty signal exchange e =
      qty_of (get_position signal.strategy_id exchange signal.symbol e.pos_mgr)

  unfoldable pub compute_target_position_intents :
      (ℕ → String) → StrategySignal → String → Engine → List OrderIntent
  unfolding exchange_of current_qty
  compute_target_position_intents uuid signal trace e =
      let exchange = exchange_of signal e in
      let diff = N.sub signal.target_position (current_qty signal exchange e) in
      let intent : OrderIntent = record {
        event_id = uuid 0;
        trace_id = trace;
        causation_id = signal.event_id;
        correlation_id = signal.correlation_id;
        intent_id = uuid 2;
        strategy_id = signal.strategy_id;
        exchange = exchange;
        symbol = signal.symbol;
        side = if is_negative diff then "sell" else "buy";
        order_type = "market";
        qty = if is_negative diff then N.abs diff else diff;
        limit_price = N.zero;
        time_in_force = "IOC";
        tags = [];
      } in
      if str_eq exchange "" then [] else if is_zero diff then [] else intent ∷ []

  unfoldable pub signal_to_intents :
      (ℕ → String) → StrategySignal → String → Engine → List OrderIntent
  unfolding complete_intents compute_target_position_intents
  signal_to_intents uuid signal trace e = elim signal.orders_intent [
    | i ∷ is ↦ complete_intents uuid 0 signal trace (i ∷ is)
    | [] ↦
        if str_eq signal.signal_type "target_position"
        then compute_target_position_intents uuid signal trace e
        else []
  ]

  unfoldable pub execute :
      ℕ → (ℕ → String) → String → StrategySignal → Engine → Engine × Option Error
  unfolding signal_to_intents
  execute now uuid short_uuid signal e =
      let trace = or_text signal.trace_id short_uuid in
      execute_all now trace (signal_to_intents uuid signal trace e) e
