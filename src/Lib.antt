-- ===== src/Lib.antt =====
-- The trading core of NEXUS, the Go platform under nexus/: orders, positions, risk and execution,
-- and its sniper of new tokens.
--
-- A strategy's signal becomes intents (nexus/internal/execution/engine.go, Execute). Each intent
-- passes the risk engine (nexus/internal/risk/engine.go, Check), becomes an order with a state
-- machine (nexus/internal/execution/order_sm.go, Transition) and is sent to an exchange adapter.
-- A fill that the exchange reports moves the order and the positions
-- (nexus/internal/execution/position.go, ApplyFill).
-- The sniper (nexus/internal/sniper/sniper.go) buys a discovered token within a daily budget and
-- sells it, in parts or as a whole, when its exit engine (nexus/internal/sniper/exits.go,
-- Evaluate) decides so at a new price.
-- The graph of wallets (nexus/internal/graph/engine.go) collects transfers and answers, by a
-- breadth-first search, how near a deployer is to known ruggers.
--
-- Prelude: tests, lists, maps with text keys and signed integers. Numbers: shopspring's
-- decimal.Decimal and float64 as a parameter, a record of the operations that the code calls;
-- Numbers/Laws has the laws that theorems name as hypotheses and Numbers/Whole an instance over
-- the integers that runs.
-- Order: order_sm.go. record_fill, transitions and transition are recordFill, the table and
-- Transition; new_order is NewOrder. Order/Diagram, Order/Fills and Order/Cancel hold its
-- theorems.
-- Position: position.go. apply_fill and apply_fill_to_position are ApplyFill and
-- applyFillToPosition; get_position, get_global_position, strategy_pnl and total_exposure_usd are
-- the queries. Theorems in Position/Effect, Position/Refinement and Position/Netting.
-- Risk: risk/engine.go. check, kill, freeze, resume, update_pnl and update_exposure are the
-- methods of Engine. Theorems in Risk/Policies, Risk/Halts and Risk/History, which reads the
-- decision from the calls made before.
-- Execution: execution/engine.go. execute_intent is executeIntent, in parts place, route,
-- submit_to and acknowledge; handle_fill is HandleFill, cancel_order is CancelOrder;
-- Execution/Signals has Execute and the derivation of intents. Theorems in Execution/Gate,
-- Execution/Invariant, Execution/Fills, Execution/Cancels and Execution/Target.
-- Exits: sniper/exits.go, with the position of sniper/sniper.go. evaluate and apply_decision are
-- Evaluate and ApplyDecision; the checks have their names. Theorems in Exits/Total and
-- Exits/Bounded; Exits/Hits has lemmas on marks.
-- Sniper: sniper/sniper.go. on_discovery, execute_buy, execute_sell, execute_partial_sell and the
-- two of the budget are its methods; Sniper/Prices has UpdatePrice and Sniper/Running ForceClose,
-- the answer to a monitor's warning, and the reports. A goroutine that sells is a task, run as a
-- call of its own; a deleted entry of trackers is none; loops over maps go in the order of the
-- list, which Go leaves open. Sniper/Overlap has executeSell in two parts, begin_sell and
-- finish_sell, between which the mutex is free. Theorems in Sniper/Budget, Sniper/Selling,
-- Sniper/Closing and Sniper/Overlap.
-- Paper: execution/paper_broker.go, a broker that simulates an exchange. submit_order,
-- simulate_fill and cancel_order are its methods; pending has the ids of the orders that
-- pendingOrders points to. Theorems in Paper/Live, Paper/Books and Paper/Stranded; Paper/Pending
-- has the invariant.
-- Graph: graph/engine.go with graph/persistence.go. Graph has the state and what feeds it;
-- Graph/Search the breadth-first search, whose fuel is the number of the ends of all edges and
-- one, which Graph/Search/Ends shows to be enough; Graph/Queries QueryDeployer, where
-- query_deployer reads the map of what was visited in the order of the search and MayReport in
-- any order, Graph/Labels propagateLabels, DetectSybilCluster and QueryCluster, Graph/Upkeep
-- Evict and the snapshots. Theorems in Graph/Search/Distance, Graph/Queries/Hops,
-- Graph/Queries/Scores, Graph/Labels/Exchanges, Graph/Labels/Restarts (with snapshots and
-- restarts of the process), Graph/Labels/Cluster, Graph/Labels/Visits and Graph/Upkeep/Snapshots.
-- Correlation: correlation/crosstoken.go, the detector of tokens of one deployer.
-- record_token_launch, update_token_status, mark_rugged and cleanup are its methods, recalculate
-- and assess_risk the judgement of a cluster. Theorems in Correlation/Clusters and
-- Correlation/Rugs; Correlation/Ids has lemmas on maps.
-- Honeypot: honeypot/evolution.go, the tracker that learns patterns from rugs. record_rug,
-- check_contract, retroactive_scan and add_pattern are its methods; Hashing has SHA-256 and
-- hexadecimal text as parameters. Theorems in Honeypot/Known and Honeypot/Limits.
-- Scanner: scanner/sellsim.go. simulate_sell and simulate_pre_buy are SimulateSell and
-- SimulatePreBuy. Scanner/Pools: scanner/poolstate.go, the watched pools; track_pool,
-- record_trade, refresh_all and evict_expired are its methods, and Scanner/Pools/Limits is about
-- their number. Scanner/Sanitizer: scanner/sanitizer.go, the first filter of tokens, with a
-- parameter for texts and patterns; check is Check and judge what it makes of the graph's report.
-- Scanner/Sanitizer/Passed is about the tokens that pass.
-- Safety: sniper/csm.go, the monitor of one position. check_sell_sim, check_holder_exodus,
-- check_liquidity and check_entity_graph are its checks, run_checks a round and run the loop of
-- Run; it asks Graph for a report and Honeypot for a pattern. The position, the graph and the
-- tracker are shared with the rest of the program, so a round carries those of its time. Theorems
-- in Safety/Dangers and Safety/Warnings; Safety/Returns is about the end of the searches.
-- The Examples modules hold the tests and the theorems at concrete inputs.
--
-- A method that changes its receiver returns the new state, an error is an Option of a data type,
-- a Go map is an association list, and time.Now, uuid.New and the answers of exchanges are
-- arguments. Loops are recursions on lists, and on fuel where they run over a queue. Counters and
-- times are numbers without bound. A method is one step: its mutex is left out, and so, but for
-- executeSell in Sniper/Overlap, are interleavings of the parts of a method that releases it. Log
-- lines are left out. Network clients, storage, the event bus, configuration and the commands are
-- not modelled, being input and output, nor are the rest of the scanner, the strategies and the
-- other analysis parts.
pub mod Correlation
pub mod Execution
pub mod Exits
pub mod Graph
pub mod Honeypot
pub mod Numbers
pub mod Order
pub mod Paper
pub mod Position
pub mod Prelude
pub mod Risk
pub mod Safety
pub mod Scanner
pub mod Sniper
