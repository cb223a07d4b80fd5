-- ===== src/Sniper/Overlap.antt =====
-- `executeSell` of nexus/internal/sniper/sniper.go in its two parts: the first holds the lock while it
-- tests the status, the second follows the swap, during which the lock is free.
use mmh.Prelude.{
  ◌≡◌, inl, inr, ℕ, ◌+◌, String, false, Option, none, some, [], ◌∷◌, arith, Map, lookup, insert,
  leb, length-append, lookup-insert_self, Bool-cases, Option-cases, if◌then◌else◌, length, str_eq,
  str_eq_refl,
}
use Prim.Native.String.{◌++◌ as append}
use mmh.Numbers.{Numbers}
use mmh.Exits.{Position, PositionStatus, open_status, closing, closed, failed, Reason}
use mmh.Sniper.{
  swap_params, sol_mint, log_swap, Engine, SwapParams, SwapResult, is_over, sell_fails,
  sell_succeeds, execute_sell,
}

module _ ⦃N : Numbers⦄ where
  -- The part before the swap; `none` is the early return.
  unfoldable pub begin_sell : String → Engine → Option Engine
  begin_sell id e = elim (lookup id e.positions) [
    | none ↦ none
    | some pos ↦
        if is_over pos.status
        then none
        else some (record e { positions = insert id (record pos { status = closing }) e.positions })
  ]

  -- The swap and the part after it.
  unfoldable pub finish_sell :
      (ℕ → SwapParams → Option SwapResult) → ℕ → String → Reason → Engine → Engine
  unfolding sell_fails sell_succeeds
  finish_sell swap now id reason e = elim (lookup id e.positions) [
    | none ↦ e
    | some pos ↦
        let p = swap_params e.config pos.token_mint sol_mint pos.amount_token in
        let e' = log_swap p e in
        if (e.config).dry_run
        then sell_succeeds now id reason (append "DRYRUN-SELL-" id) pos e
        else elim (swap (length e.swaps) p) [
          | none ↦ record e' {
            positions = insert id (sell_fails now reason e.config pos) e.positions;
          }
          | some r ↦ sell_succeeds now id reason r.signature pos e'
        ]
  ]

  abbrev pub status_of : String → Engine → Option PositionStatus
  status_of id e = elim (lookup id e.positions) [ none ↦ none | some pos ↦ some pos.status ]

  insert-insert :
      (id : String) (p q : Position) (m : Map Position)
      → insert id p (insert id q m) ≡ insert id p m
  unfolding insert
  insert-insert id p q [] = ground (arith, str_eq_refl id)
  insert-insert id p q ((j, w) ∷ m) = elim (Bool-cases (str_eq j id)) [
    | inl same ↦ ground (arith, same, str_eq_refl id)
    | inr other ↦ ground (arith, other, insert-insert id p q m)
  ]

  -- The two parts, with nothing between them.
  abbrev pub sell : (ℕ → SwapParams → Option SwapResult) → ℕ → String → Reason → Engine → Engine
  sell swap now id why e = elim (begin_sell id e) [
    | none ↦ e
    | some e' ↦ finish_sell swap now id why e'
  ]

  -- `execute_sell` is the two parts with nothing between them.
  execute_sell-parts :
      (swap : ℕ → SwapParams → Option SwapResult) (now : ℕ) (id : String) (why : Reason)
      (e : Engine)
      → execute_sell swap now id why e ≡ sell swap now id why e
  unfolding execute_sell begin_sell finish_sell sell_fails sell_succeeds
  execute_sell-parts swap now id why e = elim (Option-cases (lookup id e.positions)) [
    | inl absent ↦ ground (arith, absent)
    | inr (pos, at) ↦
        let pos' : Position = record pos { status = closing } in
        let p = swap_params e.config pos.token_mint sol_mint pos.amount_token in
        elim (Bool-cases (is_over pos.status)) [
          | inl over ↦ ground (arith, at, over)
          | inr live ↦ grind (arith, at, live, lookup-insert_self, insert-insert)
        ]
  ]

  -- Both of two sales begin.
  begin_both :
      (id : String) (e : Engine) (pos : Position)
      → lookup id e.positions ≡ some pos
      → is_over pos.status ≡ false
      → (e₁ : Engine) × (begin_sell id e ≡ some e₁)
        × (begin_sell id e₁
            ≡ some
                (record e { positions = insert id (record pos { status = closing }) e.positions }))
  unfolding begin_sell
  begin_both id e pos at live =
      let pos' : Position = record pos { status = closing } in
      (
        record e { positions = insert id pos' e.positions },
        ground (arith, at, live),
        ground
            (arith, lookup-insert_self id pos' e.positions, insert-insert id pos' pos' e.positions),
      )

  -- Outside dry run, two sales begin of a position that is neither closed nor failed, and the first is
  -- answered: the position is closed and counted as sold. When the second's swap then fails, the
  -- position is closed no longer: it is open again, or failed where the retries run out; its exit
  -- tracker is gone.
  pub overlapping_sale_reopens :
      (swap : ℕ → SwapParams → Option SwapResult) (now later : ℕ) (id : String) (why why' : Reason)
      (e : Engine) (pos : Position) (r : SwapResult)
      → lookup id e.positions ≡ some pos
      → is_over pos.status ≡ false
      → (e.config).dry_run ≡ false
      → swap (length e.swaps) (swap_params e.config pos.token_mint sol_mint pos.amount_token)
        ≡ some r
      → swap (length e.swaps + 1) (swap_params e.config pos.token_mint sol_mint pos.amount_token)
        ≡ none
      → (e₁ e₂ : Engine) × (begin_sell id e ≡ some e₁)
        × (begin_sell id e₁ ≡ some e₂)
        × (status_of id (finish_sell swap now id why e₂) ≡ some closed)
        × ((finish_sell swap now id why e₂).total_sells ≡ e.total_sells + 1)
        × (status_of id (finish_sell swap later id why' (finish_sell swap now id why e₂))
            ≡ some (
                if leb (e.config).max_sell_retries (pos.sell_retries + 1)
                then failed
                else open_status))
        × (lookup id (finish_sell swap later id why' (finish_sell swap now id why e₂)).trackers
            ≡ some none)
  unfolding finish_sell sell_fails sell_succeeds
  overlapping_sale_reopens swap now later id why why' e pos r at live real first second =
      let pos' : Position = record pos { status = closing } in
      let p = swap_params e.config pos.token_mint sol_mint pos.amount_token in
      let (e₁, begins, again) = begin_both id e pos at live in
      let e₂ : Engine = record e { positions = insert id pos' e.positions } in
      let there = lookup-insert_self id pos' e.positions in
      let closes : status_of id (finish_sell swap now id why e₂) ≡ some closed =
        grind (arith, there, real, first, lookup-insert_self) in
      (
        e₁,
        e₂,
        begins,
        again,
        closes,
        grind (arith, there, real, first),
        grind (arith, there, real, first, second, lookup-insert_self, length-append),
        grind (arith, there, real, first, second, lookup-insert_self, length-append),
      )
