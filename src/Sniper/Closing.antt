-- ===== src/Sniper/Closing.antt =====
-- What `ForceClose` of nexus/internal/sniper/sniper.go closes.
use mmh.Prelude.{
  ◌≡◌, refl, ap, sym, subst, ◌∙◌, ◌⊎◌, inl, inr, ℕ, String, true, false, Option, some, List, [],
  ◌∷◌, arith, Map, lookup, insert, lookup-insert, lookup-insert_self, lookup-insert_ne, Bool-cases,
  Option-cases, str_eq, str_eq_iff, length,
}
use mmh.Numbers.{Numbers}
use mmh.Exits.{Position, is_open, Reason, other_reason}
use Prim.Native.String.{◌++◌ as append}
use mmh.Sniper.{
  swap_params, sol_mint, closed_position, Engine, SwapParams, SwapResult, is_over, execute_sell,
}
use mmh.Sniper.Running.{open_ids, close_all, force_close}

module _ ⦃N : Numbers⦄ where
  -- The position with this id is not open, or there is none.
  abbrev pub IsShut : String → Engine → Type 0
  IsShut id e = (pos : Position) → lookup id e.positions ≡ some pos → is_open pos.status ≡ false

  -- Every swap is answered.
  abbrev pub Answers : (ℕ → SwapParams → Option SwapResult) → Type 0
  Answers swap = (n : ℕ) (p : SwapParams) → (r : SwapResult) × (swap n p ≡ some r)

  -- A sale that is answered closes the position, or finds it not open.
  abbrev Sold : String → Engine → Engine → Type 0
  Sold id e e' =
      ((p : Position) × (is_open p.status ≡ false) × (e'.positions ≡ insert id p e.positions))
      ⊎ ((e'.positions ≡ e.positions) × IsShut id e)

  execute_sell-Sold :
      (swap : ℕ → SwapParams → Option SwapResult) (now : ℕ) (id : String) (why : Reason)
      (e : Engine)
      → Answers swap
      → Sold id e (execute_sell swap now id why e)
  unfolding execute_sell
  execute_sell-Sold swap now id why e answers = elim (Option-cases (lookup id e.positions)) [
    | inl absent ↦ inr (ground (arith, absent), λ p at. cc)
    | inr (pos, at) ↦
        let q = swap_params e.config pos.token_mint sol_mint pos.amount_token in
        let (r, answered) = answers (length e.swaps) q in
        elim (Bool-cases (is_over pos.status)) [
          | inl over ↦ inr (ground (arith, at, over), λ p at'. ground (arith, at, at', over))
          | inr live ↦ elim (Bool-cases (e.config).dry_run) [
            | inl dry ↦ inl (
              closed_position now why (append "DRYRUN-SELL-" id) pos,
              refl,
              ground (arith, at, live, dry),
            )
            | inr real ↦ inl (
              closed_position now why r.signature pos,
              refl,
              ground (arith, at, live, real, answered),
            )
          ]
        ]
  ]

  Sold-IsShut : (id : String) (e e' : Engine) → Sold id e e' → IsShut id e'
  Sold-IsShut id e e' (inl (p, shut, eq)) pos at =
      ground (arith, shut, sym at ∙ ap (lookup id) eq ∙ lookup-insert_self id p e.positions)
  Sold-IsShut id e e' (inr (eq, shut)) pos at = shut pos (sym (ap (lookup id) eq) ∙ at)

  Sold-IsShut_keep : (id j : String) (e e' : Engine) → Sold id e e' → IsShut j e → IsShut j e'
  Sold-IsShut_keep id j e e' (inl (p, shut, eq)) before pos at = elim (Bool-cases (str_eq id j)) [
    | inl same ↦
        ground (arith, shut, lookup-insert id j p e.positions, same, sym at ∙ ap (lookup j) eq)
    | inr other ↦
        before pos (sym (ap (lookup j) eq ∙ lookup-insert_ne id j p e.positions other) ∙ at)
  ]
  Sold-IsShut_keep id j e e' (inr (eq, shut)) before pos at =
      before pos (sym (ap (lookup j) eq) ∙ at)

  close_all-IsShut_keep :
      (swap : ℕ → SwapParams → Option SwapResult) (now : ℕ) (ids : List String) (e : Engine)
      (j : String)
      → Answers swap
      → IsShut j e
      → IsShut j (close_all swap now ids e)
  unfolding close_all
  close_all-IsShut_keep swap now [] e j answers shut = shut
  close_all-IsShut_keep swap now (id ∷ ids) e j answers shut =
      let why = other_reason "FORCE_CLOSE" in
      let e' = execute_sell swap now id why e in
      close_all-IsShut_keep swap now ids e' j answers
        (Sold-IsShut_keep id j e e' (execute_sell-Sold swap now id why e answers) shut)

  same_key : (id j : String) → str_eq id j ≡ true → id ≡ j
  same_key id j h = (str_eq_iff id j).0 h

  open_ids-open :
      (id : String) (q : Position) (m : Map Position)
      → is_open q.status ≡ true
      → open_ids ((id, q) ∷ m) ≡ id ∷ open_ids m
  unfolding open_ids
  open_ids-open id q m h = ground (arith, h)

  open_ids-shut :
      (id : String) (q : Position) (m : Map Position)
      → is_open q.status ≡ false
      → open_ids ((id, q) ∷ m) ≡ open_ids m
  unfolding open_ids
  open_ids-shut id q m h = ground (arith, h)

  close_all-IsShut :
      (swap : ℕ → SwapParams → Option SwapResult) (now : ℕ) (m : Map Position) (e : Engine)
      (j : String) (p : Position)
      → Answers swap
      → lookup j m ≡ some p
      → is_open p.status ≡ true
      → IsShut j (close_all swap now (open_ids m) e)
  unfolding close_all lookup
  close_all-IsShut swap now [] e j p answers at opened = cc
  close_all-IsShut swap now ((id, q) ∷ m) e j p answers at opened =
      let why = other_reason "FORCE_CLOSE" in
      let e' = execute_sell swap now id why e in
      let sold = execute_sell-Sold swap now id why e answers in
      elim (Bool-cases (str_eq id j)) [
        | inl same ↦
            let is_p : q ≡ p = ground (arith, at, same) in
            let shut : IsShut j e' =
              subst (λ k. IsShut k e') (same_key id j same) (Sold-IsShut id e e' sold) in
            rw (open_ids-open id q m (ap (λ x. is_open (x.status)) is_p ∙ opened))
              (close_all-IsShut_keep swap now (open_ids m) e' j answers shut)
        | inr other ↦
            let later : lookup j m ≡ some p = ground (arith, at, other) in
            elim (Bool-cases (is_open q.status)) [
              | inl head ↦
                  rw (open_ids-open id q m head)
                    (close_all-IsShut swap now m e' j p answers later opened)
              | inr head ↦
                  rw (open_ids-shut id q m head)
                    (close_all-IsShut swap now m e j p answers later opened)
            ]
      ]

  -- When every swap is answered, no position is open after `ForceClose`.
  pub force_close_closes :
      (swap : ℕ → SwapParams → Option SwapResult) (now : ℕ) (e : Engine) (j : String)
      → Answers swap
      → IsShut j (force_close swap now e)
  unfolding force_close
  force_close_closes swap now e j answers =
      let e' : Engine = record e { csm_running = [] } in
      elim (Option-cases (lookup j e.positions)) [
        | inl absent ↦
            close_all-IsShut_keep swap now (open_ids e.positions) e' j answers (λ p at. cc)
        | inr (p, at) ↦ elim (Bool-cases (is_open p.status)) [
          | inl opened ↦ close_all-IsShut swap now e.positions e' j p answers at opened
          | inr shut ↦
              close_all-IsShut_keep swap now (open_ids e.positions) e' j answers
                (λ p' at'. ground (arith, at, at', shut))
        ]
      ]
