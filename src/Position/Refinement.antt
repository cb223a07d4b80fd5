-- ===== src/Position/Refinement.antt =====
-- The maps of nexus/internal/execution/position.go against the history of fills: the position under a
-- key is what the fills of that key make, in their order.
use mmh.Prelude.{
  ◌≡◌, refl, ap, ◌∙◌, str_eq_iff, Bool, Option, none, some, String, List, [], ◌∷◌, arith, Map,
  lookup, lookup-insert, str_eq, if◌then◌else◌, Bool-cases, inl, inr,
}
use mmh.Numbers.{Numbers}
use mmh.Position.{
  Position, Fill, PositionManager, position_key, global_key, apply_fill_to_position, signed_qty_of,
  flat, found_or, apply_at, apply_fill, apply_fills, new_position_manager, get_position,
  get_global_position,
}

module _ ⦃N : Numbers⦄ where
  abbrev pub keep : (Fill → Bool) → List Fill → List Fill
  keep test [] = []
  keep test (f ∷ fs) = let rest = keep test fs in if test f then f ∷ rest else rest

  -- One fill on a position, or on the new one `fresh f`.
  abbrev pub book : (Fill → Position) → Option Position → Fill → Position
  book fresh none f = apply_fill_to_position (fresh f) f.price (signed_qty_of f) f.fee f.timestamp
  book fresh (some p) f = apply_fill_to_position p f.price (signed_qty_of f) f.fee f.timestamp

  abbrev pub replay : (Fill → Position) → Option Position → List Fill → Option Position
  replay fresh o [] = o
  replay fresh o (f ∷ fs) = replay fresh (some (book fresh o f)) fs

  abbrev pub key_of : Fill → String
  key_of f = position_key f.strategy_id f.exchange f.symbol

  abbrev pub flat_of : Fill → Position
  flat_of f = flat f.strategy_id f.exchange f.symbol

  abbrev pub global_key_of : Fill → String
  global_key_of f = global_key f.exchange f.symbol

  abbrev pub global_flat_of : Fill → Position
  global_flat_of f = flat "_global" f.exchange f.symbol

  pub lookup-apply_at :
      (k key : String) (fresh : Fill → Position) (f : Fill) (m : Map Position)
      → lookup k (apply_at key (fresh f) f m)
        ≡ (if str_eq key k then some (book fresh (lookup key m) f) else lookup k m)
  unfolding apply_at
  lookup-apply_at k key fresh f m = ground (
    arith,
    lookup-insert key k
        (apply_fill_to_position (found_or (fresh f) (lookup key m)) f.price (signed_qty_of f) f.fee
          f.timestamp)
        m,
  )

  -- The loop over the fills on one of the two maps.
  apply_all_at : (Fill → String) → (Fill → Position) → Map Position → List Fill → Map Position
  apply_all_at key fresh m [] = m
  apply_all_at key fresh m (f ∷ fs) = apply_all_at key fresh (apply_at (key f) (fresh f) f m) fs

  lookup-apply_all_at :
      (k : String) (key : Fill → String) (fresh : Fill → Position) (m : Map Position)
      (fs : List Fill)
      → lookup k (apply_all_at key fresh m fs)
        ≡ replay fresh (lookup k m) (keep (λ f. str_eq (key f) k) fs)
  unfolding apply_all_at
  lookup-apply_all_at k key fresh m [] = refl
  lookup-apply_all_at k key fresh m (f ∷ fs) =
      let rest = lookup-apply_all_at k key fresh (apply_at (key f) (fresh f) f m) fs in
      let here = lookup-apply_at k (key f) fresh f m in
      elim (Bool-cases (str_eq (key f) k)) [
        | inl e ↦
            let same : key f ≡ k = (str_eq_iff (key f) k).0 e in
            rw e (
              rest
              ∙ ap (λ o. replay fresh o (keep (λ g. str_eq (key g) k) fs))
                  ((rw e at here) ∙ ap (λ j. some (book fresh (lookup j m) f)) same))
        | inr e ↦
            rw e (rest ∙ ap (λ o. replay fresh o (keep (λ g. str_eq (key g) k) fs)) (rw e at here))
      ]

  apply_fills_parts :
      (pm : PositionManager) (fs : List Fill)
      → ((apply_fills pm fs).positions ≡ apply_all_at key_of flat_of pm.positions fs)
        × ((apply_fills pm fs).global_pos
            ≡ apply_all_at global_key_of global_flat_of pm.global_pos fs)
  unfolding apply_fills apply_all_at apply_fill
  apply_fills_parts pm [] = (refl, refl)
  apply_fills_parts pm (f ∷ fs) = apply_fills_parts (apply_fill f pm) fs

  -- After any fills from the start, the position of a strategy on an exchange and symbol is what the
  -- fills with its key make of a flat position, in their order; fills with other keys do not touch
  -- it. The netted position is made in the same way by the fills of all strategies.
  pub apply_fills_refines :
      (strategy_id exchange symbol : String) (fs : List Fill)
      → let pm = apply_fills new_position_manager fs in
        (get_position strategy_id exchange symbol pm
          ≡ replay flat_of none
              (keep (λ f. str_eq (key_of f) (position_key strategy_id exchange symbol)) fs))
        × (get_global_position exchange symbol pm
            ≡ replay global_flat_of none
                (keep (λ f. str_eq (global_key_of f) (global_key exchange symbol)) fs))
  unfolding get_position get_global_position new_position_manager lookup
  apply_fills_refines strategy_id exchange symbol fs =
      let parts = apply_fills_parts new_position_manager fs in
      (
        ap (lookup (position_key strategy_id exchange symbol)) parts.0
            ∙ lookup-apply_all_at (position_key strategy_id exchange symbol) key_of flat_of [] fs,
        ap (lookup (global_key exchange symbol)) parts.1
            ∙ lookup-apply_all_at (global_key exchange symbol) global_key_of global_flat_of [] fs,
      )
