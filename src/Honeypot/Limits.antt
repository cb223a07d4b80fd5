-- ===== src/Honeypot/Limits.antt =====
-- The size of what the tracker of nexus/internal/honeypot/evolution.go keeps, and the contracts that its own patterns
-- cannot match.
use mmh.Prelude.{
  ◌≡◌, refl, sym, ap, subst, ◌∙◌, inl, inr, ℕ, suc, ◌≤◌, ◌<◌, none, some, List, [], ◌∷◌, arith,
  length, length-append, length-insert, Map, Holds, Holds-insert, Bool-cases, Option-cases,
}
use mathlib.Core.Option.{some-injective, none-ne-some}
use mmh.Numbers.{Numbers}
use mmh.Honeypot.{
  Hashing, Signature, RugSample, EvolutionConfig, Tracker, new_tracker, match_pattern, hit,
  hit_first, record_rug, find_match, check_contract, store_sample,
}
use mmh.Honeypot.Known.{
  length-take_bytes, View, same, counted, learnt, record_rug-View, id_for, record_rugs,
  record_rug-config,
}

module _ ⦃N : Numbers⦄ ⦃H : Hashing⦄ where
  -- The signatures keep their number and their patterns when a hit is counted.
  hit_first-Holds :
      (P : Signature → Type 0) (c : EvolutionConfig) (now : ℕ) (d : List ℕ) (m : Map Signature)
      (r : Signature × Map Signature)
      → ((s : Signature) → P s → P (hit c now s))
      → hit_first c now d m ≡ some r
      → Holds P m
      → (length (r.1) ≡ length m) × Holds P (r.1)
  unfolding hit_first
  hit_first-Holds P c now d [] r keeps h p = cc
  hit_first-Holds P c now d ((id, s) ∷ m) r keeps h p =
      elim (Bool-cases (match_pattern d s.pattern_bytes)) [
        | inl matches ↦
            let this : (hit c now s, (id, hit c now s) ∷ m) ≡ r =
              some-injective _ r (ground (arith, matches, h)) in
            subst (λ r. (length (r.1) ≡ suc (length m)) × Holds P (r.1)) this
              (refl, (keeps s p.0, p.1))
        | inr differs ↦ elim (Option-cases (hit_first c now d m)) [
          | inl nothing ↦ absurd (none-ne-some r (ground (arith, differs, nothing, h)))
          | inr (q, found) ↦
              let this : (q.0, (id, s) ∷ q.1) ≡ r =
                some-injective _ r (ground (arith, differs, found, h)) in
              let (size, rest) = hit_first-Holds P c now d m q keeps found p.1 in
              subst (λ r. (length (r.1) ≡ suc (length m)) × Holds P (r.1)) this
                (ap suc size, (p.0, rest))
        ]
      ]

  abbrev IsPrint : Signature → Type 0
  IsPrint sig = length sig.pattern_bytes ≡ 16

  View-IsPrint :
      (digest : (d : List ℕ) → length (H.sha256 d) ≡ 32) (sample : RugSample) (t : Tracker)
      (m : Map Signature)
      → View sample t m
      → length t.signatures ≤ t.config.max_patterns
      → Holds IsPrint t.signatures
      → (length m ≤ t.config.max_patterns) × Holds IsPrint m
  View-IsPrint digest sample t m same h p = (h, p)
  View-IsPrint digest sample t m (counted now r hits) h p =
      let (size, prints) =
        hit_first-Holds IsPrint t.config now sample.contract_data t.signatures r (λ s q. q) hits
          p in
      (omega (arith, size, h), prints)
  View-IsPrint digest sample t m (learnt sig print fresh room) h p =
      let size : length sig.pattern_bytes ≡ 16 =
        ap length print
        ∙ length-take_bytes 16 (H.sha256 sample.contract_data)
            (omega (arith, digest sample.contract_data)) in
      (
        ground (arith, length-insert (id_for sample) sig t.signatures, fresh, room),
        Holds-insert IsPrint (id_for sample) sig t.signatures size p,
      )

  store_sample-le :
      (s : RugSample) (ss : List RugSample) → length ss ≤ 500 → length (store_sample s ss) ≤ 500
  store_sample-le s [] h = omega arith
  store_sample-le s (x ∷ xs) h =
      ground (arith, h, length-append xs (s ∷ []), length-append (x ∷ xs) (s ∷ []))

  record_rug-samples :
      (now : ℕ) (sample : RugSample) (t : Tracker)
      → ((record_rug now sample t).0).samples
        ≡ store_sample (record sample { timestamp = now }) t.samples
  unfolding record_rug
  record_rug-samples now sample t =
      elim (Option-cases (hit_first t.config now sample.contract_data t.signatures)) [
        | inl nothing ↦ ground (arith, nothing)
        | inr (r, hits) ↦ ground (arith, hits)
      ]

  record IsLimited (c : EvolutionConfig) (t : Tracker) : Type 0 where
    same_config : t.config ≡ c
    samples_le : length t.samples ≤ 500
    patterns_le : length t.signatures ≤ c.max_patterns
    prints : Holds IsPrint t.signatures

  record_rug-IsLimited :
      (digest : (d : List ℕ) → length (H.sha256 d) ≡ 32) (c : EvolutionConfig) (now : ℕ)
      (sample : RugSample) (t : Tracker)
      → IsLimited c t
      → IsLimited c (record_rug now sample t).0
  record_rug-IsLimited digest c now sample t h =
      let limit : t.config.max_patterns ≡ c.max_patterns = ap (λ c. c.max_patterns) h.same_config in
      let (size, prints) =
        View-IsPrint digest sample t _ (record_rug-View now sample t)
          (omega (arith, limit, h.patterns_le)) h.prints in
      record {
        same_config = record_rug-config now sample t ∙ h.same_config;
        samples_le =
            subst (λ ss. length ss ≤ 500) (sym (record_rug-samples now sample t))
              (store_sample-le (record sample { timestamp = now }) t.samples h.samples_le);
        patterns_le = omega (arith, limit, size);
        prints = prints;
      }

  record_rugs-IsLimited :
      (digest : (d : List ℕ) → length (H.sha256 d) ≡ 32) (c : EvolutionConfig)
      (rs : List (ℕ × RugSample)) (t : Tracker)
      → IsLimited c t
      → IsLimited c (record_rugs rs t)
  unfolding record_rugs
  record_rugs-IsLimited digest c [] t h = h
  record_rugs-IsLimited digest c (r ∷ rs) t h =
      record_rugs-IsLimited digest c rs (record_rug r.0 r.1 t).0
        (record_rug-IsLimited digest c r.0 r.1 t h)

  find_match_short :
      (d : List ℕ) (m : Map Signature) → length d < 16 → Holds IsPrint m → find_match d m ≡ none
  unfolding match_pattern
  find_match_short d [] short p = refl
  find_match_short d ((id, s) ∷ m) short p =
      ground (arith, short, p.0, find_match_short d m short p.1)

  -- Where SHA-256 gives 32 bytes, a tracker that has only learnt from rugs keeps at most 500
  -- samples and the configured number of patterns, and CheckContract finds no contract of less
  -- than 16 bytes, were it one of those rugs.
  pub learnt_limits :
      (digest : (d : List ℕ) → length (H.sha256 d) ≡ 32) (c : EvolutionConfig)
      (rs : List (ℕ × RugSample)) (d : List ℕ)
      → length d < 16
      → (length (record_rugs rs (new_tracker c)).samples ≤ 500)
        × (length (record_rugs rs (new_tracker c)).signatures ≤ c.max_patterns)
        × (check_contract d (record_rugs rs (new_tracker c)) ≡ none)
  unfolding new_tracker check_contract
  learnt_limits digest c rs d short =
      let h = record_rugs-IsLimited digest c rs (new_tracker c) (record {
        same_config = refl;
        samples_le = omega arith;
        patterns_le = omega arith;
        prints = tt;
      }) in
      (
        h.samples_le,
        h.patterns_le,
        ground
            (arith, find_match_short d (record_rugs rs (new_tracker c)).signatures short h.prints),
      )
