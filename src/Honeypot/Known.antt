-- ===== src/Honeypot/Known.antt =====
-- What the tracker of nexus/internal/honeypot/evolution.go knows after rugs.
use mmh.Prelude.{
  ◌≡◌, refl, sym, ap, subst, ◌∙◌, inl, inr, ◌⊎◌, ℕ, zero, suc, ◌≤◌, ◌<◌, String, Bool, true, false,
  ◌||◌, none, some, List, [], ◌∷◌, leb, ltb, arith, length, Map, insert, has_key, lookup, str_eq,
  Bool-cases, Option-cases,
}
use mathlib.Core.Option.{some-injective, none-ne-some}
use mmh.Numbers.{Numbers}
use mmh.Honeypot.{
  Hashing, Signature, RugSample, EvolutionConfig, Tracker, take_bytes, is_prefix, is_empty,
  match_pattern, pattern_id_of, hit, hit_first, extract_pattern, record_rug, new_signature,
  find_match, check_contract, learn, store_sample,
}

pub length-take_bytes : (n : ℕ) (xs : List ℕ) → n ≤ length xs → length (take_bytes n xs) ≡ n
length-take_bytes zero xs h = refl
length-take_bytes (suc n) [] h = omega (arith, h)
length-take_bytes (suc n) (x ∷ xs) h = ap suc (length-take_bytes n xs (omega (arith, h)))

is_prefix-take_bytes : (n : ℕ) (xs : List ℕ) → is_prefix (take_bytes n xs) xs ≡ true
is_prefix-take_bytes zero xs = refl
is_prefix-take_bytes (suc n) [] = refl
is_prefix-take_bytes (suc n) (x ∷ xs) = ground (arith, is_prefix-take_bytes n xs)

is_empty-length : (xs : List ℕ) → 1 ≤ length xs → is_empty xs ≡ false
is_empty-length [] h = absurd (omega (arith, h))
is_empty-length (x ∷ xs) h = refl

-- The fingerprint of a contract matches it.
match_pattern_fingerprint :
    ⦃H : Hashing⦄ (contract_data : List ℕ)
    → 16 ≤ length contract_data
    → length (H.sha256 contract_data) ≡ 32
    → match_pattern contract_data (take_bytes 16 (H.sha256 contract_data)) ≡ true
unfolding match_pattern
match_pattern_fingerprint ⦃H⦄ contract_data long digest =
    let print = take_bytes 16 (H.sha256 contract_data) in
    let size : length print ≡ 16 =
      length-take_bytes 16 (H.sha256 contract_data) (omega (arith, digest)) in
    let filled : is_empty print ≡ false = is_empty-length print (omega (arith, size)) in
    ground (arith, filled, size, long, is_prefix-take_bytes 16 (H.sha256 contract_data))

module _ ⦃N : Numbers⦄ ⦃H : Hashing⦄ where
  -- Whether some signature matches.
  abbrev pub is_known : List ℕ → Map Signature → Bool
  is_known d [] = false
  is_known d ((id, sig) ∷ m) = match_pattern d sig.pattern_bytes || is_known d m

  is_known-insert :
      (d : List ℕ) (id : String) (sig : Signature) (m : Map Signature)
      → has_key id m ≡ false
      → is_known d (insert id sig m) ≡ (match_pattern d sig.pattern_bytes || is_known d m)
  unfolding insert lookup
  is_known-insert d id sig [] fresh = refl
  is_known-insert d id sig ((j, old) ∷ m) fresh = elim (Bool-cases (str_eq j id)) [
    | inl same ↦ ground (arith, same, fresh)
    | inr other ↦ ground (arith, other, is_known-insert d id sig m (ground (arith, other, fresh)))
  ]

  -- To count a hit leaves the patterns as they are.
  hit_first-is_known :
      (c : EvolutionConfig) (now : ℕ) (d d' : List ℕ) (m : Map Signature)
      (r : Signature × Map Signature)
      → hit_first c now d m ≡ some r
      → is_known d' (r.1) ≡ is_known d' m
  unfolding hit_first
  hit_first-is_known c now d d' [] r h = cc
  hit_first-is_known c now d d' ((id, s) ∷ m) r h =
      elim (Bool-cases (match_pattern d s.pattern_bytes)) [
        | inl matches ↦
            let this : (hit c now s, (id, hit c now s) ∷ m) ≡ r =
              some-injective _ r (ground (arith, matches, h)) in
            subst (λ r. is_known d' (r.1) ≡ is_known d' ((id, s) ∷ m)) this refl
        | inr differs ↦ elim (Option-cases (hit_first c now d m)) [
          | inl nothing ↦ absurd (none-ne-some r (ground (arith, differs, nothing, h)))
          | inr (q, found) ↦
              let this : (q.0, (id, s) ∷ q.1) ≡ r =
                some-injective _ r (ground (arith, differs, found, h)) in
              subst (λ r. is_known d' (r.1) ≡ is_known d' ((id, s) ∷ m)) this
                (ap (λ b. match_pattern d' s.pattern_bytes || b)
                  (hit_first-is_known c now d d' m q found))
        ]
      ]

  -- Nothing is hit where nothing matches.
  hit_nothing :
      (c : EvolutionConfig) (now : ℕ) (d : List ℕ) (m : Map Signature)
      → is_known d m ≡ false
      → hit_first c now d m ≡ none
  unfolding hit_first
  hit_nothing c now d [] h = refl
  hit_nothing c now d ((id, s) ∷ m) h = elim (Bool-cases (match_pattern d s.pattern_bytes)) [
    | inl matches ↦ ground (arith, matches, h)
    | inr differs ↦ rw differs (rw (hit_nothing c now d m (rw differs at h)) refl)
  ]

  find_match_known :
      (d : List ℕ) (m : Map Signature)
      → is_known d m ≡ true
      → (sig : Signature) × (find_match d m ≡ some sig)
  find_match_known d [] h = cc
  find_match_known d ((id, s) ∷ m) h = elim (Bool-cases (match_pattern d s.pattern_bytes)) [
    | inl matches ↦ (s, rw matches refl)
    | inr differs ↦ rw differs (find_match_known d m (rw differs at h))
  ]

  abbrev pub fingerprint : RugSample → List ℕ
  fingerprint sample = take_bytes 16 (H.sha256 sample.contract_data)

  abbrev pub id_for : RugSample → String
  id_for sample = pattern_id_of sample.chain (fingerprint sample)

  -- What recording a rug does to the signatures.
  pub data View (sample : RugSample) (t : Tracker) : Map Signature → Type 0 where
    same : View sample t t.signatures
    counted :
        (now : ℕ) (r : Signature × Map Signature)
        → hit_first t.config now sample.contract_data t.signatures ≡ some r
        → View sample t (r.1)
    learnt :
        (sig : Signature)
        → sig.pattern_bytes ≡ fingerprint sample
        → has_key (id_for sample) t.signatures ≡ false
        → length t.signatures < t.config.max_patterns
        → View sample t (insert (id_for sample) sig t.signatures)

  -- What is extracted, and when.
  extract_pattern-cases :
      (sample : RugSample) (t : Tracker)
      → (extract_pattern sample t ≡ none)
        ⊎ ((sig : Signature) × (extract_pattern sample t ≡ some sig)
            × (sig.pattern_id ≡ id_for sample)
            × (sig.pattern_bytes ≡ fingerprint sample)
            × (has_key (id_for sample) t.signatures ≡ false)
            × (length t.signatures < t.config.max_patterns))
  unfolding extract_pattern new_signature
  extract_pattern-cases sample t =
      elim (Bool-cases (ltb (length sample.contract_data) t.config.pattern_min_bytes)) [
        | inl short ↦ inl (ground (arith, short))
        | inr long ↦ elim (Bool-cases (has_key (id_for sample) t.signatures)) [
          | inl taken ↦ inl (ground (arith, long, taken))
          | inr fresh ↦ elim (Bool-cases (leb t.config.max_patterns (length t.signatures))) [
            | inl full ↦ inl (ground (arith, long, fresh, full))
            | inr room ↦ inr (
              new_signature t.config.min_confidence sample,
              rw long (rw fresh (rw room refl)),
              refl,
              refl,
              fresh,
              ground (arith, room),
            )
          ]
        ]
      ]

  -- The sample and the tracker that `RecordRug` works with.
  stamped : ℕ → RugSample → RugSample
  stamped now sample = record sample { timestamp = now }

  noted : ℕ → RugSample → Tracker → Tracker
  noted now sample t = record t {
    samples = store_sample (record sample { timestamp = now }) t.samples;
    total_samples = suc t.total_samples;
  }

  noted-View :
      (now : ℕ) (sample : RugSample) (t : Tracker)
      → View sample t ((learn (stamped now sample) (noted now sample t)).0).signatures
  unfolding stamped noted
  noted-View now sample t = elim (extract_pattern-cases (stamped now sample) (noted now sample t)) [
    | inl nothing ↦ subst (View sample t) (ground (arith, nothing)) same
    | inr (sig, extracted, named, print, fresh, room) ↦
        subst (View sample t) (ground (arith, extracted, named)) (learnt sig print fresh room)
  ]

  pub record_rug-View :
      (now : ℕ) (sample : RugSample) (t : Tracker)
      → View sample t ((record_rug now sample t).0).signatures
  unfolding record_rug stamped noted
  record_rug-View now sample t =
      elim (Option-cases (hit_first t.config now sample.contract_data t.signatures)) [
        | inl nothing ↦ subst (View sample t) (ground (arith, nothing)) (noted-View now sample t)
        | inr (r, hits) ↦
            elim (Bool-cases (leb t.config.pattern_min_bytes (length sample.contract_data))) [
              | inl enough ↦
                  subst (View sample t) (ground (arith, enough, hits)) (counted now r hits)
              | inr short ↦ subst (View sample t) (ground (arith, short)) (noted-View now sample t)
            ]
      ]

  View-known :
      (d : List ℕ) (sample : RugSample) (t : Tracker) (m : Map Signature)
      → View sample t m
      → is_known d t.signatures ≡ true
      → is_known d m ≡ true
  View-known d sample t m same h = h
  View-known d sample t m (counted now r hits) h =
      hit_first-is_known t.config now sample.contract_data d t.signatures r hits ∙ h
  View-known d sample t m (learnt sig print fresh room) h =
      is_known-insert d (id_for sample) sig t.signatures fresh ∙ ground (arith, h)

  -- A contract that can be learnt is known after its rug.
  learn-known :
      (sample : RugSample) (t : Tracker)
      → t.config.pattern_min_bytes ≤ length sample.contract_data
      → match_pattern sample.contract_data (fingerprint sample) ≡ true
      → has_key (id_for sample) t.signatures ≡ false
      → length t.signatures < t.config.max_patterns
      → is_known sample.contract_data ((learn sample t).0).signatures ≡ true
  unfolding extract_pattern new_signature
  learn-known sample t enough matches fresh room = elim (extract_pattern-cases sample t) [
    | inl nothing ↦ absurd (
        none-ne-some (new_signature t.config.min_confidence sample)
          (sym nothing ∙ ground (arith, enough, fresh, room)))
    | inr (sig, extracted, named, print, unused, free) ↦
        subst (λ m. is_known sample.contract_data m ≡ true) (ground (arith, extracted, named))
          (is_known-insert sample.contract_data (id_for sample) sig t.signatures fresh
            ∙ rw print (rw matches refl))
  ]

  record_rug-known :
      (now : ℕ) (sample : RugSample) (t : Tracker)
      → t.config.pattern_min_bytes ≤ length sample.contract_data
      → 16 ≤ length sample.contract_data
      → length (H.sha256 sample.contract_data) ≡ 32
      → has_key (id_for sample) t.signatures ≡ false
      → length t.signatures < t.config.max_patterns
      → is_known sample.contract_data ((record_rug now sample t).0).signatures ≡ true
  unfolding record_rug stamped noted
  record_rug-known now sample t enough long digest fresh room =
      elim (Bool-cases (is_known sample.contract_data t.signatures)) [
        | inl known ↦
            View-known sample.contract_data sample t _ (record_rug-View now sample t) known
        | inr unknown ↦
            let learnt_it =
              learn-known (stamped now sample) (noted now sample t) enough
                (match_pattern_fingerprint sample.contract_data long digest) fresh room in
            subst (λ m. is_known sample.contract_data m ≡ true)
              (ground
                (arith, hit_nothing t.config now sample.contract_data t.signatures unknown, enough))
              learnt_it
      ]

  unfoldable pub record_rugs : List (ℕ × RugSample) → Tracker → Tracker
  record_rugs [] t = t
  record_rugs (r ∷ rs) t = record_rugs rs (record_rug r.0 r.1 t).0

  pub record_rug-config :
      (now : ℕ) (sample : RugSample) (t : Tracker) → ((record_rug now sample t).0).config ≡ t.config
  unfolding record_rug
  record_rug-config now sample t =
      elim (Option-cases (hit_first t.config now sample.contract_data t.signatures)) [
        | inl nothing ↦ ground (arith, nothing)
        | inr (r, hits) ↦ ground (arith, hits)
      ]

  record_rugs-known :
      (d : List ℕ) (rs : List (ℕ × RugSample)) (t : Tracker)
      → is_known d t.signatures ≡ true
      → is_known d (record_rugs rs t).signatures ≡ true
  unfolding record_rugs
  record_rugs-known d [] t h = h
  record_rugs-known d (r ∷ rs) t h =
      record_rugs-known d rs (record_rug r.0 r.1 t).0
        (View-known d r.1 t _ (record_rug-View r.0 r.1 t) h)

  pub record_rugs-config :
      (rs : List (ℕ × RugSample)) (t : Tracker) → (record_rugs rs t).config ≡ t.config
  unfolding record_rugs
  record_rugs-config [] t = refl
  record_rugs-config (r ∷ rs) t =
      record_rugs-config rs (record_rug r.0 r.1 t).0 ∙ record_rug-config r.0 r.1 t

  -- If the tracker has room for a pattern and holds none of the sample's identifier, and the
  -- contract has 16 bytes and as many as the configuration asks for, then after its rug and any
  -- further rugs CheckContract finds a signature for that contract, where SHA-256 gives 32 bytes.
  pub learnt_stays_known :
      (now : ℕ) (sample : RugSample) (t : Tracker) (rs : List (ℕ × RugSample))
      → t.config.pattern_min_bytes ≤ length sample.contract_data
      → 16 ≤ length sample.contract_data
      → length (H.sha256 sample.contract_data) ≡ 32
      → has_key (id_for sample) t.signatures ≡ false
      → length t.signatures < t.config.max_patterns
      → (sig : Signature) × (check_contract sample.contract_data
            (record_rugs rs (record_rug now sample t).0)
          ≡ some sig)
  unfolding check_contract
  learnt_stays_known now sample t rs enough long digest fresh room =
      let t' = record_rugs rs (record_rug now sample t).0 in
      let known : is_known sample.contract_data t'.signatures ≡ true =
        record_rugs-known sample.contract_data rs (record_rug now sample t).0
          (record_rug-known now sample t enough long digest fresh room) in
      let same_config : t'.config ≡ t.config =
        record_rugs-config rs (record_rug now sample t).0 ∙ record_rug-config now sample t in
      let same_least : t'.config.pattern_min_bytes ≡ t.config.pattern_min_bytes =
        ap (λ c. c.pattern_min_bytes) same_config in
      let (sig, found) = find_match_known sample.contract_data t'.signatures known in
      (sig, ground (arith, enough, same_least, found))
