-- ===== src/Honeypot.antt =====
-- nexus/internal/honeypot/evolution.go: the tracker that learns patterns of contracts from rugs. Bytes are numbers;
-- SHA-256 and hexadecimal encoding are parameters, as are `now` and a configuration whose limits are
-- not negative. The loops over the map of signatures go in the order of the list, which Go leaves
-- open; the callback on a new pattern is called exactly when a pattern is extracted, and the loop
-- that finds a match changes the signature in place. Mutexes and logging are left out.
pub mod Known
pub mod Limits
pub mod Examples
use Prim.Native.String.{◌++◌ as append_text}
use mmh.Prelude.{
  ℕ, zero, suc, ◌+◌, ◌-◌, String, Bool, true, false, ◌&&◌, Option, none, some, List, [], ◌∷◌, ◌++◌,
  if◌then◌else◌, ltb, leb, ◌==◌, length, Map, lookup, insert, has_key,
}
use mmh.Numbers.{Numbers}

-- The hash of crypto/sha256, the text of encoding/hex, and Go's conversion of a string to bytes.
pub record Hashing : Type 0 where
  pub sha256 : List ℕ → List ℕ
  pub hex : List ℕ → String
  pub bytes_of : String → List ℕ

pub record RetroPosition : Type 0 where
  pub token_address : String
  pub contract_data : List ℕ

-- `xs[:n]`
abbrev pub take_bytes : ℕ → List ℕ → List ℕ
take_bytes zero xs = []
take_bytes (suc n) [] = []
take_bytes (suc n) (x ∷ xs) = x ∷ take_bytes n xs

-- The loop of `matchPattern`: the second list begins with the first.
abbrev pub is_prefix : List ℕ → List ℕ → Bool
is_prefix [] hash = true
is_prefix (p ∷ ps) [] = false
is_prefix (p ∷ ps) (h ∷ hs) = (h == p) && is_prefix ps hs

abbrev pub is_empty : List ℕ → Bool
is_empty [] = true
is_empty (b ∷ bs) = false

module _ ⦃H : Hashing⦄ where
  unfoldable pub match_pattern : List ℕ → List ℕ → Bool
  match_pattern contract_data pattern_bytes =
      if is_empty pattern_bytes
      then false
      else if ltb (length contract_data) (length pattern_bytes)
      then false
      else is_prefix pattern_bytes (H.sha256 contract_data)

  -- The text before the identifier's bytes is `HP-` and the chain.
  unfoldable pub pattern_id_of : String → List ℕ → String
  pattern_id_of chain pattern_bytes =
      append_text "HP-" (append_text chain (append_text "-" (H.hex (take_bytes 4 pattern_bytes))))

module _ ⦃N : Numbers⦄ where
  pub record Signature : Type 0 where
    pub pattern_id : String
    pub chain : String
    pub sig_type : String
    pub pattern_bytes : List ℕ
    pub description : String
    pub confidence : N.Float
    pub hit_count : ℕ
    pub first_seen : ℕ
    pub last_seen : ℕ
    pub sample_tx_hash : String
    pub auto_detected : Bool

  pub record RugSample : Type 0 where
    pub token_address : String
    pub chain : String
    pub deployer_addr : String
    pub contract_data : List ℕ
    pub rug_type : String
    pub loss_amount : N.Float
    pub detected_by : String
    pub timestamp : ℕ
    pub matched_pattern : String

  pub record EvolutionConfig : Type 0 where
    pub min_confidence : N.Float
    pub min_hits_for_high_conf : ℕ
    pub max_patterns : ℕ
    pub pattern_min_bytes : ℕ
    pub retroactive_scan : Bool

  pub record RetroMatch : Type 0 where
    pub token_address : String
    pub pattern_id : String
    pub confidence : N.Float

  pub record Tracker : Type 0 where
    pub config : EvolutionConfig
    pub signatures : Map Signature
    pub samples : List RugSample
    pub total_samples : ℕ
    pub auto_patterns : ℕ
    pub retro_catches : ℕ

  unfoldable pub default_evolution_config : EvolutionConfig
  default_evolution_config = record {
    min_confidence = N.literal 3 10;
    min_hits_for_high_conf = 5;
    max_patterns = 2000;
    pattern_min_bytes = 8;
    retroactive_scan = true;
  }

  unfoldable pub new_tracker : EvolutionConfig → Tracker
  new_tracker c = record {
    config = c;
    signatures = [];
    samples = [];
    total_samples = 0;
    auto_patterns = 0;
    retro_catches = 0;
  }

  unfoldable pub compute_confidence : EvolutionConfig → ℕ → N.Float
  compute_confidence c hit_count =
      if leb c.min_hits_for_high_conf hit_count
      then N.literal 9 10
      else N.fadd c.min_confidence (
          N.fdiv (N.fmul (N.literal (hit_count - 1) 1) (N.fsub (N.literal 9 10) c.min_confidence))
            (N.literal (c.min_hits_for_high_conf - 1) 1))

  abbrev pub rest_of : List RugSample → List RugSample
  rest_of [] = []
  rest_of (s ∷ ss) = ss

  -- The ring of 500 samples.
  abbrev pub store_sample : RugSample → List RugSample → List RugSample
  store_sample s ss = (if leb 500 (length ss) then rest_of ss else ss) ++ (s ∷ [])

  abbrev pub hit : EvolutionConfig → ℕ → Signature → Signature
  hit c now sig = record sig {
    hit_count = suc sig.hit_count;
    last_seen = now;
    confidence = compute_confidence c (suc sig.hit_count);
  }

  module _ ⦃H : Hashing⦄ where
    -- The loop of `RecordRug`: the first signature that matches, with its hit counted, and the map.
    unfoldable pub hit_first :
        EvolutionConfig → ℕ → List ℕ → Map Signature → Option (Signature × Map Signature)
    hit_first c now contract_data [] = none
    hit_first c now contract_data ((id, sig) ∷ m) =
        let rest = hit_first c now contract_data m in
        if match_pattern contract_data sig.pattern_bytes
        then some (hit c now sig, (id, hit c now sig) ∷ m)
        else elim rest [ none ↦ none | some (found, m') ↦ some (found, (id, sig) ∷ m') ]

    unfoldable pub new_signature : N.Float → RugSample → Signature
    new_signature min_confidence sample =
        let pattern_bytes = take_bytes 16 (H.sha256 sample.contract_data) in
        record {
          pattern_id = pattern_id_of sample.chain pattern_bytes;
          chain = sample.chain;
          sig_type = "bytecode_hash";
          pattern_bytes = pattern_bytes;
          description = append_text "Auto-extracted from " (
              append_text sample.rug_type
                (append_text " (" (append_text sample.token_address ")")));
          confidence = min_confidence;
          hit_count = 1;
          first_seen = sample.timestamp;
          last_seen = sample.timestamp;
          sample_tx_hash = sample.token_address;
          auto_detected = true;
        }

    unfoldable pub extract_pattern : RugSample → Tracker → Option Signature
    unfolding new_signature
    extract_pattern sample t =
        let sig = new_signature (t.config).min_confidence sample in
        if ltb (length sample.contract_data) (t.config).pattern_min_bytes
        then none
        else if has_key sig.pattern_id t.signatures
        then none
        else if leb (t.config).max_patterns (length t.signatures)
        then none
        else some sig

    -- `RecordRug` where no signature matches.
    abbrev pub learn : RugSample → Tracker → Tracker × Option Signature
    learn sample t = elim (extract_pattern sample t) [
      | none ↦ (t, none)
      | some sig ↦ (
        record t {
          signatures = insert sig.pattern_id sig t.signatures;
          auto_patterns = suc t.auto_patterns;
        },
        some sig,
      )
    ]

    unfoldable pub record_rug : ℕ → RugSample → Tracker → Tracker × Option Signature
    unfolding hit_first extract_pattern
    record_rug now given t =
        let sample = record given { timestamp = now } in
        let t' = record t {
          samples = store_sample sample t.samples;
          total_samples = suc t.total_samples;
        } in
        if leb (t.config).pattern_min_bytes (length sample.contract_data)
        then elim (hit_first t.config now sample.contract_data t.signatures) [
          | none ↦ learn sample t'
          | some (sig, m) ↦ (record t' { signatures = m }, some sig)
        ]
        else learn sample t'

    abbrev pub find_match : List ℕ → Map Signature → Option Signature
    find_match contract_data [] = none
    find_match contract_data ((id, sig) ∷ m) =
        if match_pattern contract_data sig.pattern_bytes
        then some sig
        else find_match contract_data m

    unfoldable pub check_contract : List ℕ → Tracker → Option Signature
    check_contract contract_data t =
        if ltb (length contract_data) (t.config).pattern_min_bytes
        then none
        else find_match contract_data t.signatures

    -- The matches, one for each position at most; each counts and is reported.
    unfoldable pub retroactive_matches : List RetroPosition → Tracker → List RetroMatch
    unfolding check_contract
    retroactive_matches [] t = []
    retroactive_matches (pos ∷ rest) t = elim (check_contract pos.contract_data t) [
      | none ↦ retroactive_matches rest t
      | some sig ↦
          (record {
            token_address = pos.token_address;
            pattern_id = sig.pattern_id;
            confidence = sig.confidence;
          })
          ∷ retroactive_matches rest t
    ]

    unfoldable pub retroactive_scan : List RetroPosition → Tracker → Tracker × List RetroMatch
    unfolding retroactive_matches
    retroactive_scan positions t =
        let matches = retroactive_matches positions t in
        (record t { retro_catches = t.retro_catches + length matches }, matches)

  unfoldable pub add_pattern : ℕ → Signature → Tracker → Tracker
  add_pattern now sig t =
      let dated = if sig.first_seen == 0 then record sig { first_seen = now } else sig in
      record t { signatures = insert sig.pattern_id dated t.signatures }

  unfoldable pub pattern_count : Tracker → ℕ
  pattern_count t = length t.signatures
