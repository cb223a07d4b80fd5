-- ===== src/Honeypot/Examples.antt =====
-- Tests of the tracker of patterns, with a hash that gives 32 equal bytes, and its theorems at
-- small runs.
use mmh.Prelude.{
  ◌≡◌, refl, ℕ, ◌+◌, ◌%◌, ◌≤◌, String, true, none, some, List, [], ◌∷◌, length, replicate,
  length-replicate, arith, lookup, insert,
}
use mmh.Prelude.Int.{pos}
use mmh.Numbers.Whole.{whole}
use mmh.Honeypot.{
  Hashing, match_pattern, EvolutionConfig, RugSample, Signature, new_tracker, record_rug,
  check_contract,
}
use mmh.Honeypot.Known.{record_rugs, learnt_stays_known}
use mmh.Honeypot.Limits.{learnt_limits}

abbrev sum : List ℕ → ℕ
sum [] = 0
sum (b ∷ bs) = b + sum bs

instance abbrev hashing : Hashing
hashing = record {
  sha256 = λ d. replicate 32 (sum d % 256);
  hex = λ d. "00000000";
  bytes_of = λ s. [];
}

abbrev config : EvolutionConfig
config = record {
  min_confidence = pos 3;
  min_hits_for_high_conf = 5;
  max_patterns = 2;
  pattern_min_bytes = 8;
  retroactive_scan = true;
}

abbrev rug : String → List ℕ → RugSample
rug chain data_bytes = record {
  token_address = "token";
  chain = chain;
  deployer_addr = "deployer";
  contract_data = data_bytes;
  rug_type = "honeypot";
  loss_amount = pos 1;
  detected_by = "CSM";
  timestamp = 0;
  matched_pattern = "";
}

abbrev contract : List ℕ
contract = replicate 20 3

learnt_stays_known_example :
    (sig : Signature) × (check_contract contract (
        record_rugs
          ((8, rug "evm" (replicate 9 1)) ∷ [])
          (record_rug 7 (rug "solana" contract) (new_tracker config)).0)
      ≡ some sig)
unfolding new_tracker lookup
learnt_stays_known_example =
    learnt_stays_known 7 (rug "solana" contract) (new_tracker config)
      ((8, rug "evm" (replicate 9 1)) ∷ []) (omega arith) (omega arith) refl refl (omega arith)

learnt_limits_example :
    (length (record_rugs ((8, rug "evm" (replicate 9 1)) ∷ []) (new_tracker config)).samples ≤ 500)
    × (length (record_rugs ((8, rug "evm" (replicate 9 1)) ∷ []) (new_tracker config)).signatures
        ≤ 2)
    × (check_contract
          (replicate 9 1)
          (record_rugs ((8, rug "evm" (replicate 9 1)) ∷ []) (new_tracker config))
        ≡ none)
learnt_limits_example =
    learnt_limits (λ d. length-replicate 32 (sum d % 256)) config
      ((8, rug "evm" (replicate 9 1)) ∷ []) (replicate 9 1) (omega arith)

-- The same contract a second time is a hit and no new pattern.
second_rug_hits :
    length
      (record_rug 9
        (rug "solana" contract)
        (record_rug 7 (rug "solana" contract) (new_tracker config)).0).0.signatures
    ≡ 1
unfolding new_tracker record_rug lookup insert match_pattern
second_rug_hits = refl
