-- ===== src/Types/Block.antt =====
-- types/block.go: the header of a block and what its hash covers, the shares of the fees, and the
-- root of the events.
use dsn.Prelude.{ℕ, Option, none, ◌*◌, ◌/◌, List, [], ◌∷◌, ◌++◌, wrap64}
use dsn.Error.{ok, err}
use dsn.Bytes.{Bytes, put_be}
use dsn.Types.Vote.{Crypto}
use dsn.Types.Event.{Event, encode_event}
use dsn.Types.Transaction.{Transaction}
use dsn.Types.Commit.{CommitProof}
use dsn.Types.Evidence.{Evidence}

pub record BlockHeader : Type 0 where
  pub version : ℕ
  pub height : ℕ
  pub previous_hash : ℕ
  pub state_root : ℕ
  pub tx_root : ℕ
  pub receipt_root : ℕ
  pub validator_root : ℕ
  pub validator_set_hash : ℕ
  pub epoch : ℕ
  pub timestamp : ℕ
  pub proposer : ℕ
  pub events_root : ℕ

-- The bytes that HeaderHash hashes.
unfoldable pub header_bytes : BlockHeader → Bytes
header_bytes h =
    put_be 8 h.version
    ++ (put_be 8 h.height
        ++ (put_be 32 h.previous_hash
            ++ (put_be 32 h.state_root
                ++ (put_be 32 h.tx_root
                    ++ (put_be 32 h.receipt_root
                        ++ (put_be 32 h.validator_root
                            ++ (put_be 32 h.validator_set_hash
                                ++ (put_be 8 h.epoch
                                    ++ (put_be 8 h.timestamp
                                        ++ (put_be 20 h.proposer
                                            ++ put_be 32 h.events_root))))))))))

unfoldable pub header_hash : Crypto → BlockHeader → ℕ
unfolding header_bytes
header_hash c h = c.sha256 (header_bytes h)

pub record FeeSummary : Type 0 where
  pub total_fees : ℕ
  pub validator_share : ℕ
  pub burn_share : ℕ
  pub treasury_share : ℕ

-- The products are computed in uint64.
unfoldable pub new_fee_summary : ℕ → FeeSummary
new_fee_summary total_fees = record {
  total_fees = total_fees;
  validator_share = wrap64 (total_fees * 70) / 100;
  burn_share = wrap64 (total_fees * 20) / 100;
  treasury_share = wrap64 (total_fees * 10) / 100;
}

pub record Block : Type 0 where
  pub header : BlockHeader
  pub transactions : List Transaction
  pub fee_summary : FeeSummary
  pub signature : Bytes
  pub commit_proof : Option CommitProof
  pub events : List Event
  pub evidence : List Evidence

-- NewGenesisBlock, at a reading of the clock.
unfoldable pub new_genesis_block : ℕ → ℕ → Block
new_genesis_block now proposer = record {
  header = record {
    version = 1;
    height = 0;
    previous_hash = 0;
    state_root = 0;
    tx_root = 0;
    receipt_root = 0;
    validator_root = 0;
    validator_set_hash = 0;
    epoch = 0;
    timestamp = now;
    proposer = proposer;
    events_root = 0;
  };
  transactions = [];
  fee_summary = record { total_fees = 0; validator_share = 0; burn_share = 0; treasury_share = 0 };
  signature = [];
  commit_proof = none;
  events = [];
  evidence = [];
}

-- The digests that ComputeEventsRoot writes; an event whose encoding fails is passed over.
unfoldable pub event_digests : Crypto → List Event → Bytes
unfolding encode_event
event_digests c [] = []
event_digests c (e ∷ es) = elim (encode_event e) [
  | err _ ↦ event_digests c es
  | ok bs ↦ put_be 32 (c.sha256 bs) ++ event_digests c es
]

unfoldable pub compute_events_root : Crypto → List Event → ℕ
unfolding event_digests
compute_events_root c [] = 0
compute_events_root c (e ∷ es) = c.sha256 (event_digests c (e ∷ es))
