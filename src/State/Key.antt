-- ===== src/State/Key.antt =====
-- The keys of the generic key-value store. A key string is a prefix and a rendering of one number
-- (a consensus id or a public key in hexadecimal, a sequence number or an epoch in decimal, an
-- address in Base58Check), so a key is here the prefix's number and that number. The renderings
-- are injective, and no rendering after "validator/" reads "count" or begins with another prefix.
use dsn.Prelude.{ℕ, Bool, ◌≡◌, ◌↔◌, ◌==◌, ◌&&◌, arith, true}
use dsn.Prelude.Map.{Eq}

pub record Key : Type 0 where
  pub space : ℕ
  pub index : ℕ

abbrev key_beq : Key → Key → Bool
key_beq a b = a.space == b.space && a.index == b.index

pub key_beq_iff : (a b : Key) → (key_beq a b ≡ true) ↔ (a ≡ b)
key_beq_iff a b = ground arith

instance abbrev pub key_eq : Eq Key
key_eq = record { beq = key_beq; beq_iff = key_beq_iff }

-- staking/registry.go
abbrev pub key_validator_count : Key
key_validator_count = record { space = 0; index = 0 }

abbrev pub key_total_bonded : Key
key_total_bonded = record { space = 1; index = 0 }

abbrev pub key_current_epoch : Key
key_current_epoch = record { space = 2; index = 0 }

abbrev pub key_blocks_per_epoch : Key
key_blocks_per_epoch = record { space = 3; index = 0 }

abbrev pub key_unstake_cooldown : Key
key_unstake_cooldown = record { space = 4; index = 0 }

abbrev pub validator_key : ℕ → Key
validator_key consensus_id = record { space = 5; index = consensus_id }

abbrev pub validator_by_seq_key : ℕ → Key
validator_by_seq_key seq = record { space = 6; index = seq }

abbrev pub validator_pubkey_key : ℕ → Key
validator_pubkey_key pub_key = record { space = 7; index = pub_key }

abbrev pub validator_operator_key : ℕ → Key
validator_operator_key addr = record { space = 8; index = addr }

-- staking/slashing.go
abbrev pub key_slash_params : Key
key_slash_params = record { space = 9; index = 0 }

-- staking/economics.go
abbrev pub key_total_supply : Key
key_total_supply = record { space = 10; index = 0 }

abbrev pub key_treasury_supply : Key
key_treasury_supply = record { space = 11; index = 0 }

abbrev pub key_issued_supply : Key
key_issued_supply = record { space = 12; index = 0 }

abbrev pub key_epoch_issuance : ℕ → Key
key_epoch_issuance epoch = record { space = 13; index = epoch }

abbrev pub key_epoch_validator_pool : ℕ → Key
key_epoch_validator_pool epoch = record { space = 14; index = epoch }

-- staking/snapshot.go
abbrev pub snapshot_key : ℕ → Key
snapshot_key epoch = record { space = 15; index = epoch }

abbrev pub key_latest_epoch : Key
key_latest_epoch = record { space = 16; index = 0 }

-- consensus/slashing.go
abbrev pub evidence_key : ℕ → Key
evidence_key hash = record { space = 17; index = hash }
