-- ===== src/Lib.antt =====
-- DSN, a settlement network with proof of stake: its core as definitions, with theorems.
--
-- The program keeps accounts and a generic key-value store in one state. Transactions change the
-- accounts; the staking package keeps validators, indexes, counters and settings in the key-value
-- store and moves stake between accounts and validators, and issues tokens at the end of an epoch.
-- Consensus freezes the validator set of an epoch, counts votes against it, chooses proposers by
-- power, builds commit proofs and validates them. The pool holds what clients submit; a proposer
-- builds a block of it on the state after the evidence and the system transitions, and the others
-- replay the block and compare the roots. The virtual machine charges gas.
--
-- Which file models which code:
--   Types/Amount               types/amount.go: Add, Sub, MarshalBinary, UnmarshalBinary
--   Bytes, Bytes/*             encoding/binary and types/serializer.go: readers, writers, inverses
--   Types/Transaction/*        types/transaction.go: Validate, Encode, Decode, registrations
--   Types/Vote, Types/Commit   types/vote.go, types/proposal.go, types/commit.go
--   Types/Event, Types/Contract/*   types/event.go, contract_meta.go, deploy and call transactions
--   Types/Timestamp            types/timestamp.go: ValidateTimestamp
--   Types/Block                types/block.go: the header, its hash, the fees, ComputeEventsRoot
--   Types/Evidence             types/evidence.go: the three kinds of evidence and their codecs
--   State/Account, State/Memory     state/account.go, state/memory.go: InMemoryState
--   State/Merkle, State/Commit      state/smt.go, and Commit of state/memory.go
--   State/Transitions          state/transitions.go: Transfer, Mint, Burn
--   State/Payload, State/Applier    state/applier.go: ApplyTransaction
--   Staking/Validator          staking/validator.go: the life cycle and the stored record
--   Staking/Registry, Staking/Active    staking/registry.go
--   Staking/Bonding, Staking/Rewards    staking/staking.go: Bond, Slash, ReleaseStake, rewards
--   Staking/Slashing           staking/slashing.go: SlashAmount, ApplySlash
--   Staking/Slashing/Offense   staking/slashing.go: OffenseFromEvidence, SlashValidator
--   Staking/Economics          staking/economics.go, staking/treasury.go: issuance and treasury
--   Staking/Economics/EpochRewards    staking/rewards.go: DistributeValidatorRewards
--   State/Keeps                which steps leave an entry of the key-value store as it was
--   State/Payment              the payment to an account that rewards and treasury make
--   Staking/Epoch              staking/epoch.go: heights, epochs and ProcessEpochTransition
--   Consensus/Snapshot, Consensus/Snapshot/Codec, Consensus/Snapshot/Stored
--                              staking/snapshot.go: the frozen set, its bytes, CreateSnapshot
--   Consensus/Voting           consensus/voting.go: AddPrevote, AddPrecommit, the majorities
--   Consensus/Proposer         consensus/proposer.go and consensus/leader.go
--   Consensus/Certificate      BuildCommitProof and validateCommitProof
--   Consensus/Misbehaviour     consensus/slashing.go: ProcessEvidence
--   Consensus/System           consensus/system.go: BeginBlock, FinalizeBlock
--   Consensus/Execution        the loops that run a block's transactions, and the roots
--   Consensus/Building         consensus/block_builder.go: BuildBlock
--   Consensus/Validation       consensus/block_validator.go: ValidateBlock
--   Mempool, Mempool/*         mempool/pool.go: Submit, Remove, PendingTxs and the index
--   Vm/Gas                     vm/gas.go: GasMeter
-- Prelude, Error and Exec hold the shared names, Go's error values, and methods on a state that may
-- return an error; Exec keeps what was written before the error. Tests runs each property at a
-- concrete input.
--
-- How the code is rendered. A fixed-size byte array (address, hash, public key) is the big-endian
-- number of its bytes; a slice or a string is a list of bytes. A uint64 result is taken modulo
-- 2 ^ 64 where it can exceed it. An Amount is a natural number, as its big.Int is never negative.
-- A Go map is an association list. A key of the key-value store is a pair of numbers, one for its
-- prefix and one for what is rendered behind it. The pointer that GetAccount returns is a Ref to
-- the stored account, through which a change is a change of the map, so a method that fails half
-- way leaves what it wrote. Other values are never changed in place: the deep copies of a snapshot
-- are functions that copy entry by entry, and give equal maps. A loop over sequence numbers runs for the number of rounds that the
-- code counts; no definition needs fuel but the digits of a number, where the number itself is
-- enough fuel.
--
-- sort.Slice is an insertion sort that keeps the order of equals; the orders that the code sorts
-- by leave no two entries of one list equal but where a comment says so.
--
-- Parameters, because they are not code of the repository or not modelled: SHA-256 and Ed25519 (the
-- record Crypto), the clock (an argument), the contract VM and the root that Commit gives (fields of
-- Env), the block signer, and for the pool the reader of accounts and the write to the database
-- (fields of Context).
--
-- Not modelled: locks and goroutines, the database, the WASM runtime, the network, the node, the RPC
-- server, the indexer, the explorer, the SDK and the command lines.
-- The genesis file and the checkpoints are not modelled here either.
pub mod Prelude
pub mod Error
pub mod Bytes
pub mod Exec
pub mod Types
pub mod State
pub mod Staking
pub mod Consensus
pub mod Vm
pub mod Mempool
pub mod Tests
