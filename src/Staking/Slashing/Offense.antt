-- ===== src/Staking/Slashing/Offense.antt =====
-- staking/slashing.go: the offense that evidence shows, and the slash for it.
use dsn.Prelude.{ℕ, ◌==◌, if◌then◌else◌}
use dsn.Error.{Result, ok, err, not_slashable}
use dsn.Exec.{◌>>=◌, lift, gets}
use dsn.Types.Vote.{prevote, precommit}
use dsn.Types.Evidence.{Evidence, double_sign, invalid_commit, malformed_vote}
use dsn.State.Memory.{Action}
use dsn.Staking.Slashing.{SlashParams, get_slash_params, apply_slash}

pub data SlashOffense : Type 0 where
  slash_double_prevote slash_double_precommit slash_invalid_commit : SlashOffense

unfoldable pub offense_from_evidence : Evidence → Result SlashOffense
offense_from_evidence (double_sign a b) =
    if a.vote_type == prevote
    then ok slash_double_prevote
    else if a.vote_type == precommit
    then ok slash_double_precommit
    else err not_slashable
offense_from_evidence (invalid_commit proof reason) = ok slash_invalid_commit
offense_from_evidence (malformed_vote vote reason) = err not_slashable

unfoldable pub slash_percent : SlashParams → SlashOffense → ℕ
slash_percent p slash_double_prevote = p.percent_double_prevote
slash_percent p slash_double_precommit = p.percent_double_precommit
slash_percent p slash_invalid_commit = p.percent_invalid_commit

unfoldable pub slash_validator : ℕ → Evidence → Action (Unit {0})
unfolding offense_from_evidence get_slash_params slash_percent apply_slash
slash_validator consensus_id ev = do
  offense ← lift (offense_from_evidence ev)
  p ← gets get_slash_params
  apply_slash consensus_id (slash_percent p offense) p.jail_epochs
