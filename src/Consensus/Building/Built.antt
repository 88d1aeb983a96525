-- ===== src/Consensus/Building/Built.antt =====
-- What a block went through that BuildBlock has made.
use dsn.Prelude.{ℕ, ◌+◌, ◌≡◌, refl, sym, ap, ◌∙◌, List, [], ◌∷◌, none, arith, inl, inr}
use mathlib.Core.Path.{subst}
use dsn.Error.{Result, ok, err, Result-cases}
use dsn.Exec.{◌>>=◌, pure, lift, >>=-eq_ok}
use dsn.Bytes.{Bytes}
use dsn.Types.Block.{Block, new_fee_summary, header_hash}
use dsn.Types.Event.{Event}
use dsn.Types.Transaction.{Transaction}
use dsn.State.Memory.{State}
use dsn.State.Applier.{apply_transaction}
use dsn.Staking.Validator.{Validator}
use dsn.Staking.Active.{get_active_validators}
use dsn.Staking.Active.Order.{active-state}
use dsn.Consensus.System.{finalize_block}
use dsn.Consensus.Execution.{Env, Totals, add_totals, run_tx, run_txs, run_applied, start_block}
use dsn.Consensus.Building.{
  BlockRequest, chosen, assemble, build_executed, build_started, sign_block, build_block,
}

-- Without a VM the position and the timestamp do not count.
pub run_txs_same :
    (e : Env) (height ts ts' i : ℕ) (txs : List Transaction)
    → e.vm ≡ none
    → run_txs e height ts i txs ≡ run_txs e height ts' i txs
unfolding run_txs run_tx
run_txs_same e height ts ts' i [] h = refl
run_txs_same e height ts ts' i (tx ∷ txs) h =
    rw (h, run_txs_same e height ts ts' (i + 1) txs h) refl

-- And no event is emitted.
run_tx-events :
    (e : Env) (height ts i : ℕ) (tx : Transaction) (s t : State) (r : ℕ × List Event)
    → e.vm ≡ none
    → run_tx e height ts i tx s ≡ (ok r, t)
    → r.1 ≡ []
unfolding run_tx run_applied
run_tx-events e height ts i tx s t r h q =
    elim (Result-cases (apply_transaction e.crypto e.now tx s).0) [
      | inr (x, a) ↦ ground (arith, h, q, a)
      | inl (x, a) ↦ ground (arith, h, q, a)
    ]

pub run_txs-events :
    (e : Env) (height ts i : ℕ) (txs : List Transaction) (s t : State) (totals : Totals)
    → e.vm ≡ none
    → run_txs e height ts i txs s ≡ (ok totals, t)
    → totals.events ≡ []
unfolding run_txs
run_txs-events e height ts i [] s t totals h q = ground (arith, q)
run_txs-events e height ts i (tx ∷ txs) s t totals h q =
    let (r, s1, one, q1) =
      >>=-eq_ok (run_tx e height ts i tx)
        (λ (r : ℕ × List Event).
          run_txs e height ts (i + 1) txs >>= λ rest. pure (add_totals tx r rest))
        s t totals q in
    let (rest, s2, more, q2) =
      >>=-eq_ok (run_txs e height ts (i + 1) txs) (λ (rest : Totals). pure (add_totals tx r rest))
        s1 t totals q1 in
    let first = run_tx-events e height ts i tx s s1 r h one in
    let others = run_txs-events e height ts (i + 1) txs s1 s2 rest h more in
    ground (arith, q2, first, others)

-- What a block that was built and signed went through.
pub record IsBuilt (e : Env) (sign : ℕ → Result Bytes) (p : BlockRequest) (started : ℕ × ℕ)
    (s1 t : State) (block : Block) : Type 0 where
  pub totals : Totals
  pub s2 : State
  pub ran : run_txs e p.height p.started_at 0 (chosen p) s1 ≡ (ok totals, s2)
  pub done : Unit {0}
  pub s3 : State
  pub finalized : finalize_block (new_fee_summary totals.fees) s2 ≡ (ok done, s3)
  pub root : ℕ
  pub rooted : e.root s3 ≡ ok root
  pub vs : List Validator
  pub is_active : get_active_validators s3 ≡ (ok vs, s3)
  pub end_eq : t ≡ s3
  pub signature : Bytes
  pub block_eq : block ≡ record (assemble e p started totals root vs) { signature = signature }

executed :
    (e : Env) (sign : ℕ → Result Bytes) (p : BlockRequest) (started : ℕ × ℕ) (totals : Totals)
    (s2 s3 : State) (block : Block)
    → build_executed e p started totals s2 ≡ (ok block, s3)
    → (done : Unit {0}) × (root : ℕ) × (vs : List Validator) × (finalize_block
          (new_fee_summary totals.fees)
          s2
        ≡ (ok done, s3))
      × (e.root s3 ≡ ok root)
      × (get_active_validators s3 ≡ (ok vs, s3))
      × (block ≡ assemble e p started totals root vs)
unfolding build_executed
executed e sign p started totals s2 s3 block h =
    let (done, s, one, h1) =
      >>=-eq_ok (finalize_block (new_fee_summary totals.fees))
        (λ _. (λ (s : State). (e.root s, s)) >>= λ root.
          get_active_validators >>= λ vs. pure (assemble e p started totals root vs))
        s2 s3 block h in
    let (root, s', r, h2) =
      >>=-eq_ok (λ (s : State). (e.root s, s))
        (λ (root : ℕ). get_active_validators >>= λ vs. pure (assemble e p started totals root vs)) s
        s3 block h1 in
    let (vs, s'', a, h3) =
      >>=-eq_ok get_active_validators
        (λ (vs : List Validator). pure (assemble e p started totals root vs)) s' s3 block h2 in
    let s_s3 : s ≡ s3 = ap (λ x. x.1) r ∙ sym (active-state s' s'' vs a) ∙ ap (λ x. x.1) h3 in
    let s'_s3 : s' ≡ s3 = sym (active-state s' s'' vs a) ∙ ap (λ x. x.1) h3 in
    (
      done,
      root,
      vs,
      subst (λ x. finalize_block (new_fee_summary totals.fees) s2 ≡ (ok done, x)) s_s3 one,
      subst (λ x. e.root x ≡ ok root) s_s3 (ap (λ x. x.0) r),
      subst (λ x. get_active_validators x ≡ (ok vs, s3)) s'_s3
          (a ∙ ap (λ x. (ok vs, x)) (ap (λ x. x.1) h3)),
      ok-inj block (assemble e p started totals root vs) (sym (ap (λ x. x.0) h3)),
    )
  where
    ok-inj : (x y : Block) → ok x ≡ ok y → x ≡ y
    ok-inj x y q = cc

pub built :
    (e : Env) (sign : ℕ → Result Bytes) (p : BlockRequest) (started : ℕ × ℕ) (s s1 t : State)
    (block : Block)
    → start_block e p.evidence p.height s ≡ (ok started, s1)
    → build_block e sign p s ≡ (ok block, t)
    → IsBuilt e sign p started s1 t block
unfolding build_block build_started sign_block
built e sign p started s s1 t block hs h =
    let h1 : (build_started e p started >>= sign_block e sign) s1 ≡ (ok block, t) =
      sym (
        ap
          (λ r. elim r.0 [
            | ok a ↦ (build_started e p a >>= sign_block e sign) r.1
            | err x ↦ (err x, r.1)
          ])
          hs)
      ∙ h in
    let (b, s3, made, h2) =
      >>=-eq_ok (build_started e p started) (sign_block e sign) s1 t block h1 in
    let (totals, s2, ran, h3) =
      >>=-eq_ok (run_txs e p.height p.started_at 0 (chosen p)) (build_executed e p started) s1 s3 b
        made in
    let (done, root, vs, finalized, rooted, is_active, b_eq) =
      executed e sign p started totals s2 s3 b h3 in
    let (signature, s4, signed, h4) =
      >>=-eq_ok (lift (sign (header_hash e.crypto b.header)))
        (λ (signature : Bytes). pure (record b { signature = signature })) s3 t block h2 in
    record {
      totals = totals;
      s2 = s2;
      ran = ran;
      done = done;
      s3 = s3;
      finalized = finalized;
      root = root;
      rooted = rooted;
      vs = vs;
      is_active = is_active;
      end_eq = sym (ap (λ x. x.1) signed ∙ ap (λ x. x.1) h4);
      signature = signature;
      block_eq =
          ok-inj block (record b { signature = signature }) (sym (ap (λ x. x.0) h4))
          ∙ ap (λ (x : Block). with_signature signature x) b_eq;
    }
  where
    ok-inj : (x y : Block) → ok x ≡ ok y → x ≡ y
    ok-inj x y q = cc

    with_signature : Bytes → Block → Block
    with_signature sig x = record x { signature = sig }
