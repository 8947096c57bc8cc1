-- ===== src/Program/Route/Intermediates.antt =====
-- route.rs, `process_inner`: the snapshots behind the fee, and the intermediate accounts' checks.
use sol_trade_router_sdk.Base.{
  ℕ, ◌≡◌, ◌≢◌, true, Option, none, some, subst, or_split, not-eq-false, ap, ◌∙◌,
}
use sol_trade_router_sdk.Base.Bytes.{bytes_eq→eq, bytes_eq→ne}
use sol_trade_router_sdk.Program.Error.{
  ok, bind-eq-ok, guarded-eq-ok, or_else-eq-false, ok-injective,
}
use sol_trade_router_sdk.Program.Ledger.{AccountView, Ledger, owner}
use sol_trade_router_sdk.Program.State.{token_owner, token_amount, is_token_program}
use sol_trade_router_sdk.Program.Route.Checks.{output_balance}
use sol_trade_router_sdk.Program.Route.Input.{Accounts}
use sol_trade_router_sdk.Program.Route.Legs.{intermediate_before}
use sol_trade_router_sdk.Program.Route.Process.{Setup, Snapshot, snapshot}

pub record Measured (s : Setup) (l : Ledger) (b : Snapshot) : Type 0 where
  pub output_read : output_balance l s.accounts.user_output s.native_sol_out ≡ ok b.output_before
  pub first_read : intermediate_before s.accounts s.accounts.intermediate none l ≡ ok b.quote_before
  pub second_read :
      intermediate_before s.accounts s.accounts.second_intermediate s.accounts.intermediate l
      ≡ ok b.second_before

pub snapshot-Measured :
    (s : Setup) (l : Ledger) (b : Snapshot) → snapshot s l ≡ ok b → Measured s l b
unfolding snapshot
snapshot-Measured s l b h =
    let (_, output_read, h1) = bind-eq-ok _ _ h in
    let (_, first_read, h2) = bind-eq-ok _ _ h1 in
    let (_, second_read, h3) = bind-eq-ok _ _ h2 in
    subst (λ (t : Snapshot). Measured s l t) (ok-injective h3)
      (record { output_read = output_read; first_read = first_read; second_read = second_read })

-- An intermediate account that passed: a writable token account of the signer, distinct from the fee
-- source and the output, whose balance was `before`.
pub record IntermediateOk (a : Accounts) (v : AccountView) (l : Ledger) (before : ℕ) : Type 0 where
  pub writable : v.is_writable ≡ true
  pub held : is_token_program (owner l v) ≡ true
  pub owned : token_owner l v ≡ ok a.user.address
  pub not_source : v.address ≢ a.fee_source.address
  pub not_output : v.address ≢ a.user_output.address
  pub balance : token_amount l v ≡ ok before

pub intermediate_before-IntermediateOk :
    (a : Accounts) (v : AccountView) (first : Option AccountView) (l : Ledger) (before : ℕ)
    → intermediate_before a (some v) first l ≡ ok before
    → IntermediateOk a v l before
unfolding intermediate_before
intermediate_before-IntermediateOk a v first l before h =
    let (invalid, tested, h1) = bind-eq-ok _ _ h in
    let (passed, balance) = guarded-eq-ok _ _ _ h1 in
    let (writable, r1) = or_else-eq-false _ _ (tested ∙ ap ok passed) in
    let (held, r2) = or_else-eq-false _ _ r1 in
    let (owned, r3) = or_else-eq-false _ _ r2 in
    let (holder, read, same) = bind-eq-ok _ _ owned in
    let (apart, not_first) = or_split _ _ (ok-injective r3) in
    let (not_source, not_output) = or_split _ _ apart in
    record {
      writable = not-eq-false _ (ok-injective writable);
      held = not-eq-false _ (ok-injective held);
      owned = read ∙ ap ok (bytes_eq→eq _ _ (not-eq-false _ (ok-injective same)));
      not_source = bytes_eq→ne _ _ not_source;
      not_output = bytes_eq→ne _ _ not_output;
      balance = balance;
    }
