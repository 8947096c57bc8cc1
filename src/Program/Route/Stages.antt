-- ===== src/Program/Route/Stages.antt =====
-- route.rs, `process_inner`: what the stages before the legs guarantee when they pass.
use sol_trade_router_sdk.Base.{
  ℕ, ◌*◌, ◌/◌, ◌≡◌, inl, inr, sym, ◌∙◌, ap, subst, true, false, some, List, [], ◌∷◌, ◌==◌, ==→eq,
  arith, Bool-cases, not-eq-false,
}
use sol_trade_router_sdk.Base.Bytes.{Bytes, bytes_eq→eq}
use sol_trade_router_sdk.Program.Error.{
  ok, bind-eq-ok, guarded-eq-ok, ok_or-eq-ok, ok-injective, ok_or,
}
use sol_trade_router_sdk.Program.Ledger.{AccountView, Ledger, Runtime, owner}
use sol_trade_router_sdk.Program.State.{
  RouterConfig, config_seed, read, token_owner, is_token_program,
}
use sol_trade_router_sdk.Program.Route.Checks.{checked_fee, validate_output}
use sol_trade_router_sdk.Program.Route.Input.{
  parse_header, split_accounts, check_config, check_source, source_balance, is_dynamic,
}
use sol_trade_router_sdk.Program.Route.Process.{Setup, prepare}

-- The stages of `prepare`, each with the value that it left in the setup.
pub record Stages (rt : Runtime) (program_id : Bytes) (accounts : List AccountView) (d : Bytes)
    (n : ℕ) (l : Ledger) (s : Setup) : Type 0 where
  pub parsed : parse_header d n ≡ ok s.header
  pub split : split_accounts accounts n ≡ ok s.accounts
  pub checked : check_config rt program_id s.accounts.user s.accounts.config l ≡ ok s.config
  pub output_bound :
      validate_output l s.accounts.user s.accounts.user_output s.header.expected_output_mint
        (is_dynamic n)
      ≡ ok s.native_sol_out
  pub fee_computed : checked_fee s.header.amount_in s.config.fee_bps ≡ ok s.fee
  pub source_checked :
      check_source l s.accounts.user s.accounts.fee_source s.header.fee_asset ≡ ok s.source_before

pub prepare-Stages :
    (rt : Runtime) (program_id : Bytes) (accounts : List AccountView) (d : Bytes) (n : ℕ)
    (l : Ledger) (s : Setup)
    → prepare rt program_id accounts d n l ≡ ok s
    → Stages rt program_id accounts d n l s
unfolding prepare
prepare-Stages rt program_id accounts d n l s h =
    let (_, parsed, h1) = bind-eq-ok _ _ h in
    let (_, split, h2) = bind-eq-ok _ _ h1 in
    let (_, checked, h3) = bind-eq-ok _ _ h2 in
    let (_, output_bound, h4) = bind-eq-ok _ _ h3 in
    let (_, fee_computed, h5) = bind-eq-ok _ _ h4 in
    let (_, source_checked, h6) = bind-eq-ok _ _ h5 in
    subst (λ (t : Setup). Stages rt program_id accounts d n l t) (ok-injective h6)
      (record {
        parsed = parsed;
        split = split;
        checked = checked;
        output_bound = output_bound;
        fee_computed = fee_computed;
        source_checked = source_checked;
      })

-- The user signed, and the config is this program's: owned by it, at the address that the seed and
-- its own bump derive, initialised and not paused.
pub record Authorised (rt : Runtime) (program_id : Bytes) (user config : AccountView) (l : Ledger)
    (cfg : RouterConfig) : Type 0 where
  pub signed : user.is_signer ≡ true
  pub owned : owner l config ≡ program_id
  pub config_read : read l config ≡ ok cfg
  pub derived :
      rt.create_program_address (config_seed ∷ (cfg.bump ∷ []) ∷ []) program_id
      ≡ some config.address
  pub running : cfg.paused ≡ 0

pub check_config-Authorised :
    (rt : Runtime) (program_id : Bytes) (user config : AccountView) (l : Ledger)
    (cfg : RouterConfig)
    → check_config rt program_id user config l ≡ ok cfg
    → Authorised rt program_id user config l cfg
unfolding check_config
check_config-Authorised rt program_id user config l cfg h =
    let (signed, h1) = guarded-eq-ok _ _ _ h in
    let (owned, h2) = guarded-eq-ok _ _ _ h1 in
    let (c, config_read, h3) = bind-eq-ok _ _ h2 in
    let (expected, derived, h4) = bind-eq-ok _ _ h3 in
    let (placed, h5) = guarded-eq-ok _ _ _ h4 in
    let (running, h6) = guarded-eq-ok _ _ _ h5 in
    let here : config.address ≡ expected = bytes_eq→eq _ _ (not-eq-false _ placed) in
    subst (λ (t : RouterConfig). Authorised rt program_id user config l t) (ok-injective h6)
      (record {
        signed = not-eq-false _ signed;
        owned = bytes_eq→eq _ _ (not-eq-false _ owned);
        config_read = config_read;
        derived = ok_or-eq-ok _ _ derived ∙ ap (λ (t : Bytes). some t) (sym here);
        running = ==→eq _ _ (not-eq-false _ running);
      })

pub checked_fee-value :
    (amount bps fee : ℕ) → checked_fee amount bps ≡ ok fee → fee ≡ amount * bps / 10000
unfolding checked_fee ok_or
checked_fee-value amount bps fee h = ground arith

-- The source balance is the one that is compared after the legs, and the source is the signer's: the
-- signer's own account for SOL, and a token account that the signer holds for a token.
pub record SourceBound (l : Ledger) (user fee_source : AccountView) (asset before : ℕ)
    : Type 0 where
  pub balance : source_balance l fee_source asset ≡ ok before
  pub sol_signer : asset ≡ 0 → fee_source.address ≡ user.address
  pub token_holder : asset ≡ 1 → token_owner l fee_source ≡ ok user.address
  pub token_program : asset ≡ 1 → is_token_program (owner l fee_source) ≡ true

sol_source :
    (l : Ledger) (user fee_source : AccountView) (asset before : ℕ)
    → (asset == 0) ≡ true
    → check_source l user fee_source asset ≡ ok before
    → SourceBound l user fee_source asset before
unfolding check_source source_balance
sol_source l user fee_source asset before zeroed h =
    let (same, h1) = guarded-eq-ok _ _ _ (rw zeroed at h) in
    record {
      balance = rw zeroed h1;
      sol_signer = λ _. bytes_eq→eq _ _ (not-eq-false _ same);
      token_holder = λ e. ground arith;
      token_program = λ e. ground arith;
    }

token_source :
    (l : Ledger) (user fee_source : AccountView) (asset before : ℕ)
    → (asset == 0) ≡ false
    → check_source l user fee_source asset ≡ ok before
    → SourceBound l user fee_source asset before
unfolding check_source source_balance
token_source l user fee_source asset before not_sol h = elim (Bool-cases (asset == 1)) [
  | inl token ↦
      let (program, h1) = guarded-eq-ok _ _ _ (rw (not_sol, token) at h) in
      let (holder, held, h2) = bind-eq-ok _ _ h1 in
      let (same, h3) = guarded-eq-ok _ _ _ h2 in
      record {
        balance = rw (not_sol, token) h3;
        sol_signer = λ e. ground arith;
        token_holder = λ _. held ∙ ap ok (bytes_eq→eq _ _ (not-eq-false _ same));
        token_program = λ _. not-eq-false _ program;
      }
  | inr neither ↦ ground arith
]

pub check_source-SourceBound :
    (l : Ledger) (user fee_source : AccountView) (asset before : ℕ)
    → check_source l user fee_source asset ≡ ok before
    → SourceBound l user fee_source asset before
check_source-SourceBound l user fee_source asset before h = elim (Bool-cases (asset == 0)) [
  | inl sol ↦ sol_source l user fee_source asset before sol h
  | inr other ↦ token_source l user fee_source asset before other h
]
