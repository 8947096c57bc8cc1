-- ===== src/Program/Route/Guarantees.antt =====
-- route.rs: what a route instruction that returned guarantees to the user and to the fee recipient.
-- In all statements `n` is `dynamic_intermediates`, `l` the ledger before and `l'` the ledger behind.
use sol_trade_router_sdk.Base.{
  ℕ, ◌*◌, ◌/◌, ◌≡◌, Bool, Option, none, some, List, sym, subst, ◌⊎◌, inl, inr,
}
use sol_trade_router_sdk.Base.Bytes.{Bytes}
use sol_trade_router_sdk.Program.Error.{ok}
use sol_trade_router_sdk.Program.Ledger.{AccountView, Ledger, Runtime}
use sol_trade_router_sdk.Program.State.{RouterConfig, token_amount}
use sol_trade_router_sdk.Program.Route.Checks.{output_balance, checked_fee, validate_output}
use sol_trade_router_sdk.Program.Route.Amounts.{SpendOk}
use sol_trade_router_sdk.Program.Route.Input.{
  Header, Accounts, parse_header, split_accounts, source_balance, is_dynamic,
}
use sol_trade_router_sdk.Program.Route.Fee.{pay_fee}
use sol_trade_router_sdk.Program.Route.Legs.{intermediate_before}
use sol_trade_router_sdk.Program.Route.Process.{process_inner}
use sol_trade_router_sdk.Program.Route.Stages.{
  Stages, prepare-Stages, Authorised, check_config-Authorised, checked_fee-value, SourceBound,
  check_source-SourceBound,
}
use sol_trade_router_sdk.Program.Route.Intermediates.{
  snapshot-Measured, IntermediateOk, intermediate_before-IntermediateOk,
}
use sol_trade_router_sdk.Program.Route.Settlement.{
  Restored, Floor, output_grows, Run, process_inner-Run,
}

-- `paid` is the ledger behind the payment of the platform fee of the route, under its config.
abbrev pub FeePaid : Runtime → Bytes → Header → Accounts → Ledger → Ledger → Type 0
FeePaid rt program_id h a l paid =
    (cfg : RouterConfig) × (fee : ℕ) × Authorised rt program_id a.user a.config l cfg
    × (checked_fee h.amount_in cfg.fee_bps ≡ ok fee)
    × (pay_fee rt cfg a h.fee_asset fee l ≡ ok paid)

-- The signer and the config that a route ran under.
abbrev pub RouteAuthorised : Runtime → Bytes → List AccountView → ℕ → Ledger → Type 0
RouteAuthorised rt program_id accounts n l =
    (a : Accounts) × (cfg : RouterConfig) × (split_accounts accounts n ≡ ok a)
    × Authorised rt program_id a.user a.config l cfg

-- What the fee source spent between `l` and `l'`, and whose account it is.
abbrev pub FeeIntegrity : Runtime → Bytes → List AccountView → Bytes → ℕ → Ledger → Ledger → Type 0
FeeIntegrity rt program_id accounts d n l l' =
    (h : Header) × (a : Accounts) × (cfg : RouterConfig) × (before : ℕ) × (after : ℕ)
    × (parse_header d n ≡ ok h)
    × (split_accounts accounts n ≡ ok a)
    × Authorised rt program_id a.user a.config l cfg
    × SourceBound l a.user a.fee_source h.fee_asset before
    × (source_balance l' a.fee_source h.fee_asset ≡ ok after)
    × SpendOk before after h.amount_in (h.amount_in * cfg.fee_bps / 10000) h.exact_out

-- What the output account gained between the fee payment and `l'`.
abbrev pub OutputFloor : Runtime → Bytes → List AccountView → Bytes → ℕ → Ledger → Ledger → Type 0
OutputFloor rt program_id accounts d n l l' =
    (h : Header) × (a : Accounts) × (native : Bool) × (paid : Ledger) × (before : ℕ) × (after : ℕ)
    × (parse_header d n ≡ ok h)
    × (split_accounts accounts n ≡ ok a)
    × (validate_output l a.user a.user_output h.expected_output_mint (is_dynamic n) ≡ ok native)
    × FeePaid rt program_id h a l paid
    × (output_balance paid a.user_output native ≡ ok before)
    × (output_balance l' a.user_output native ≡ ok after)
    × Floor n h.min_amount_out before after

-- The intermediate accounts between the fee payment and `l'`.
abbrev pub IntermediatesRestored :
    Runtime → Bytes → List AccountView → Bytes → ℕ → Ledger → Ledger → Type 0
IntermediatesRestored rt program_id accounts d n l l' =
    (h : Header) × (a : Accounts) × (paid : Ledger) × (parse_header d n ≡ ok h)
    × (split_accounts accounts n ≡ ok a)
    × FeePaid rt program_id h a l paid
    × ((v : AccountView)
        → (a.intermediate ≡ some v) ⊎ (a.second_intermediate ≡ some v)
        → (before : ℕ) × IntermediateOk a v paid before × (token_amount l' v ≡ ok before))

module _ (rt : Runtime) (program_id : Bytes) (accounts : List AccountView) (d : Bytes) (n : ℕ)
    (l l' : Ledger) (returned : process_inner rt program_id accounts d n l ≡ ok l') where
  run : Run rt program_id accounts d n l l'
  run = process_inner-Run rt program_id accounts d n l returned

  stages : Stages rt program_id accounts d n l run.setup
  stages = prepare-Stages rt program_id accounts d n l run.setup run.prepared

  fee_paid : FeePaid rt program_id run.setup.header run.setup.accounts l run.paid
  fee_paid =
      let s = run.setup in
      (
        s.config,
        s.fee,
        check_config-Authorised rt program_id s.accounts.user s.accounts.config l s.config
            stages.checked,
        stages.fee_computed,
        run.fee_paid,
      )

  -- A route that returned was signed by its user, under a config that this program owns, that lies
  -- at the address derived from the config seed and its own bump, and that is not paused.
  pub route_authorised : RouteAuthorised rt program_id accounts n l
  route_authorised = (
    run.setup.accounts,
    run.setup.config,
    stages.split,
    check_config-Authorised rt program_id run.setup.accounts.user run.setup.accounts.config l
        run.setup.config stages.checked,
  )

  -- A route that returned changed the balance of its fee source by exactly the declared input, or,
  -- in exact-out mode, by at least the fee (the floor of the input times the config's rate over
  -- 10,000) and at most the input; the fee source belongs to the signer.
  pub fee_integrity : FeeIntegrity rt program_id accounts d n l l'
  fee_integrity =
      let s = run.setup in
      (
        s.header,
        s.accounts,
        s.config,
        s.source_before,
        run.settled.source_after,
        stages.parsed,
        stages.split,
        check_config-Authorised rt program_id s.accounts.user s.accounts.config l s.config
            stages.checked,
        check_source-SourceBound l s.accounts.user s.accounts.fee_source s.header.fee_asset
            s.source_before stages.source_checked,
        subst
            (λ (t : Ledger).
              source_balance t s.accounts.fee_source s.header.fee_asset
              ≡ ok run.settled.source_after)
            (sym run.final) run.settled.source_read,
        subst
            (λ (fee : ℕ).
              SpendOk s.source_before run.settled.source_after s.header.amount_in fee
                s.header.exact_out)
            (checked_fee-value s.header.amount_in s.config.fee_bps s.fee stages.fee_computed)
            run.settled.spent,
      )

  -- In a route that returned, the output account passed the output check for the declared mint,
  -- and from behind the fee payment to the end its balance grew by at least the declared minimum,
  -- unless that minimum is zero, which only a route without a dynamic leg may declare.
  pub output_floor : OutputFloor rt program_id accounts d n l l'
  output_floor =
      let s = run.setup in
      (
        s.header,
        s.accounts,
        s.native_sol_out,
        run.paid,
        run.before.output_before,
        run.settled.output_after,
        stages.parsed,
        stages.split,
        stages.output_bound,
        fee_paid,
        (snapshot-Measured s run.paid run.before run.measured).output_read,
        subst
            (λ (t : Ledger).
              output_balance t s.accounts.user_output s.native_sol_out
              ≡ ok run.settled.output_after)
            (sym run.final) run.settled.output_read,
        output_grows d n run.before.output_before run.settled.output_after stages.parsed
            run.settled.received,
      )

  -- Each intermediate account that a returned route has was, behind the fee payment, a writable
  -- token account of the signer other than the fee source and the output, and holds at the end
  -- exactly the amount that it held then.
  pub intermediates_restored : IntermediatesRestored rt program_id accounts d n l l'
  intermediates_restored =
      let s = run.setup in
      let m = snapshot-Measured s run.paid run.before run.measured in
      let at_end =
        λ (o : Option AccountView) (before : ℕ) (h : Restored o before run.finish.ledger).
          subst (λ (t : Ledger). Restored o before t) (sym run.final) h in
      (
        s.header,
        s.accounts,
        run.paid,
        stages.parsed,
        stages.split,
        fee_paid,
        λ v. elim [
          | inl e ↦ (
            run.before.quote_before,
            intermediate_before-IntermediateOk s.accounts v none run.paid run.before.quote_before (
                subst
                  (λ (o : Option AccountView).
                    intermediate_before s.accounts o none run.paid ≡ ok run.before.quote_before)
                  e m.first_read),
            subst (λ (o : Option AccountView). Restored o run.before.quote_before l') e
                (at_end _ _ run.settled.first_restored),
          )
          | inr e ↦ (
            run.before.second_before,
            intermediate_before-IntermediateOk s.accounts v s.accounts.intermediate run.paid
                run.before.second_before
                (subst
                  (λ (o : Option AccountView).
                    intermediate_before s.accounts o s.accounts.intermediate run.paid
                    ≡ ok run.before.second_before)
                  e m.second_read),
            subst (λ (o : Option AccountView). Restored o run.before.second_before l') e
                (at_end _ _ run.settled.second_restored),
          )
        ],
      )
