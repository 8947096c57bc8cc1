-- ===== src/Program/Route/Settlement.antt =====
-- route.rs, `process_inner`: what a route that returns without an error has done to the balances.
use sol_trade_router_sdk.Base.{
  ℕ, ◌+◌, ◌-◌, ◌≤◌, ◌≡◌, ◌==◌, ◌&&◌, ◌||◌, not, Bool, true, false, Option, none, some, List, length,
  ltb→le, ==→pos, Bool-cases, inl, inr, ◌⊎◌, sym, ap, arith,
}
use sol_trade_router_sdk.Base.Bytes.{Bytes}
use sol_trade_router_sdk.Program.Error.{ok, reject_if, bind-eq-ok, guarded-eq-ok, ok-injective}
use sol_trade_router_sdk.Program.Ledger.{AccountView, Ledger, Runtime}
use sol_trade_router_sdk.Program.State.{token_amount}
use sol_trade_router_sdk.Program.Route.Checks.{output_balance}
use sol_trade_router_sdk.Program.Route.Amounts.{SpendOk, validate_spend_iff}
use sol_trade_router_sdk.Program.Route.Input.{
  Header, parse_header, source_balance, is_dynamic, is_three_hop,
}
use sol_trade_router_sdk.Program.Route.Fee.{pay_fee}
use sol_trade_router_sdk.Program.Route.Legs.{LoopState, run_legs}
use sol_trade_router_sdk.Program.Route.Process.{
  Setup, Snapshot, prepare, snapshot, check_spent, settle, start, route_of, process_inner,
}

-- The balance of an intermediate account, where there is one, is what it was before the legs.
abbrev pub Restored : Option AccountView → ℕ → Ledger → Type 0
Restored none before l = Unit {0}
Restored (some intermediate) before l = token_amount l intermediate ≡ ok before

check_spent-Restored :
    (intermediate : Option AccountView) (before : ℕ) (l : Ledger)
    → check_spent intermediate before l ≡ ok tt
    → Restored intermediate before l
unfolding check_spent
check_spent-Restored none before l h = tt
check_spent-Restored (some intermediate) before l h =
    let (after, read, same) = bind-eq-ok _ _ h in unfold reject_if in ground arith

-- How the final ledger relates to the snapshots: the fee source spent what the mode allows, the
-- output account's gain, zero where it fell, is the minimum at least, and the intermediate accounts
-- are back.
pub record Settled (s : Setup) (b : Snapshot) (d : Bytes) (n : ℕ) (e : LoopState) : Type 0 where
  pub source_after : ℕ
  pub source_read :
      source_balance e.ledger s.accounts.fee_source s.header.fee_asset ≡ ok source_after
  pub spent : SpendOk s.source_before source_after s.header.amount_in s.fee s.header.exact_out
  pub output_after : ℕ
  pub output_read :
      output_balance e.ledger s.accounts.user_output s.native_sol_out ≡ ok output_after
  pub received : s.header.min_amount_out ≤ output_after - b.output_before
  pub first_restored : Restored s.accounts.intermediate b.quote_before e.ledger
  pub second_restored : Restored s.accounts.second_intermediate b.second_before e.ledger
  pub all_read : is_dynamic n ≡ true → e.cursor ≡ length d

pub settle-Settled :
    (s : Setup) (b : Snapshot) (d : Bytes) (n : ℕ) (e : LoopState) {l : Ledger}
    → settle s b d n e ≡ ok l
    → (l ≡ e.ledger) × Settled s b d n e
unfolding settle
settle-Settled s b d n e {l} h =
    let (at_end, h1) = guarded-eq-ok _ _ _ h in
    let (_, first, h2) = bind-eq-ok _ _ h1 in
    let (_, second, h3) = bind-eq-ok _ _ h2 in
    let (source_after, source_read, h4) = bind-eq-ok _ _ h3 in
    let (_, spent, h5) = bind-eq-ok _ _ h4 in
    let (output_after, output_read, h6) = bind-eq-ok _ _ h5 in
    let (enough, done) = guarded-eq-ok _ _ _ h6 in
    (
      cc,
      record {
        source_after = source_after;
        source_read = source_read;
        spent = (validate_spend_iff _ _ _ _ _).0 spent;
        output_after = output_after;
        output_read = output_read;
        received = ltb→le _ _ enough;
        first_restored = check_spent-Restored _ _ _ first;
        second_restored = check_spent-Restored _ _ _ second;
        all_read = λ dyn. ground arith;
      },
    )

-- A route with a dynamic leg declares a positive minimum.
parse_header_minimum :
    (d : Bytes) (n : ℕ) {h : Header}
    → parse_header d n ≡ ok h
    → (is_dynamic n && h.min_amount_out == 0) ≡ false
unfolding parse_header
parse_header_minimum d n {h} parsed =
    let (_, h1) = guarded-eq-ok _ _ _ parsed in
    let (_, _, h2) = bind-eq-ok _ _ h1 in
    let (least, _, h3) = bind-eq-ok _ _ h2 in
    let (fee_asset, _, h4) = bind-eq-ok _ _ h3 in
    let (num_legs, _, h5) = bind-eq-ok _ _ h4 in
    let (_, _, h6) = bind-eq-ok _ _ h5 in
    let (first_least, _, h7) = bind-eq-ok _ _ h6 in
    let (second_least, _, h8) = bind-eq-ok _ _ h7 in
    let (_, h9) = guarded-eq-ok _ _ _ h8 in
    let (_, h10) = guarded-eq-ok _ _ _ h9 in
    let (declared, done) = guarded-eq-ok _ _ _ h10 in
    let same : least ≡ h.min_amount_out =
      ap (λ (o : Header). o.min_amount_out) (ok-injective done) in
    rw (sym same) (
      last_false (is_dynamic n) (not (num_legs == n + 1)) (not (fee_asset == 1)) (first_least == 0)
        (is_three_hop n && second_least == 0) (least == 0) declared)
  where
    last_false : (c x y z w v : Bool) → (c && (x || y || z || w || v)) ≡ false → (c && v) ≡ false
    last_false c x y z w v e = ground arith

-- The floor of the output in additive form: only a route without a dynamic leg may declare zero.
abbrev pub Floor : ℕ → ℕ → ℕ → ℕ → Type 0
Floor n least before after = (before + least ≤ after) ⊎ ((is_dynamic n ≡ false) × (least ≡ 0))

pub output_grows :
    (d : Bytes) (n before after : ℕ) {h : Header}
    → parse_header d n ≡ ok h
    → h.min_amount_out ≤ after - before
    → Floor n h.min_amount_out before after
output_grows d n before after {h} parsed grown =
    let declared = parse_header_minimum d n parsed in
    elim (Bool-cases (h.min_amount_out == 0)) [
      | inl nothing ↦ inr (ground arith)
      | inr something ↦ inl (omega (arith, ==→pos h.min_amount_out something, grown))
    ]

-- A run of `process_inner` that returned, taken apart into its stages.
pub record Run (rt : Runtime) (program_id : Bytes) (accounts : List AccountView) (d : Bytes) (n : ℕ)
    (l l' : Ledger) : Type 0 where
  pub setup : Setup
  pub prepared : prepare rt program_id accounts d n l ≡ ok setup
  pub paid : Ledger
  pub fee_paid : pay_fee rt setup.config setup.accounts setup.header.fee_asset setup.fee l ≡ ok paid
  pub before : Snapshot
  pub measured : snapshot setup paid ≡ ok before
  pub finish : LoopState
  pub legs_ran :
      run_legs (route_of rt setup before d n) setup.header.num_legs 0 (start n paid) ≡ ok finish
  pub final : l' ≡ finish.ledger
  pub settled : Settled setup before d n finish

pub process_inner-Run :
    (rt : Runtime) (program_id : Bytes) (accounts : List AccountView) (d : Bytes) (n : ℕ)
    (l : Ledger) {l' : Ledger}
    → process_inner rt program_id accounts d n l ≡ ok l'
    → Run rt program_id accounts d n l l'
unfolding process_inner
process_inner-Run rt program_id accounts d n l h =
    let (s, prepared, h1) = bind-eq-ok _ _ h in
    let (paid, fee_paid, h2) = bind-eq-ok _ _ h1 in
    let (b, measured, h3) = bind-eq-ok _ _ h2 in
    let (e, legs_ran, h4) = bind-eq-ok _ _ h3 in
    let (final, settled) = settle-Settled s b d n e h4 in
    record {
      setup = s;
      prepared = prepared;
      paid = paid;
      fee_paid = fee_paid;
      before = b;
      measured = measured;
      finish = e;
      legs_ran = legs_ran;
      final = final;
      settled = settled;
    }
