-- ===== src/Program/Route/Amounts.antt =====
-- route.rs: what the arithmetic helpers of the route accept and return.
use sol_trade_router_sdk.Base.{ℕ, ◌+◌, ◌*◌, ◌/◌, ◌≤◌, ◌<◌, ◌≡◌, ◌↔◌, Bool, true, false, arith}
use sol_trade_router_sdk.Base.Words.{IsU64, max_u64}
use sol_trade_router_sdk.Program.Error.{ok, fail, RouterError, reject_if, ok_or, ◌>>=◌}
use sol_trade_router_sdk.Program.State.{max_fee_bps}
use sol_trade_router_sdk.Program.Route.Checks.{checked_fee, validate_spend, received_quote}

-- The fee is the floor of `amount_in * fee_bps / 10_000`, and the overflow error is given exactly
-- where that floor does not fit a `u64`.
pub checked_fee_exact :
    (amount_in fee_bps : ℕ)
    → (amount_in * fee_bps / 10000 ≤ max_u64
        → checked_fee amount_in fee_bps ≡ ok (amount_in * fee_bps / 10000))
      × (max_u64 < amount_in * fee_bps / 10000
          → checked_fee amount_in fee_bps ≡ fail RouterError.arithmetic_overflow)
unfolding checked_fee ok_or
checked_fee_exact amount_in fee_bps = (λ h. ground arith, λ h. ground arith)

-- At a fee rate of at most 1,000 bps the fee of a u64 amount is computed, and is at most a tenth
-- of the amount.
pub checked_fee_capped :
    (amount_in fee_bps : ℕ)
    → IsU64 amount_in
    → fee_bps ≤ max_fee_bps
    → (fee : ℕ) × (checked_fee amount_in fee_bps ≡ ok fee) × (fee * 10 ≤ amount_in)
checked_fee_capped amount_in fee_bps fits low =
    let small : amount_in * fee_bps ≤ amount_in * 1000 = grind arith in
    (
      amount_in * fee_bps / 10000,
      (checked_fee_exact amount_in fee_bps).0 (omega arith),
      omega arith,
    )

-- What the spend check demands of the balances of the fee source.
abbrev pub SpendOk : ℕ → ℕ → ℕ → ℕ → Bool → Type 0
SpendOk before after amount_in fee true = (after + fee ≤ before) × (before ≤ after + amount_in)
SpendOk before after amount_in fee false = before ≡ after + amount_in

-- The spend check passes exactly when an exact-in route spent the declared input, and an exact-out
-- route between the fee and the declared input.
pub validate_spend_iff :
    (before after amount_in fee : ℕ) (exact_out : Bool)
    → (validate_spend before after amount_in fee exact_out ≡ ok tt)
      ↔ SpendOk before after amount_in fee exact_out
unfolding validate_spend ok_or reject_if ◌>>=◌
validate_spend_iff before after amount_in fee true = (λ h. ground arith, λ h. ground arith)
validate_spend_iff before after amount_in fee false = (λ h. ground arith, λ h. ground arith)

-- The amount that a leg brought in is returned exactly when the balance grew by it and it is no
-- less than the minimum.
pub received_quote_iff :
    (before after minimum received : ℕ)
    → (received_quote before after minimum ≡ ok received)
      ↔ ((after ≡ before + received) × (minimum ≤ received))
unfolding received_quote ok_or reject_if ◌>>=◌
received_quote_iff before after minimum received = (λ h. ground arith, λ h. ground arith)
