-- ===== src/Program/Route/NoPanic.antt =====
-- route.rs: no index of the route handler is out of bounds. Here are the readers and checks before the
-- legs; the legs and the whole handler are below.
pub mod Legs
pub mod Whole
use sol_trade_router_sdk.Base.{
  ℕ, ◌+◌, ◌*◌, ◌≤◌, ◌<◌, ◌≡◌, Bool, true, false, List, [], ◌∷◌, length, ltb, ltb→le, arith,
}
use sol_trade_router_sdk.Base.Bytes.{Bytes}
use sol_trade_router_sdk.Program.Error.{Result, ok, RouterError, reject_if-eq-ok}
use sol_trade_router_sdk.Program.Ledger.{AccountView, Ledger, Runtime, contents}
use sol_trade_router_sdk.Program.Calm.{
  Calm, Calm-ok, Calm-get_elem?, Calm-get_range, Calm-bind, Calm-reject, calm_rules,
}
use sol_trade_router_sdk.Program.State.{
  config_len, at_start, read, token_mint, token_owner, token_amount,
}
use sol_trade_router_sdk.Program.State.RoundTrip.{at_start-ok}
use sol_trade_router_sdk.Program.Route.Checks.{
  read_u16, read_u64, checked_fee, validate_output, output_balance, validate_spend, received_quote,
}
use sol_trade_router_sdk.Program.Route.Input.{
  parse_header, split_first, split_first_if, split_accounts, check_config, source_balance,
  check_source,
}

pub at_start-Calm : (d : Bytes) → ltb (length d) config_len ≡ false → Calm (at_start d)
at_start-Calm d large = rw (at_start-ok d large) (Calm-ok _)

pub read-Calm : (l : Ledger) (v : AccountView) → Calm (read l v)
unfolding read
read-Calm l v = Calm-bind _ _ (Calm-reject _ _) λ _ passed.
    Calm-bind _ _ (at_start-Calm (contents l v) (reject_if-eq-ok _ _ passed))
      λ _ _. search calm_rules

pub token_mint-Calm : (l : Ledger) (v : AccountView) → Calm (token_mint l v)
unfolding token_mint
token_mint-Calm l v = Calm-bind _ _ (Calm-reject _ _) λ _ passed.
    let long : 32 ≤ length (contents l v) = ltb→le _ _ (reject_if-eq-ok _ _ passed) in
    Calm-get_range (contents l v) 0 32 (omega arith) long

pub token_owner-Calm : (l : Ledger) (v : AccountView) → Calm (token_owner l v)
unfolding token_owner
token_owner-Calm l v = Calm-bind _ _ (Calm-reject _ _) λ _ passed.
    let long : 64 ≤ length (contents l v) = ltb→le _ _ (reject_if-eq-ok _ _ passed) in
    Calm-get_range (contents l v) 32 64 (omega arith) long

pub token_amount-Calm : (l : Ledger) (v : AccountView) → Calm (token_amount l v)
unfolding token_amount
token_amount-Calm l v = Calm-bind _ _ (Calm-reject _ _) λ _ passed.
    let long : 72 ≤ length (contents l v) = ltb→le _ _ (reject_if-eq-ok _ _ passed) in
    Calm-bind _ _ (Calm-get_range (contents l v) 64 72 (omega arith) long) λ _ _. Calm-ok _

pub read_u16-Calm : (d : Bytes) (i : ℕ) → Calm (read_u16 d i)
unfolding read_u16
read_u16-Calm d i = search calm_rules

pub read_u64-Calm : (d : Bytes) (i : ℕ) → Calm (read_u64 d i)
unfolding read_u64
read_u64-Calm d i = search calm_rules

pub ruleset readers = (
  calm_rules, read-Calm, token_mint-Calm, token_owner-Calm, token_amount-Calm, read_u16-Calm,
  read_u64-Calm,
)

pub checked_fee-Calm : (amount bps : ℕ) → Calm (checked_fee amount bps)
unfolding checked_fee
checked_fee-Calm amount bps = search readers

pub received_quote-Calm : (before after minimum : ℕ) → Calm (received_quote before after minimum)
unfolding received_quote
received_quote-Calm before after minimum = search readers

pub parse_header-Calm : (d : Bytes) (n : ℕ) → Calm (parse_header d n)
unfolding parse_header
parse_header-Calm d n = Calm-bind _ _ (Calm-reject _ _) λ _ passed.
    let fits : 50 + 8 * n ≤ length d = ltb→le _ _ (reject_if-eq-ok _ _ passed) in
    Calm-bind _ _ (read_u64-Calm d 0) λ _ _. Calm-bind _ _ (read_u64-Calm d 8) λ _ _.
      Calm-bind _ _ (Calm-get_elem? d 16 (omega arith)) λ _ _.
        Calm-bind _ _ (Calm-get_elem? d 17 (omega arith)) λ _ _.
          Calm-bind _ _ (Calm-get_range d 18 50 (omega arith) (omega arith))
            λ _ _. search readers depth 12

pub split_first-Calm : (accounts : List AccountView) → Calm (split_first accounts)
unfolding split_first
split_first-Calm [] = search readers
split_first-Calm (a ∷ rest) = search readers

pub split_first_if-Calm :
    (b : Bool) (accounts : List AccountView) → Calm (split_first_if b accounts)
unfolding split_first_if
split_first_if-Calm true accounts = search (readers, split_first-Calm)
split_first_if-Calm false accounts = search readers

pub split_accounts-Calm : (accounts : List AccountView) (n : ℕ) → Calm (split_accounts accounts n)
unfolding split_accounts
split_accounts-Calm accounts n = search (readers, split_first-Calm, split_first_if-Calm) depth 12

pub check_config-Calm :
    (rt : Runtime) (p : Bytes) (u c : AccountView) (l : Ledger) → Calm (check_config rt p u c l)
unfolding check_config
check_config-Calm rt p u c l = search readers depth 12

pub validate_output-Calm :
    (l : Ledger) (u o : AccountView) (m : Bytes) (dynamic : Bool)
    → Calm (validate_output l u o m dynamic)
unfolding validate_output
validate_output-Calm l u o m dynamic = search readers depth 12

pub output_balance-Calm :
    (l : Ledger) (o : AccountView) (native : Bool) → Calm (output_balance l o native)
unfolding output_balance
output_balance-Calm l o native = search readers

pub validate_spend-Calm :
    (before after amount fee : ℕ) (exact_out : Bool)
    → Calm (validate_spend before after amount fee exact_out)
unfolding validate_spend
validate_spend-Calm before after amount fee exact_out = search readers

pub source_balance-Calm :
    (l : Ledger) (v : AccountView) (asset : ℕ) → Calm (source_balance l v asset)
unfolding source_balance
source_balance-Calm l v asset = search readers

pub check_source-Calm :
    (l : Ledger) (u v : AccountView) (asset : ℕ) → Calm (check_source l u v asset)
unfolding check_source
check_source-Calm l u v asset = search readers depth 12

pub ruleset route_readers = (
  readers, checked_fee-Calm, received_quote-Calm, parse_header-Calm, split_accounts-Calm,
  check_config-Calm, validate_output-Calm, output_balance-Calm, validate_spend-Calm,
  source_balance-Calm, check_source-Calm,
)
