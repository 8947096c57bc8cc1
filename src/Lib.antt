-- ===== src/Lib.antt =====
-- Verification of sol-trade-router: the on-chain program, and the quotes, legs and instructions of its
-- SDK.
--
-- The router is a Solana program that runs a trade as one to four legs, each a call into a market's
-- program, between checks that no leg can bypass: it takes the platform's fee, measures balances
-- before and after, and fails, which Solana rolls back, unless the trade spent what was declared and
-- brought in the minimum. The SDK quotes the markets and builds the instructions that the program
-- decodes. The two meet in the instruction data, the order of the accounts, and the fee.
--
-- Program: the on-chain program, programs/sol-trade-router/src.
--   Program.Error      error.rs: the error codes; a handler returns a value, an error, or panics. A
--                      panic is an index or a range out of bounds, which Rust turns into an
--                      abort. The config is read through a pointer cast (`at_start`): there a
--                      read beyond the account's data, undefined in Rust, counts as a panic.
--   Program.Ledger     accounts as the program sees them. Views of accounts are passed along; what
--                      they show lies in a ledger indexed by address, so that two views of one
--                      address share their account. `Runtime` is what the program calls and does not
--                      contain: address derivation, rent, and every cross-program invocation. Its
--                      functions are parameters without hypotheses: a callee may change any account.
--   Program.State      state.rs: the config account byte for byte, its readers and writers
--                      (`RouterConfig`, `read`, `write_new`, `update`), and the token readers.
--   Program.Admin      instructions/initialize.rs and instructions/update_config.rs (`process` of
--                      each is `initialize` and `update_config`).
--   Program.Prepare    instructions/prepare_pumpfun.rs (`process` is `prepare_pumpfun`).
--   Program.Route      instructions/route.rs. Layout holds the dynamic switch (`dynamic_second_leg`)
--                      with its indexing; for the proofs, Layout.Total has it with total reads
--                      and Layout.InBounds shows that the two agree. Checks holds
--                      the helper functions, Input the header, the accounts, the config and
--                      the fee source, Fee the fee payment, Legs the body of the leg loop, Process
--                      `process_inner` and its three entry points.
--   Program.Dispatch   lib.rs: the tags and `process_instruction`.
--   The other modules below Program hold proofs: State.Fields, RoundTrip and Update what is read
--   back from the config account, Route.Amounts, Patch, Fits and FeeMove the helpers, Stages,
--   Intermediates and Settlement one stage of a route each, which Guarantees joins, and Calm and NoPanic that no handler panics.
--
-- Sdk: the pure part of crates/sdk/src.
--   Sdk.Fallible       anyhow::Result without its messages.
--   Sdk.TransferFee    transfer_fee.rs.
--   Sdk.Quote          quote.rs, a module per market, each with its pool of market.rs; Curve holds
--                      the constant-product facts that they share. Cpmm.Search and Cpmm.Inverse
--                      hold the loops of `cpmm_in_for_out`, on fuel.
--   Sdk.Keys           account metas and instructions; address derivation is an argument.
--   Sdk.Constants      constants.rs: addresses, tags and constant metas.
--   Sdk.Ata            ata.rs: the associated token address.
--   Sdk.Legs           legs.rs: the leg and, a module per market, the builders of its legs.
--   Sdk.RouteIx        route_ix.rs: Layout holds the layouts and the check of dynamic legs, Build the
--                      builders. Agreement, Valid, ValidPools, ValidWhirlpool, ValidPump and
--                      ExactInput compare the layouts with the program's and the legs with both; Reads, Decode, Headers, RoundTrip
--                      and ThreeHop take what the builders wrote through the program's parsers.
--   Sdk.PumpFunV3      pumpfun_v3.rs: the checks of a pool, the quotes and, in Legs, the legs.
--   Sdk.PoolGuard      pool_guard.rs, with the markets of market.rs.
--   Sdk.Admin          admin.rs; Decode runs the program on its instructions.
--
-- Tests: runs of the program in a small world, with the numbers of the source's unit tests, and the
-- theorems at concrete inputs.
--
-- Numbers are natural numbers. A `u64` or `u128` is written with what Rust does at its bounds:
-- checked and saturating operations by `checked_to`, `checked_sub` and `saturate`, a truncating cast
-- by `% 2 ^ w`; a plain operation whose operands cannot overflow has no bound, and theorems that need
-- a field's width take it as a hypothesis. The leg loop runs over the number of legs. The loops of
-- `cpmm_in_for_out` run on fuel 65: their bounds are u64, and each round halves what is left or
-- doubles the bound, so 64 rounds reach the end; `stuck` would be a run out of fuel.
--
-- Not modelled: borrow flags and the layout of memory on chain; the creation and closing of token
-- accounts, the dynamic buys, the trade builder and the Pump V3 trades of the SDK; what
-- sol_trade_sdk checks of a PumpSwap pool's accounts, which is an argument; its client, parsers and RPC adapters, which are glue over third-party
-- crates; the examples, scripts and the vendored gRPC client.
pub mod Base
pub mod Program
pub mod Sdk
pub mod Tests
