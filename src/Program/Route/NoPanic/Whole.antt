-- ===== src/Program/Route/NoPanic/Whole.antt =====
-- route.rs and the other instructions: no instruction of the program panics.
use sol_trade_router_sdk.Base.Bytes.{Bytes}
use sol_trade_router_sdk.Program.Ledger.{Ledger}
use sol_trade_router_sdk.Program.Calm.{Calm}
