-- ===== src/Program/Ledger.antt =====
-- Accounts as the program sees them. The runtime hands each instruction a list of views of accounts;
-- two views of one address show one account, so the state lies in a ledger indexed by address.
-- A view's borrow flag is not modelled: each borrow ends before the next one begins.
-- `Runtime` is what the program calls and does not implement: address derivation, the rent sysvar
-- and cross-program invocation. A failed invocation aborts the transaction, which Solana rolls back.
use sol_trade_router_sdk.Base.{ℕ, ◌≡◌, ◌≢◌, Bool, List, Option, arith, if◌then◌else◌}
use sol_trade_router_sdk.Base.Bytes.{Bytes, bytes_eq, bytes_eq_refl, ne→bytes_eq}
use sol_trade_router_sdk.Program.Error.{Result, ProgramError, ok, err}

pub record Account : Type 0 where
  pub owner : Bytes
  pub lamports : ℕ
  pub contents : Bytes

pub record AccountView : Type 0 where
  pub address : Bytes
  pub is_signer : Bool
  pub is_writable : Bool

abbrev pub Ledger : Type 0
Ledger = Bytes → Account

-- The ledger after the account at `a` was replaced.
unfoldable pub put : Ledger → Bytes → Account → Ledger
put l a acc b = if bytes_eq a b then acc else l b

abbrev pub owner : Ledger → AccountView → Bytes
owner l v = (l v.address).owner

abbrev pub lamports : Ledger → AccountView → ℕ
lamports l v = (l v.address).lamports

abbrev pub contents : Ledger → AccountView → Bytes
contents l v = (l v.address).contents

pub put_self : (l : Ledger) (a : Bytes) (acc : Account) → put l a acc a ≡ acc
unfolding put
put_self l a acc = ground (arith, bytes_eq_refl a)

pub put_other : (l : Ledger) (a b : Bytes) (acc : Account) → a ≢ b → put l a acc b ≡ l b
unfolding put
put_other l a b acc h = ground (arith, ne→bytes_eq a b h)

pub record InstructionAccount : Type 0 where
  pub address : Bytes
  pub is_writable : Bool
  pub is_signer : Bool

pub record Instruction : Type 0 where
  pub program_id : Bytes
  pub accounts : List InstructionAccount
  pub payload : Bytes

-- The result of a call into the runtime: it cannot make the calling program panic.
pub data Cpi {ℓ} (A : Type ℓ) : Type ℓ where
  done : A → Cpi A
  failed : ProgramError → Cpi A

unfoldable pub call {ℓ} : {A : Type ℓ} → Cpi A → Result A
call (done a) = ok a
call (failed e) = err e

pub record Runtime : Type 0 where
  -- `Address::find_program_address(seeds, program)`
  pub find_program_address : List Bytes → Bytes → Bytes × ℕ
  -- `Address::create_program_address(seeds, program)`
  pub create_program_address : List Bytes → Bytes → Option Bytes
  -- `Rent::get()?.try_minimum_balance(space)`
  pub minimum_balance : ℕ → Cpi ℕ
  -- System Program `Transfer { from, to, lamports }`
  pub system_transfer : AccountView → AccountView → ℕ → Ledger → Cpi Ledger
  -- `create_account_with_minimum_balance_signed(account, space, owner, payer, None, seeds)`
  pub create_account : AccountView → ℕ → Bytes → AccountView → List Bytes → Ledger → Cpi Ledger
  -- SPL Token `Transfer::new(from, to, authority, amount)` through the given token program
  pub token_transfer : AccountView → AccountView → AccountView → ℕ → Bytes → Ledger → Cpi Ledger
  -- `invoke_with_slice(instruction, accounts)`
  pub invoke : Instruction → List AccountView → Ledger → Cpi Ledger
