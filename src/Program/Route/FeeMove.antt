-- ===== src/Program/Route/FeeMove.antt =====
-- route.rs, `process_inner`: where the platform fee goes.
use sol_trade_router_sdk.Base.{
  ℕ, ◌≡◌, true, false, List, find, get_elem?, ◌⊎◌, inl, inr, refl, ap, ◌∙◌, sym, Option, none, some,
  [], ◌∷◌, ◌++◌, ◌==◌, ==→eq, ltb, ltb→le, arith, Bool-cases, not-eq-false,
}
use sol_trade_router_sdk.Base.Bytes.{Bytes, bytes_eq, bytes_eq→eq}
use sol_trade_router_sdk.Base.Words.{to_le_bytes}
use sol_trade_router_sdk.Program.Error.{ok, bind-eq-ok, guarded-eq-ok, index-eq-ok, ok-injective}
use sol_trade_router_sdk.Program.Ledger.{
  AccountView, Ledger, Runtime, Cpi, done, failed, Instruction, owner, contents, call,
}
use sol_trade_router_sdk.Program.State.{
  RouterConfig, token_owner, token_mint, token_2022_program_id,
}
use sol_trade_router_sdk.Sdk.Fallible.{some-injective}
use sol_trade_router_sdk.Program.Route.Input.{Accounts}
use sol_trade_router_sdk.Program.Route.Fee.{
  checked_mint, pay_sol_fee, pay_checked, transfer_token_fee, pay_token_fee, pay_fee,
}

call-eq-ok {ℓ} : {A : Type ℓ} (c : Cpi A) {a : A} → call c ≡ ok a → c ≡ done a
unfolding call
call-eq-ok (done a) h = ground arith
call-eq-ok (failed e) h = cc

-- The mint account that is chosen has the address asked for.
find_address :
    (x : Bytes) (accounts : List AccountView) (found : AccountView)
    → find (λ (acc : AccountView). bytes_eq acc.address x) accounts ≡ some found
    → found.address ≡ x
find_address x [] found h = cc
find_address x (acc ∷ rest) found h = elim (Bool-cases (bytes_eq acc.address x)) [
  | inl here ↦
      let same : acc ≡ found = some-injective (rw (find, here) at h) in
      ap (λ (v : AccountView). v.address) (sym same) ∙ bytes_eq→eq _ _ here
  | inr past ↦ find_address x rest found (rw (find, past) at h)
]

checked_mint-address :
    (a : Accounts) (x : Bytes) (mint : AccountView)
    → checked_mint a x ≡ some mint
    → mint.address ≡ x
checked_mint-address a x mint h =
    elim (Bool-cases (bytes_eq a.fee_program.address token_2022_program_id)) [
      | inl extended ↦ find_address x a.remaining mint (rw extended at h)
      | inr legacy ↦ absurd (none-some (rw legacy at h))
    ]
  where
    none-some : {v : AccountView} → none ≡ some v → ⊥
    none-some e = cc

-- A SOL fee: one system transfer of the fee from the signer's account to the config's recipient.
pub record SolFee (rt : Runtime) (cfg : RouterConfig) (a : Accounts) (fee : ℕ) (l paid : Ledger)
    : Type 0 where
  pub to_recipient : a.fee_destination.address ≡ cfg.fee_recipient
  pub from_user : a.fee_source.address ≡ a.user.address
  pub moved : rt.system_transfer a.fee_source a.fee_destination fee l ≡ done paid

-- SPL Token `TransferChecked`: the tag 12, the amount and the mint's decimals; the source, the mint,
-- the destination and the authority, of which the source and the destination are writable and the
-- authority signs.
abbrev pub transfer_checked : Accounts → AccountView → ℕ → ℕ → Instruction
transfer_checked a mint fee decimals = record {
  program_id = a.fee_program.address;
  accounts =
      record { address = a.fee_source.address; is_writable = true; is_signer = false }
      ∷ record { address = mint.address; is_writable = false; is_signer = false }
      ∷ record { address = a.fee_destination.address; is_writable = true; is_signer = false }
      ∷ record { address = a.user.address; is_writable = false; is_signer = true }
      ∷ [];
  payload = 12 ∷ (to_le_bytes 8 fee ++ decimals ∷ []);
}

-- The call that moves a token fee: `Transfer`, or `TransferChecked` with the account of the
-- source's mint, which the token program owns, and the decimals in its data.
abbrev pub TokenMove : Runtime → Accounts → ℕ → Ledger → Ledger → Type 0
TokenMove rt a fee l paid =
    (rt.token_transfer a.fee_source a.fee_destination a.user fee a.fee_program.address l
      ≡ done paid)
    ⊎ ((mint : AccountView) × (decimals : ℕ) × (owner l mint ≡ a.fee_program.address)
        × (token_mint l a.fee_source ≡ ok mint.address)
        × (get_elem? (contents l mint) 44 ≡ some decimals)
        × (rt.invoke (transfer_checked a mint fee decimals)
              (a.fee_source ∷ mint ∷ a.fee_destination ∷ a.user ∷ []) l
            ≡ done paid))

-- A token fee: one transfer of the fee, through the token program that owns the source, to an account
-- of the same program and mint that the config's recipient owns.
pub record TokenFee (rt : Runtime) (cfg : RouterConfig) (a : Accounts) (fee : ℕ) (l paid : Ledger)
    : Type 0 where
  pub through : a.fee_program.address ≡ owner l a.fee_source
  pub same_program : owner l a.fee_destination ≡ owner l a.fee_source
  pub to_recipient : token_owner l a.fee_destination ≡ ok cfg.fee_recipient
  pub same_mint :
      (mint : Bytes) × (token_mint l a.fee_destination ≡ ok mint)
      × (token_mint l a.fee_source ≡ ok mint)
  pub moved : TokenMove rt a fee l paid

module _ (rt : Runtime) (cfg : RouterConfig) (a : Accounts) (fee : ℕ) (l paid : Ledger) where
  pay_sol_fee-SolFee : pay_sol_fee rt cfg a fee l ≡ ok paid → SolFee rt cfg a fee l paid
  unfolding pay_sol_fee
  pay_sol_fee-SolFee h =
      let (_, h1) = guarded-eq-ok _ _ _ h in
      let (to_recipient, h2) = guarded-eq-ok _ _ _ h1 in
      let (from_user, h3) = guarded-eq-ok _ _ _ h2 in
      record {
        to_recipient = bytes_eq→eq _ _ (not-eq-false _ to_recipient);
        from_user = bytes_eq→eq _ _ (not-eq-false _ from_user);
        moved = call-eq-ok _ h3;
      }

  pay_checked-TokenMove :
      (mint : AccountView)
      → token_mint l a.fee_source ≡ ok mint.address
      → pay_checked rt a mint fee l ≡ ok paid
      → TokenMove rt a fee l paid
  unfolding pay_checked
  pay_checked-TokenMove mint of_source h =
      let (owned, h1) = guarded-eq-ok _ _ _ h in
      let (_, _, h2) = bind-eq-ok _ _ h1 in
      let (_, h3) = guarded-eq-ok _ _ _ h2 in
      let (decimals, at_44, h4) = bind-eq-ok _ _ h3 in
      inr (
        mint,
        decimals,
        bytes_eq→eq _ _ (not-eq-false _ owned),
        of_source,
        index-eq-ok _ at_44,
        call-eq-ok _ h4,
      )

  transfer-TokenMove :
      (mint_address : Bytes) (mint : Option AccountView)
      → checked_mint a mint_address ≡ mint
      → token_mint l a.fee_source ≡ ok mint_address
      → transfer_token_fee rt a mint fee l ≡ ok paid
      → TokenMove rt a fee l paid
  unfolding transfer_token_fee
  transfer-TokenMove mint_address none chosen read h = inl (call-eq-ok _ h)
  transfer-TokenMove mint_address (some mint) chosen read h =
      pay_checked-TokenMove mint
        (read ∙ ap ok (sym (checked_mint-address a mint_address mint chosen))) h

  pay_token_fee-TokenFee : pay_token_fee rt cfg a fee l ≡ ok paid → TokenFee rt cfg a fee l paid
  unfolding pay_token_fee
  pay_token_fee-TokenFee h =
      let (_, h1) = guarded-eq-ok _ _ _ h in
      let (through, h2) = guarded-eq-ok _ _ _ h1 in
      let (_, h3) = guarded-eq-ok _ _ _ h2 in
      let (same_program, h4) = guarded-eq-ok _ _ _ h3 in
      let (holder, held, h5) = bind-eq-ok _ _ h4 in
      let (to_recipient, h6) = guarded-eq-ok _ _ _ h5 in
      let (destination_mint, read, h7) = bind-eq-ok _ _ h6 in
      let (source_mint, source_read, h8) = bind-eq-ok _ _ h7 in
      let (same_mint, h9) = guarded-eq-ok _ _ _ h8 in
      let (mint_address, mint_read, h10) = bind-eq-ok _ _ h9 in
      record {
        through = bytes_eq→eq _ _ (not-eq-false _ through);
        same_program = bytes_eq→eq _ _ (not-eq-false _ same_program);
        to_recipient = held ∙ ap ok (bytes_eq→eq _ _ (not-eq-false _ to_recipient));
        same_mint =
            (source_mint, read ∙ ap ok (bytes_eq→eq _ _ (not-eq-false _ same_mint)), source_read);
        moved = transfer-TokenMove mint_address _ refl mint_read h10;
      }

  -- A fee payment that returned either had no fee to take and changed nothing, or moved exactly
  -- the fee by one call from the fee source to the recipient that the config names, in SOL or in
  -- the source's token; where the call is a checked transfer, its instruction names the source,
  -- the account of the source's mint, the recipient's account and the signer as authority, with
  -- that mint account's decimals.
  pub pay_fee_moves :
      (asset : ℕ)
      → pay_fee rt cfg a asset fee l ≡ ok paid
      → ((fee ≡ 0) × (paid ≡ l))
        ⊎ ((asset ≡ 0) × SolFee rt cfg a fee l paid)
        ⊎ ((asset ≡ 1) × TokenFee rt cfg a fee l paid)
  unfolding pay_fee
  pay_fee_moves asset h = elim (Bool-cases (ltb 0 fee)) [
    | inr none_due ↦
        inl (omega (arith, ltb→le 0 fee none_due), sym (ok-injective (rw none_due at h)))
    | inl due ↦ inr (elim (Bool-cases (asset == 0)) [
      | inl sol ↦ inl (==→eq _ _ sol, pay_sol_fee-SolFee (rw (due, sol) at h))
      | inr other ↦ elim (Bool-cases (asset == 1)) [
        | inl token ↦ inr (==→eq _ _ token, pay_token_fee-TokenFee (rw (due, other, token) at h))
        | inr neither ↦ absurd (ground arith)
      ]
    ])
  ]
