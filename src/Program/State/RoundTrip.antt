-- ===== src/Program/State/RoundTrip.antt =====
-- state.rs: what is read from the config account is what was written to it.
use sol_trade_router_sdk.Base.{
  ℕ, ◌+◌, ◌≤◌, ◌<◌, ◌≡◌, true, false, arith, refl, ap, ◌∙◌, subst, length, drop, ltb, ltb→le,
  le→ltb, le→leb,
}
use sol_trade_router_sdk.Base.Bytes.{Bytes, eq→bytes_eq, write_at, zeros, length-write_at}
use sol_trade_router_sdk.Program.Error.{
  ok, fail, RouterError, reject_if, ◌>>=◌, bind-eq-ok, guarded-eq-ok, ok-injective,
}
use sol_trade_router_sdk.Program.Ledger.{Account, AccountView, Ledger, contents, put_self}
use sol_trade_router_sdk.Program.State.{
  RouterConfig, config_discriminator, config_len, max_fee_bps, encode, decode, at_start,
  is_initialized, read, with_config, write_new,
}
use sol_trade_router_sdk.Program.State.Fields.{WellSized, decode-encode, length-encode}

module _ (c : RouterConfig) (sized : WellSized c) where
  decode-write_at : (d : Bytes) → decode (write_at d 0 (encode c)) ≡ c
  unfolding write_at
  decode-write_at d = decode-encode c sized (drop (0 + length (encode c)) d)

  contents-with_config :
      (l : Ledger) (account : AccountView)
      → contents (with_config l account c) account ≡ write_at (contents l account) 0 (encode c)
  unfolding with_config
  contents-with_config l account =
      ap (λ (a : Account). a.contents)
        (put_self l account.address
          (record (l account.address) { contents = write_at (contents l account) 0 (encode c) }))

  pub decode-with_config :
      (l : Ledger) (account : AccountView) → decode (contents (with_config l account c) account) ≡ c
  decode-with_config l account =
      ap decode (contents-with_config l account) ∙ decode-write_at (contents l account)

  pub large-with_config :
      (l : Ledger) (account : AccountView)
      → config_len ≤ length (contents l account)
      → ltb (length (contents (with_config l account c) account)) config_len ≡ false
  large-with_config l account large =
      let same =
        length-write_at (contents l account) 0 (encode c)
          (omega (arith, length-encode c sized, large)) in
      le→ltb _ 80
        (omega (arith, ap (λ (d : Bytes). length d) (contents-with_config l account), same, large))

pub at_start-ok : (d : Bytes) → ltb (length d) config_len ≡ false → at_start d ≡ ok (decode d)
unfolding at_start
at_start-ok d large = rw (le→leb config_len (length d) (ltb→le _ _ large)) refl

pub marked_new :
    (c : RouterConfig) → c.discriminator ≡ config_discriminator → is_initialized c ≡ true
unfolding is_initialized
marked_new c is = eq→bytes_eq c.discriminator config_discriminator is

pub read_of :
    (l : Ledger) (account : AccountView) (c : RouterConfig)
    → ltb (length (contents l account)) config_len ≡ false
    → decode (contents l account) ≡ c
    → is_initialized c ≡ true
    → read l account ≡ ok c
unfolding read reject_if ◌>>=◌
read_of l account c room is marked =
    rw (room, at_start-ok (contents l account) room, is, marked) refl

no_second :
    (l : Ledger) (account : AccountView) (c : RouterConfig)
    → ltb (length (contents l account)) config_len ≡ false
    → decode (contents l account) ≡ c
    → is_initialized c ≡ true
    → (other recipient : Bytes) (fee again : ℕ) → fee ≤ max_fee_bps
    → write_new account other recipient fee again l ≡ fail RouterError.already_initialized
unfolding write_new reject_if ◌>>=◌
no_second l account c room is marked other recipient fee again low =
    rw (le→ltb 1000 fee low, room, at_start-ok (contents l account) room, is, marked) refl

-- For a 32-byte authority and recipient and a bump of one byte, a config that write_new stored has
-- a rate of at most 1,000 bps, is the config that read returns afterwards, unpaused, and cannot be
-- written over by another write_new.
pub write_new-read :
    (l after : Ledger) (account : AccountView) (authority fee_recipient : Bytes) (fee_bps bump : ℕ)
    → length authority ≡ 32
    → length fee_recipient ≡ 32
    → bump < 256
    → write_new account authority fee_recipient fee_bps bump l ≡ ok after
    → (fee_bps ≤ max_fee_bps)
      × (read after account
          ≡ ok (record {
            discriminator = config_discriminator;
            authority = authority;
            fee_recipient = fee_recipient;
            fee_bps = fee_bps;
            bump = bump;
            paused = 0;
            padding = zeros 4;
          }))
      × ((other recipient : Bytes) (fee again : ℕ)
          → fee ≤ max_fee_bps
          → write_new account other recipient fee again after
            ≡ fail RouterError.already_initialized)
unfolding write_new
write_new-read l after account authority fee_recipient fee_bps bump a32 r32 small h =
    let (low, h1) = guarded-eq-ok _ _ _ h in
    let (large, h2) = guarded-eq-ok _ _ _ h1 in
    let (_, _, h2') = bind-eq-ok _ _ h2 in
    let (fresh, h3) = guarded-eq-ok _ _ _ h2' in
    let c : RouterConfig = record {
      discriminator = config_discriminator;
      authority = authority;
      fee_recipient = fee_recipient;
      fee_bps = fee_bps;
      bump = bump;
      paused = 0;
      padding = zeros 4;
    } in
    let rate = ltb→le 1000 fee_bps low in
    let sized : WellSized c = record {
      discriminator_size = refl;
      authority_size = a32;
      recipient_size = r32;
      fee_size = omega (arith, rate);
      bump_size = small;
      paused_size = omega arith;
      padding_size = refl;
    } in
    let room = large-with_config c sized l account (ltb→le _ _ large) in
    let is = decode-with_config c sized l account in
    subst
      (λ (t : Ledger).
        (fee_bps ≤ max_fee_bps)
        × (read t account ≡ ok c)
        × ((other recipient : Bytes) (fee again : ℕ)
            → fee ≤ max_fee_bps
            → write_new account other recipient fee again t ≡ fail RouterError.already_initialized))
      (ok-injective h3)
      (
        rate,
        read_of (with_config l account c) account c room is (marked_new c refl),
        no_second (with_config l account c) account c room is (marked_new c refl),
      )
