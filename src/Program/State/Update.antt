-- ===== src/Program/State/Update.antt =====
-- state.rs: `RouterConfig::update` changes the fields it is given and no other.
use sol_trade_router_sdk.Base.{
  ℕ, suc, zero, ◌≤◌, ◌<◌, ◌≡◌, ◌^◌, Bool, true, false, [], ◌∷◌, arith, refl, ap, sym, ◌∙◌, subst,
  length, take, drop, ltb→le, not-eq-false, none-ne-some, Option, none, some,
}
use sol_trade_router_sdk.Base.Bytes.{Bytes, bytes_eq→eq, slice, length-slice}
use sol_trade_router_sdk.Base.Words.{from_le_bytes}
use sol_trade_router_sdk.Program.Error.{ok, bind-eq-ok, guarded-eq-ok, ok-injective}
use sol_trade_router_sdk.Program.Ledger.{AccountView, Ledger, contents}
use sol_trade_router_sdk.Program.State.{
  RouterConfig, config_discriminator, max_fee_bps, decode, is_initialized, read, with_config,
  update, set_recipient, set_fee_bps, set_paused, from_bool,
}
use sol_trade_router_sdk.Program.State.Fields.{WellSized}
use sol_trade_router_sdk.Program.State.RoundTrip.{
  at_start-ok, read_of, marked_new, large-with_config, decode-with_config,
}

-- Every element is a byte, as in the data of an account.
abbrev pub AreBytes : Bytes → Type 0
AreBytes [] = Unit
AreBytes (b ∷ bs) = (b < 256) × AreBytes bs

take-AreBytes : (n : ℕ) (d : Bytes) → AreBytes d → AreBytes (take n d)
take-AreBytes zero d h = tt
take-AreBytes (suc n) [] h = tt
take-AreBytes (suc n) (b ∷ bs) h = (h.0, take-AreBytes n bs h.1)

drop-AreBytes : (n : ℕ) (d : Bytes) → AreBytes d → AreBytes (drop n d)
drop-AreBytes zero d h = h
drop-AreBytes (suc n) [] h = tt
drop-AreBytes (suc n) (b ∷ bs) h = drop-AreBytes n bs h.1

one_byte : (d : Bytes) → AreBytes d → length d ≡ 1 → from_le_bytes d < 256
unfolding from_le_bytes
one_byte [] h is = absurd (omega (arith, is))
one_byte (b ∷ []) h is = omega (arith, h.0)
one_byte (b ∷ c ∷ d) h is = absurd (omega (arith, is))

two_bytes : (d : Bytes) → AreBytes d → length d ≡ 2 → from_le_bytes d < 2 ^ 16
unfolding from_le_bytes
two_bytes [] h is = absurd (omega (arith, is))
two_bytes (b ∷ []) h is = absurd (omega (arith, is))
two_bytes (b ∷ c ∷ []) h is = omega (arith, h.0, h.1.0)
two_bytes (b ∷ c ∷ e ∷ d) h is = absurd (omega (arith, is))

slice-AreBytes : (d : Bytes) (i n : ℕ) → AreBytes d → AreBytes (slice d i n)
slice-AreBytes d i n h = take-AreBytes n (drop i d) (drop-AreBytes i d h)

decode-WellSized : (d : Bytes) → AreBytes d → 80 ≤ length d → WellSized (decode d)
unfolding decode
decode-WellSized d bytes large = record {
  discriminator_size = length-slice d 0 8 (omega arith);
  authority_size = length-slice d 8 32 (omega arith);
  recipient_size = length-slice d 40 32 (omega arith);
  fee_size =
      two_bytes (slice d 72 2) (slice-AreBytes d 72 2 bytes) (length-slice d 72 2 (omega arith));
  bump_size =
      one_byte (slice d 74 1) (slice-AreBytes d 74 1 bytes) (length-slice d 74 1 (omega arith));
  paused_size =
      one_byte (slice d 75 1) (slice-AreBytes d 75 1 bytes) (length-slice d 75 1 (omega arith));
  padding_size = length-slice d 76 4 (omega arith);
}

-- The recipient that is given is an address of 32 bytes.
abbrev pub IsAddress : Option Bytes → Type 0
IsAddress none = Unit
IsAddress (some recipient) = length recipient ≡ 32

bool_small : (b : Bool) → from_bool b < 256
bool_small true = omega arith
bool_small false = omega arith

abbrev updated : Option Bytes → ℕ → Bool → RouterConfig → RouterConfig
updated recipient bps paused c =
    set_paused (some paused) (set_fee_bps (some bps) (set_recipient recipient c))

updated-WellSized :
    (recipient : Option Bytes) (bps : ℕ) (paused : Bool) (c : RouterConfig)
    → IsAddress recipient
    → bps ≤ max_fee_bps
    → WellSized c
    → WellSized (updated recipient bps paused c)
updated-WellSized none bps paused c address low sized = record {
  discriminator_size = sized.discriminator_size;
  authority_size = sized.authority_size;
  recipient_size = sized.recipient_size;
  fee_size = omega (arith, low);
  bump_size = sized.bump_size;
  paused_size = bool_small paused;
  padding_size = sized.padding_size;
}
updated-WellSized (some recipient) bps paused c address low sized = record {
  discriminator_size = sized.discriminator_size;
  authority_size = sized.authority_size;
  recipient_size = address;
  fee_size = omega (arith, low);
  bump_size = sized.bump_size;
  paused_size = bool_small paused;
  padding_size = sized.padding_size;
}

-- What the fields of the config are after the update.
pub record Updates (recipient : Option Bytes) (bps : ℕ) (paused : Bool) (old new : RouterConfig)
    : Type 0 where
  pub same_authority : new.authority ≡ old.authority
  pub same_bump : new.bump ≡ old.bump
  pub new_rate : new.fee_bps ≡ bps
  pub rate_capped : bps ≤ max_fee_bps
  pub new_pause : new.paused ≡ from_bool paused
  pub kept_recipient : recipient ≡ none → new.fee_recipient ≡ old.fee_recipient
  pub new_recipient : (address : Bytes) → recipient ≡ some address → new.fee_recipient ≡ address

updated-Updates :
    (recipient : Option Bytes) (bps : ℕ) (paused : Bool) (c : RouterConfig)
    → bps ≤ max_fee_bps
    → Updates recipient bps paused c (updated recipient bps paused c)
updated-Updates none bps paused c low = record {
  same_authority = refl;
  same_bump = refl;
  new_rate = refl;
  rate_capped = low;
  new_pause = refl;
  kept_recipient = λ h. refl;
  new_recipient = λ address h. absurd (none-ne-some address h);
}
updated-Updates (some recipient) bps paused c low = record {
  same_authority = refl;
  same_bump = refl;
  new_rate = refl;
  rate_capped = low;
  new_pause = refl;
  kept_recipient = λ h. absurd (none-ne-some recipient (sym h));
  new_recipient =
      λ address h. ap (λ (o : Option Bytes). elim o [ none ↦ recipient | some r ↦ r ]) h;
}

updated_mark :
    (recipient : Option Bytes) (bps : ℕ) (paused : Bool) (c : RouterConfig)
    → (updated recipient bps paused c).discriminator ≡ c.discriminator
updated_mark none bps paused c = refl
updated_mark (some recipient) bps paused c = refl

marked_discriminator :
    (c : RouterConfig) → is_initialized c ≡ true → c.discriminator ≡ config_discriminator
unfolding is_initialized
marked_discriminator c h = bytes_eq→eq c.discriminator config_discriminator h

-- What the program reads from the account before and after.
abbrev pub UpdateRead : Option Bytes → ℕ → Bool → AccountView → Ledger → Ledger → Type 0
UpdateRead recipient bps paused account l after =
    (old new : RouterConfig) × (read l account ≡ ok old)
    × (read after account ≡ ok new)
    × Updates recipient bps paused old new

-- Where the account's data are bytes and a recipient that is given has 32 of them, an update that
-- returned left a config that is read with the given rate, at most 1,000 bps, the given pause, the
-- given recipient if there is one, and the authority and the bump as they were.
pub update-UpdateRead :
    (l after : Ledger) (account : AccountView) (recipient : Option Bytes) (bps : ℕ) (paused : Bool)
    → AreBytes (contents l account)
    → IsAddress recipient
    → update account recipient (some bps) (some paused) l ≡ ok after
    → UpdateRead recipient bps paused account l after
unfolding update
update-UpdateRead l after account recipient bps paused bytes address h =
    let (low, h1) = guarded-eq-ok _ _ _ h in
    let (large, h2) = guarded-eq-ok _ _ _ h1 in
    let (old, found, h2') = bind-eq-ok _ _ h2 in
    let (marked, h3) = guarded-eq-ok _ _ _ h2' in
    let is : decode (contents l account) ≡ old =
      ok-injective (sym (at_start-ok (contents l account) large) ∙ found) in
    let new = updated recipient bps paused old in
    let rate = ltb→le 1000 bps low in
    let init = not-eq-false _ marked in
    let size = ltb→le _ _ large in
    let sized =
      updated-WellSized recipient bps paused old address rate
        (subst WellSized is (decode-WellSized (contents l account) bytes size)) in
    (
      old,
      new,
      read_of l account old large is init,
      subst (λ (t : Ledger). read t account ≡ ok new) (ok-injective h3)
          (read_of (with_config l account new) account new
            (large-with_config new sized l account size) (decode-with_config new sized l account)
            (marked_new new
              (updated_mark recipient bps paused old ∙ marked_discriminator old init))),
      updated-Updates recipient bps paused old rate,
    )
