-- ===== src/Program/Route/NoPanic/Legs.antt =====
-- route.rs: the checks and the patch of a dynamic leg index within bounds.
use sol_trade_router_sdk.Base.{
  ℕ, zero, suc, ◌==◌, ap, ◌∙◌, ◌+◌, ◌≤◌, ◌<◌, ◌≡◌, Bool, false, Option, none, some, List, length,
  any, ltb→le, le→leb, arith,
}
use sol_trade_router_sdk.Base.Bytes.{Bytes}
use sol_trade_router_sdk.Base.Words.{max_u64, checked_to-eq-some}
use sol_trade_router_sdk.Program.Error.{
  ok, ok_or-eq-ok, reject_if-eq-ok, or_else-eq-false, ok-injective,
}
use sol_trade_router_sdk.Program.Ledger.{AccountView, Ledger}
use sol_trade_router_sdk.Program.Calm.{
  Calm, Calm-ok, Calm-if, Calm-get_elem?, Calm-get_range, Calm-bind, Calm-reject, Calm-or_else,
  Calm-ok_or, calm_rules,
}
use sol_trade_router_sdk.Program.Route.Layout.{DynamicSecondLeg, dynamic_second_leg, no_account}
use sol_trade_router_sdk.Program.Route.Layout.Total.{second_leg}
use sol_trade_router_sdk.Program.Route.Layout.InBounds.{dynamic_second_leg-total}
use sol_trade_router_sdk.Program.Route.Fits.{Fits, dynamic_second_leg-Fits}
use sol_trade_router_sdk.Program.Route.Patch.{patch_lem}
use sol_trade_router_sdk.Program.Route.Checks.{
  has_address, mismatch, lacks, out_of_range, required, pool_mismatch, validate_dynamic_accounts,
  patch_second_leg_amount,
}
use sol_trade_router_sdk.Program.Route.Input.{Header, Accounts}
use sol_trade_router_sdk.Program.Route.Legs.{
  Leg, LoopState, Route, intermediate_before, parse_leg, leg_accounts, dynamic_data, first_data,
  invoke_data, quote_after, run_leg, run_legs,
}
use sol_trade_router_sdk.Program.Route.NoPanic.{readers, received_quote-Calm}

module _ (accounts : List AccountView) where
  has_address-Calm : (i : ℕ) (a : Bytes) → i < length accounts → Calm (has_address accounts i a)
  unfolding has_address
  has_address-Calm i a h = search (calm_rules, Calm-get_elem? accounts i h)

  lacks-Calm :
      (i : ℕ) (a : Bytes) (flag : AccountView → Bool)
      → i < length accounts
      → Calm (lacks accounts i a flag)
  unfolding lacks
  lacks-Calm i a flag h = search (calm_rules, Calm-get_elem? accounts i h)

  mismatch-Calm :
      (i : ℕ) (a : Bytes) → out_of_range accounts i ≡ false → Calm (mismatch accounts i a)
  unfolding mismatch
  mismatch-Calm i a h =
      Calm-if _ _ _ (λ _. Calm-ok false)
        λ (e : (i == no_account) ≡ false).
          Calm-bind _ _ (has_address-Calm i a (ground arith)) λ _ _. Calm-ok _

  -- Every index of the layout passed the bounds test.
  abbrev Covered : DynamicSecondLeg → Type 0
  Covered layout =
      (out_of_range accounts layout.input_account ≡ false)
      × (out_of_range accounts layout.output_account ≡ false)
      × (out_of_range accounts layout.signer ≡ false)
      × (out_of_range accounts layout.input_mint ≡ false)
      × (out_of_range accounts layout.input_program ≡ false)
      × (out_of_range accounts layout.output_mint ≡ false)
      × (out_of_range accounts layout.output_program ≡ false)

  covered :
      (layout : DynamicSecondLeg)
      → any (out_of_range accounts) (required layout) ≡ false
      → Covered layout
  covered layout h = ground arith

  named : (i : ℕ) → out_of_range accounts i ≡ false → i ≤ 12 → i < length accounts
  named i h k = ground arith

  pool_mismatch-Calm :
      (layout : DynamicSecondLeg) (d : Bytes) (l : Ledger) (input output : AccountView)
      (im om : Bytes)
      → Fits layout d
      → Covered layout
      → Calm (pool_mismatch layout accounts l input output im om)
  unfolding pool_mismatch
  pool_mismatch-Calm layout d l input output im om fits c =
      Calm-if _ _ _
        (λ paired.
          let (mi, mo, pi, po) = fits.mints_named paired in
          let ai = named layout.input_mint c.3 mi in
          let ao = named layout.output_mint c.5 mo in
          let bi = named layout.input_program c.4 pi in
          let bo = named layout.output_program c.6 po in
          search
            (
              calm_rules,
              λ (a : Bytes). has_address-Calm layout.input_mint a ai,
              λ (a : Bytes). has_address-Calm layout.output_mint a ao,
              λ (a : Bytes). has_address-Calm layout.input_program a bi,
              λ (a : Bytes). has_address-Calm layout.output_program a bo,
            )
            depth 8)
        (λ _. search (calm_rules, mismatch-Calm) depth 8)

  pub validate_dynamic_accounts-Calm :
      (layout : DynamicSecondLeg) (d : Bytes) (l : Ledger) (user input output : AccountView)
      → Fits layout d
      → Calm (validate_dynamic_accounts layout accounts l user input output)
  unfolding validate_dynamic_accounts
  validate_dynamic_accounts-Calm layout d l user input output fits =
      Calm-bind _ _
        (Calm-or_else _ _ (Calm-ok _) λ inside.
          let c = covered layout (ok-injective inside) in
          let si = named layout.signer c.2 (omega arith) in
          let ii = named layout.input_account c.0 (omega arith) in
          let oi = named layout.output_account c.1 (omega arith) in
          search (
            calm_rules,
            lacks-Calm layout.signer user.address (λ v. v.is_signer) si,
            lacks-Calm layout.input_account input.address (λ v. v.is_writable) ii,
            lacks-Calm layout.output_account output.address (λ v. v.is_writable) oi,
          ))
        λ wrong tested. Calm-bind _ _ (Calm-reject _ _) λ _ passed.
          let right : wrong ≡ false = reject_if-eq-ok _ _ passed in
          let inside = (or_else-eq-false _ _ (tested ∙ ap ok right)).0 in
          let c = covered layout (ok-injective inside) in
          search
            (readers, λ (im om : Bytes). pool_mismatch-Calm layout d l input output im om fits c)
            depth 8

pub intermediate_before-Calm :
    (a : Accounts) (v first : Option AccountView) (l : Ledger)
    → Calm (intermediate_before a v first l)
unfolding intermediate_before
intermediate_before-Calm a none first l = search readers
intermediate_before-Calm a (some v) first l = search readers depth 12

parse_leg-Calm : (d : Bytes) (cursor : ℕ) → Calm (parse_leg d cursor)
unfolding parse_leg
parse_leg-Calm d cursor = search readers depth 12

leg_accounts-Calm : (remaining : List AccountView) (i n : ℕ) → Calm (leg_accounts remaining i n)
unfolding leg_accounts
leg_accounts-Calm remaining i n = Calm-bind _ _ (Calm-ok_or _ _) λ end computed.
    Calm-bind _ _ (Calm-reject _ _) λ _ passed.
      let (_, is) = checked_to-eq-some max_u64 (i + n) (ok_or-eq-ok _ _ computed) in
      let inside = ltb→le (length remaining) end (reject_if-eq-ok _ _ passed) in
      rw (le→leb i end (omega (arith, is)), le→leb end (length remaining) inside)
        (search calm_rules)

patch-Calm :
    (layout : DynamicSecondLeg) (d : Bytes) (amount : ℕ)
    → Fits layout d
    → Calm (patch_second_leg_amount d amount layout.amount_offset)
patch-Calm layout d amount fits =
    rw (patch_lem d amount layout.amount_offset fits.amount_inside fits.data_short) (Calm-ok _)

dynamic_second_leg-Calm : (p d : Bytes) → Calm (dynamic_second_leg p d)
unfolding second_leg
dynamic_second_leg-Calm p d = rw (dynamic_second_leg-total p d) (search readers depth 24)

dynamic_data-Calm :
    (a : Accounts) (leg : Leg) (accounts : List AccountView) (i o : Option AccountView)
    (refuse zero_amount : Bool) (q : ℕ) (l : Ledger)
    → Calm (dynamic_data a leg accounts i o refuse zero_amount q l)
unfolding dynamic_data
dynamic_data-Calm a leg accounts i o refuse zero_amount q l =
    Calm-bind _ _ (Calm-ok_or i _) λ input _. Calm-bind _ _ (Calm-ok_or o _) λ output _.
      Calm-bind _ _ (Calm-reject _ _) λ _ _.
        Calm-bind _ _ (dynamic_second_leg-Calm leg.program_id leg.payload) λ layout accepted.
          let fits = dynamic_second_leg-Fits leg.program_id leg.payload layout accepted in
          let field =
            Calm-get_range leg.payload layout.amount_offset (layout.amount_offset + 8) (omega arith)
              fits.amount_inside in
          Calm-bind _ _
            (Calm-if zero_amount _ _ (λ _. Calm-bind _ _ field λ _ _. Calm-ok _) λ _. Calm-ok false)
            λ _ _. Calm-bind _ _ (Calm-reject _ _) λ _ _.
              Calm-bind _ _
                (validate_dynamic_accounts-Calm accounts layout leg.payload l a.user input output
                  fits)
                λ _ _. patch-Calm layout leg.payload q fits

first_data-Calm :
    (a : Accounts) (leg : Leg) (accounts : List AccountView) (n : ℕ)
    → Calm (first_data a leg accounts n)
unfolding first_data
first_data-Calm a leg accounts n = search readers

invoke_data-Calm :
    (a : Accounts) (h : Header) (n i : ℕ) (leg : Leg) (accounts : List AccountView) (q : ℕ)
    (l : Ledger)
    → Calm (invoke_data a h n i leg accounts q l)
unfolding invoke_data
invoke_data-Calm a h n i leg accounts q l =
    search (readers, dynamic_data-Calm, first_data-Calm) depth 12

quote_after-Calm :
    (a : Accounts) (h : Header) (n i qb sb q : ℕ) (l : Ledger)
    → Calm (quote_after a h n i qb sb q l)
unfolding quote_after
quote_after-Calm a h n i qb sb q l = search (readers, received_quote-Calm) depth 12

run_leg-Calm : (r : Route) (i : ℕ) (s : LoopState) → Calm (run_leg r i s)
unfolding run_leg
run_leg-Calm r i s =
    search (readers, parse_leg-Calm, leg_accounts-Calm, invoke_data-Calm, quote_after-Calm) depth 12

pub run_legs-Calm : (r : Route) (left i : ℕ) (s : LoopState) → Calm (run_legs r left i s)
unfolding run_legs
run_legs-Calm r zero i s = Calm-ok s
run_legs-Calm r (suc left) i s =
    Calm-bind _ _ (run_leg-Calm r i s) λ s' _. run_legs-Calm r left (i + 1) s'
