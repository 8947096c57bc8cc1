-- ===== src/Program/State/Fields.antt =====
-- state.rs: the bytes of `RouterConfig` (`encode`), and that `decode` reads the record back from them.
use sol_trade_router_sdk.Base.{
  ℕ, ◌+◌, ◌<◌, ◌≡◌, ◌^◌, ◌++◌, arith, refl, ap, sym, ◌∙◌, length, take, drop, length-append,
  take-append_eq, drop-append_eq, drop-drop, append_assoc,
}
use sol_trade_router_sdk.Base.Bytes.{Bytes, slice}
use sol_trade_router_sdk.Base.Words.{
  to_le_bytes, from_le_bytes, length-to_le_bytes, from_le_bytes-to_le_bytes,
}
use sol_trade_router_sdk.Program.State.{RouterConfig, encode, decode}

-- The fields have the sizes of their Rust types.
pub record WellSized (c : RouterConfig) : Type 0 where
  pub discriminator_size : length c.discriminator ≡ 8
  pub authority_size : length c.authority ≡ 32
  pub recipient_size : length c.fee_recipient ≡ 32
  pub fee_size : c.fee_bps < 2 ^ 16
  pub bump_size : c.bump < 256
  pub paused_size : c.paused < 256
  pub padding_size : length c.padding ≡ 4

skip : (xs ys : Bytes) (k m n : ℕ) → k ≡ length xs → slice (xs ++ ys) (k + m) n ≡ slice ys m n
skip xs ys k m n is =
    let apart : drop (k + m) (xs ++ ys) ≡ drop m ys =
      sym (drop-drop m k (xs ++ ys)) ∙ ap (λ (t : Bytes). drop m t) (drop-append_eq k xs ys is) in
    ap (λ (t : Bytes). take n t) apart

here : (xs ys : Bytes) (n : ℕ) → n ≡ length xs → slice (xs ++ ys) 0 n ≡ xs
here xs ys n is = take-append_eq n xs ys is

-- The seven fields of the record, cut out of their concatenation.
module _ (d a r f b p g rest : Bytes) (d8 : 8 ≡ length d) (a32 : 32 ≡ length a)
    (r32 : 32 ≡ length r) (f2 : 2 ≡ length f) (b1 : 1 ≡ length b) (p1 : 1 ≡ length p)
    (g4 : 4 ≡ length g) where
  abbrev from_padding : Bytes
  from_padding = g ++ rest

  abbrev from_paused : Bytes
  from_paused = p ++ from_padding

  abbrev from_bump : Bytes
  from_bump = b ++ from_paused

  abbrev from_fee : Bytes
  from_fee = f ++ from_bump

  abbrev from_recipient : Bytes
  from_recipient = r ++ from_fee

  abbrev from_authority : Bytes
  from_authority = a ++ from_recipient

  behind_recipient :
      (m n : ℕ) → slice (d ++ from_authority) (8 + (32 + (32 + m))) n ≡ slice from_fee m n
  behind_recipient m n =
      skip d from_authority 8 (32 + (32 + m)) n d8
      ∙ skip a from_recipient 32 (32 + m) n a32
      ∙ skip r from_fee 32 m n r32

  cut_authority : slice (d ++ from_authority) 8 32 ≡ a
  cut_authority = skip d from_authority 8 0 32 d8 ∙ here a from_recipient 32 a32

  cut_recipient : slice (d ++ from_authority) 40 32 ≡ r
  cut_recipient =
      skip d from_authority 8 32 32 d8 ∙ skip a from_recipient 32 0 32 a32 ∙ here r from_fee 32 r32

  cut_fee : slice (d ++ from_authority) 72 2 ≡ f
  cut_fee = behind_recipient 0 2 ∙ here f from_bump 2 f2

  cut_bump : slice (d ++ from_authority) 74 1 ≡ b
  cut_bump = behind_recipient 2 1 ∙ skip f from_bump 2 0 1 f2 ∙ here b from_paused 1 b1

  cut_paused : slice (d ++ from_authority) 75 1 ≡ p
  cut_paused =
      behind_recipient 3 1
      ∙ skip f from_bump 2 1 1 f2
      ∙ skip b from_paused 1 0 1 b1
      ∙ here p from_padding 1 p1

  cut_padding : slice (d ++ from_authority) 76 4 ≡ g
  cut_padding =
      behind_recipient 4 4
      ∙ skip f from_bump 2 2 4 f2
      ∙ skip b from_paused 1 1 4 b1
      ∙ skip p from_padding 1 0 4 p1
      ∙ here g rest 4 g4

  decode_fields : decode (d ++ from_authority) ≡ record {
    discriminator = d;
    authority = a;
    fee_recipient = r;
    fee_bps = from_le_bytes f;
    bump = from_le_bytes b;
    paused = from_le_bytes p;
    padding = g;
  }
  unfolding decode
  decode_fields =
      rw
        (
          here d from_authority 8 d8,
          cut_authority,
          cut_recipient,
          cut_fee,
          cut_bump,
          cut_paused,
          cut_padding,
        )
        refl

module _ (c : RouterConfig) (sized : WellSized c) where
  -- The record is read back from its bytes, whatever follows them.
  pub decode-encode : (rest : Bytes) → decode (encode c ++ rest) ≡ c
  unfolding encode
  decode-encode rest =
      let bump_is = from_le_bytes-to_le_bytes 1 c.bump sized.bump_size in
      let paused_is = from_le_bytes-to_le_bytes 1 c.paused sized.paused_size in
      let fee_is = from_le_bytes-to_le_bytes 2 c.fee_bps sized.fee_size in
      rw
        (
          append_assoc c.discriminator _ rest,
          append_assoc c.authority _ rest,
          append_assoc c.fee_recipient _ rest,
          append_assoc (to_le_bytes 2 c.fee_bps) _ rest,
          append_assoc (to_le_bytes 1 c.bump) _ rest,
          append_assoc (to_le_bytes 1 c.paused) c.padding rest,
          decode_fields c.discriminator c.authority c.fee_recipient (to_le_bytes 2 c.fee_bps)
              (to_le_bytes 1 c.bump) (to_le_bytes 1 c.paused) c.padding rest
              (sym sized.discriminator_size) (sym sized.authority_size) (sym sized.recipient_size)
              (sym (length-to_le_bytes 2 c.fee_bps)) (sym (length-to_le_bytes 1 c.bump))
              (sym (length-to_le_bytes 1 c.paused)) (sym sized.padding_size),
          fee_is,
          bump_is,
          paused_is,
        )
        refl

  pub length-encode : length (encode c) ≡ 80
  unfolding encode
  length-encode =
      rw
        (
          length-append c.discriminator _,
          length-append c.authority _,
          length-append c.fee_recipient _,
          length-append (to_le_bytes 2 c.fee_bps) _,
          length-append (to_le_bytes 1 c.bump) _,
          length-append (to_le_bytes 1 c.paused) c.padding,
          length-to_le_bytes 2 c.fee_bps,
          length-to_le_bytes 1 c.bump,
          length-to_le_bytes 1 c.paused,
        )
        (omega (
          arith, sized.discriminator_size, sized.authority_size, sized.recipient_size,
          sized.padding_size,
        ))
