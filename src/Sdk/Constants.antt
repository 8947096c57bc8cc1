-- ===== src/Sdk/Constants.antt =====
-- crates/sdk/src/constants.rs: the addresses, spelled out in bytes, and the instruction tags.
use sol_trade_router_sdk.Base.{ℕ, false, [], ◌∷◌}
use sol_trade_router_sdk.Base.Bytes.{Bytes}
use sol_trade_router_sdk.Sdk.Keys.{AccountMeta, new_readonly}

abbrev pub program_id : Bytes
program_id =
    174 ∷ 206 ∷ 35 ∷ 138 ∷ 25 ∷ 11 ∷ 84 ∷ 25 ∷ 31 ∷ 17 ∷ 149 ∷ 46 ∷ 98 ∷ 120 ∷ 161 ∷ 37 ∷ 192 ∷ 2
    ∷ 11 ∷ 208 ∷ 129 ∷ 76 ∷ 197 ∷ 163 ∷ 142 ∷ 113 ∷ 254 ∷ 43 ∷ 165 ∷ 79 ∷ 169 ∷ 91 ∷ []

abbrev pub wsol_mint : Bytes
wsol_mint =
    6 ∷ 155 ∷ 136 ∷ 87 ∷ 254 ∷ 171 ∷ 129 ∷ 132 ∷ 251 ∷ 104 ∷ 127 ∷ 99 ∷ 70 ∷ 24 ∷ 192 ∷ 53 ∷ 218
    ∷ 196 ∷ 57 ∷ 220 ∷ 26 ∷ 235 ∷ 59 ∷ 85 ∷ 152 ∷ 160 ∷ 240 ∷ 0 ∷ 0 ∷ 0 ∷ 0 ∷ 1 ∷ []

abbrev pub usdc_mint : Bytes
usdc_mint =
    198 ∷ 250 ∷ 122 ∷ 243 ∷ 190 ∷ 219 ∷ 173 ∷ 58 ∷ 61 ∷ 101 ∷ 243 ∷ 106 ∷ 171 ∷ 201 ∷ 116 ∷ 49 ∷ 177
    ∷ 187 ∷ 228 ∷ 194 ∷ 210 ∷ 246 ∷ 224 ∷ 228 ∷ 124 ∷ 166 ∷ 2 ∷ 3 ∷ 69 ∷ 47 ∷ 93 ∷ 97 ∷ []

abbrev pub usdt_mint : Bytes
usdt_mint =
    206 ∷ 1 ∷ 14 ∷ 96 ∷ 175 ∷ 237 ∷ 178 ∷ 39 ∷ 23 ∷ 189 ∷ 99 ∷ 25 ∷ 47 ∷ 84 ∷ 20 ∷ 90 ∷ 63 ∷ 150
    ∷ 90 ∷ 51 ∷ 187 ∷ 130 ∷ 210 ∷ 199 ∷ 2 ∷ 158 ∷ 178 ∷ 206 ∷ 30 ∷ 32 ∷ 130 ∷ 100 ∷ []

abbrev pub token_program : Bytes
token_program =
    6 ∷ 221 ∷ 246 ∷ 225 ∷ 215 ∷ 101 ∷ 161 ∷ 147 ∷ 217 ∷ 203 ∷ 225 ∷ 70 ∷ 206 ∷ 235 ∷ 121 ∷ 172 ∷ 28
    ∷ 180 ∷ 133 ∷ 237 ∷ 95 ∷ 91 ∷ 55 ∷ 145 ∷ 58 ∷ 140 ∷ 245 ∷ 133 ∷ 126 ∷ 255 ∷ 0 ∷ 169 ∷ []

abbrev pub token_2022_program : Bytes
token_2022_program =
    6 ∷ 221 ∷ 246 ∷ 225 ∷ 238 ∷ 117 ∷ 143 ∷ 222 ∷ 24 ∷ 66 ∷ 93 ∷ 188 ∷ 228 ∷ 108 ∷ 205 ∷ 218 ∷ 182
    ∷ 26 ∷ 252 ∷ 77 ∷ 131 ∷ 185 ∷ 13 ∷ 39 ∷ 254 ∷ 189 ∷ 249 ∷ 40 ∷ 216 ∷ 161 ∷ 139 ∷ 252 ∷ []

abbrev pub system_program : Bytes
system_program =
    0 ∷ 0 ∷ 0 ∷ 0 ∷ 0 ∷ 0 ∷ 0 ∷ 0 ∷ 0 ∷ 0 ∷ 0 ∷ 0 ∷ 0 ∷ 0 ∷ 0 ∷ 0 ∷ 0 ∷ 0 ∷ 0 ∷ 0 ∷ 0 ∷ 0 ∷ 0 ∷ 0
    ∷ 0 ∷ 0 ∷ 0 ∷ 0 ∷ 0 ∷ 0 ∷ 0 ∷ 0 ∷ []

abbrev pub associated_token_program : Bytes
associated_token_program =
    140 ∷ 151 ∷ 37 ∷ 143 ∷ 78 ∷ 36 ∷ 137 ∷ 241 ∷ 187 ∷ 61 ∷ 16 ∷ 41 ∷ 20 ∷ 142 ∷ 13 ∷ 131 ∷ 11 ∷ 90
    ∷ 19 ∷ 153 ∷ 218 ∷ 255 ∷ 16 ∷ 132 ∷ 4 ∷ 142 ∷ 123 ∷ 216 ∷ 219 ∷ 233 ∷ 248 ∷ 89 ∷ []

abbrev pub launchlab_program : Bytes
launchlab_program =
    5 ∷ 4 ∷ 59 ∷ 149 ∷ 77 ∷ 202 ∷ 38 ∷ 225 ∷ 239 ∷ 145 ∷ 181 ∷ 44 ∷ 79 ∷ 143 ∷ 137 ∷ 175 ∷ 138 ∷ 111
    ∷ 90 ∷ 200 ∷ 198 ∷ 33 ∷ 86 ∷ 241 ∷ 113 ∷ 207 ∷ 15 ∷ 33 ∷ 172 ∷ 81 ∷ 201 ∷ 34 ∷ []

abbrev pub launchlab_authority : Bytes
launchlab_authority =
    7 ∷ 131 ∷ 168 ∷ 21 ∷ 38 ∷ 33 ∷ 15 ∷ 148 ∷ 160 ∷ 232 ∷ 232 ∷ 77 ∷ 32 ∷ 135 ∷ 0 ∷ 59 ∷ 58 ∷ 66
    ∷ 96 ∷ 210 ∷ 156 ∷ 231 ∷ 157 ∷ 172 ∷ 254 ∷ 33 ∷ 164 ∷ 234 ∷ 119 ∷ 31 ∷ 166 ∷ 40 ∷ []

abbrev pub launchlab_event_authority : Bytes
launchlab_event_authority =
    18 ∷ 7 ∷ 185 ∷ 155 ∷ 53 ∷ 221 ∷ 226 ∷ 142 ∷ 75 ∷ 158 ∷ 222 ∷ 233 ∷ 126 ∷ 73 ∷ 215 ∷ 99 ∷ 151
    ∷ 181 ∷ 164 ∷ 160 ∷ 201 ∷ 63 ∷ 175 ∷ 210 ∷ 116 ∷ 199 ∷ 134 ∷ 160 ∷ 6 ∷ 142 ∷ 221 ∷ 111 ∷ []

abbrev pub stonkfun_standard_platform_config : Bytes
stonkfun_standard_platform_config =
    47 ∷ 239 ∷ 165 ∷ 40 ∷ 201 ∷ 111 ∷ 63 ∷ 145 ∷ 35 ∷ 191 ∷ 93 ∷ 52 ∷ 33 ∷ 26 ∷ 215 ∷ 15 ∷ 178 ∷ 27
    ∷ 99 ∷ 178 ∷ 64 ∷ 51 ∷ 18 ∷ 97 ∷ 96 ∷ 83 ∷ 217 ∷ 175 ∷ 125 ∷ 72 ∷ 77 ∷ 220 ∷ []

abbrev pub stonkfun_reward_platform_config : Bytes
stonkfun_reward_platform_config =
    77 ∷ 23 ∷ 158 ∷ 58 ∷ 238 ∷ 226 ∷ 29 ∷ 241 ∷ 63 ∷ 161 ∷ 14 ∷ 65 ∷ 7 ∷ 44 ∷ 216 ∷ 155 ∷ 93 ∷ 163
    ∷ 211 ∷ 229 ∷ 138 ∷ 85 ∷ 221 ∷ 46 ∷ 210 ∷ 185 ∷ 209 ∷ 248 ∷ 6 ∷ 214 ∷ 250 ∷ 177 ∷ []

abbrev pub raydium_cpmm_program : Bytes
raydium_cpmm_program =
    169 ∷ 42 ∷ 90 ∷ 139 ∷ 79 ∷ 41 ∷ 89 ∷ 82 ∷ 132 ∷ 37 ∷ 80 ∷ 170 ∷ 147 ∷ 253 ∷ 91 ∷ 149 ∷ 181 ∷ 172
    ∷ 230 ∷ 168 ∷ 235 ∷ 146 ∷ 12 ∷ 147 ∷ 148 ∷ 46 ∷ 67 ∷ 105 ∷ 12 ∷ 32 ∷ 236 ∷ 115 ∷ []

abbrev pub raydium_cpmm_authority : Bytes
raydium_cpmm_authority =
    235 ∷ 0 ∷ 217 ∷ 245 ∷ 178 ∷ 146 ∷ 180 ∷ 33 ∷ 74 ∷ 199 ∷ 208 ∷ 55 ∷ 180 ∷ 214 ∷ 240 ∷ 100 ∷ 80
    ∷ 185 ∷ 100 ∷ 96 ∷ 13 ∷ 243 ∷ 115 ∷ 5 ∷ 43 ∷ 181 ∷ 232 ∷ 79 ∷ 47 ∷ 142 ∷ 154 ∷ 103 ∷ []

abbrev pub pumpfun_program : Bytes
pumpfun_program =
    1 ∷ 86 ∷ 224 ∷ 246 ∷ 147 ∷ 102 ∷ 90 ∷ 207 ∷ 68 ∷ 219 ∷ 21 ∷ 104 ∷ 191 ∷ 23 ∷ 91 ∷ 170 ∷ 81 ∷ 137
    ∷ 203 ∷ 151 ∷ 245 ∷ 210 ∷ 255 ∷ 59 ∷ 101 ∷ 93 ∷ 43 ∷ 182 ∷ 253 ∷ 109 ∷ 24 ∷ 176 ∷ []

abbrev pub pumpfun_global : Bytes
pumpfun_global =
    58 ∷ 134 ∷ 94 ∷ 105 ∷ 238 ∷ 15 ∷ 84 ∷ 128 ∷ 202 ∷ 188 ∷ 246 ∷ 99 ∷ 87 ∷ 228 ∷ 220 ∷ 47 ∷ 24
    ∷ 213 ∷ 141 ∷ 69 ∷ 193 ∷ 234 ∷ 116 ∷ 137 ∷ 251 ∷ 55 ∷ 35 ∷ 217 ∷ 121 ∷ 60 ∷ 114 ∷ 166 ∷ []

abbrev pub pumpfun_event_authority : Bytes
pumpfun_event_authority =
    172 ∷ 241 ∷ 54 ∷ 235 ∷ 1 ∷ 252 ∷ 28 ∷ 78 ∷ 136 ∷ 61 ∷ 35 ∷ 200 ∷ 181 ∷ 132 ∷ 74 ∷ 181 ∷ 154 ∷ 55
    ∷ 246 ∷ 106 ∷ 221 ∷ 87 ∷ 197 ∷ 233 ∷ 172 ∷ 59 ∷ 83 ∷ 224 ∷ 89 ∷ 211 ∷ 92 ∷ 100 ∷ []

abbrev pub pumpfun_fee_program : Bytes
pumpfun_fee_program =
    12 ∷ 53 ∷ 255 ∷ 169 ∷ 5 ∷ 90 ∷ 142 ∷ 86 ∷ 141 ∷ 168 ∷ 247 ∷ 188 ∷ 7 ∷ 86 ∷ 21 ∷ 39 ∷ 76 ∷ 241
    ∷ 201 ∷ 44 ∷ 164 ∷ 31 ∷ 64 ∷ 0 ∷ 156 ∷ 81 ∷ 106 ∷ 164 ∷ 20 ∷ 194 ∷ 124 ∷ 112 ∷ []

abbrev pub pumpfun_global_volume_accumulator : Bytes
pumpfun_global_volume_accumulator =
    250 ∷ 9 ∷ 17 ∷ 165 ∷ 72 ∷ 99 ∷ 65 ∷ 45 ∷ 99 ∷ 31 ∷ 78 ∷ 7 ∷ 135 ∷ 3 ∷ 41 ∷ 108 ∷ 3 ∷ 95 ∷ 13
    ∷ 19 ∷ 51 ∷ 160 ∷ 217 ∷ 200 ∷ 131 ∷ 141 ∷ 115 ∷ 183 ∷ 16 ∷ 254 ∷ 110 ∷ 45 ∷ []

abbrev pub pumpfun_fee_config : Bytes
pumpfun_fee_config =
    111 ∷ 154 ∷ 180 ∷ 164 ∷ 241 ∷ 149 ∷ 141 ∷ 192 ∷ 169 ∷ 201 ∷ 76 ∷ 63 ∷ 183 ∷ 44 ∷ 7 ∷ 153 ∷ 88
    ∷ 67 ∷ 237 ∷ 164 ∷ 133 ∷ 227 ∷ 162 ∷ 79 ∷ 16 ∷ 198 ∷ 147 ∷ 153 ∷ 248 ∷ 25 ∷ 148 ∷ 15 ∷ []

abbrev pub pumpswap_program : Bytes
pumpswap_program =
    12 ∷ 20 ∷ 222 ∷ 252 ∷ 130 ∷ 94 ∷ 198 ∷ 118 ∷ 148 ∷ 37 ∷ 8 ∷ 24 ∷ 187 ∷ 101 ∷ 64 ∷ 101 ∷ 244 ∷ 41
    ∷ 141 ∷ 49 ∷ 86 ∷ 213 ∷ 113 ∷ 180 ∷ 212 ∷ 248 ∷ 9 ∷ 12 ∷ 24 ∷ 233 ∷ 168 ∷ 99 ∷ []

abbrev pub pumpswap_global : Bytes
pumpswap_global =
    137 ∷ 11 ∷ 166 ∷ 68 ∷ 254 ∷ 31 ∷ 85 ∷ 170 ∷ 25 ∷ 241 ∷ 28 ∷ 210 ∷ 210 ∷ 236 ∷ 20 ∷ 211 ∷ 35 ∷ 59
    ∷ 110 ∷ 10 ∷ 75 ∷ 234 ∷ 238 ∷ 247 ∷ 43 ∷ 105 ∷ 133 ∷ 142 ∷ 33 ∷ 225 ∷ 112 ∷ 214 ∷ []

abbrev pub pumpswap_event_authority : Bytes
pumpswap_event_authority =
    229 ∷ 74 ∷ 112 ∷ 149 ∷ 40 ∷ 131 ∷ 159 ∷ 97 ∷ 192 ∷ 185 ∷ 184 ∷ 96 ∷ 121 ∷ 137 ∷ 28 ∷ 19 ∷ 146
    ∷ 22 ∷ 228 ∷ 122 ∷ 113 ∷ 182 ∷ 47 ∷ 183 ∷ 59 ∷ 236 ∷ 114 ∷ 22 ∷ 148 ∷ 88 ∷ 116 ∷ 94 ∷ []

abbrev pub pumpswap_protocol_fee_recipient : Bytes
pumpswap_protocol_fee_recipient =
    74 ∷ 194 ∷ 248 ∷ 208 ∷ 221 ∷ 92 ∷ 188 ∷ 151 ∷ 227 ∷ 40 ∷ 156 ∷ 25 ∷ 124 ∷ 181 ∷ 6 ∷ 42 ∷ 84
    ∷ 243 ∷ 217 ∷ 86 ∷ 185 ∷ 206 ∷ 110 ∷ 81 ∷ 21 ∷ 249 ∷ 101 ∷ 103 ∷ 170 ∷ 92 ∷ 179 ∷ 230 ∷ []

abbrev pub pumpswap_buyback_fee_recipient : Bytes
pumpswap_buyback_fee_recipient =
    67 ∷ 158 ∷ 101 ∷ 16 ∷ 192 ∷ 61 ∷ 101 ∷ 250 ∷ 217 ∷ 49 ∷ 232 ∷ 157 ∷ 4 ∷ 190 ∷ 11 ∷ 183 ∷ 13 ∷ 81
    ∷ 151 ∷ 31 ∷ 81 ∷ 196 ∷ 21 ∷ 251 ∷ 52 ∷ 76 ∷ 7 ∷ 219 ∷ 65 ∷ 159 ∷ 33 ∷ 34 ∷ []

abbrev pub pump_mayhem_fee_recipient : Bytes
pump_mayhem_fee_recipient =
    232 ∷ 147 ∷ 20 ∷ 31 ∷ 177 ∷ 142 ∷ 159 ∷ 21 ∷ 116 ∷ 216 ∷ 16 ∷ 225 ∷ 120 ∷ 225 ∷ 158 ∷ 48 ∷ 96
    ∷ 78 ∷ 49 ∷ 117 ∷ 170 ∷ 46 ∷ 74 ∷ 50 ∷ 223 ∷ 200 ∷ 96 ∷ 7 ∷ 39 ∷ 209 ∷ 7 ∷ 9 ∷ []

abbrev pub pumpswap_global_volume_accumulator : Bytes
pumpswap_global_volume_accumulator =
    163 ∷ 215 ∷ 187 ∷ 18 ∷ 126 ∷ 88 ∷ 173 ∷ 193 ∷ 44 ∷ 166 ∷ 143 ∷ 131 ∷ 67 ∷ 126 ∷ 194 ∷ 225 ∷ 195
    ∷ 249 ∷ 130 ∷ 13 ∷ 233 ∷ 62 ∷ 88 ∷ 249 ∷ 23 ∷ 138 ∷ 41 ∷ 24 ∷ 221 ∷ 170 ∷ 247 ∷ 180 ∷ []

abbrev pub pumpswap_fee_config : Bytes
pumpswap_fee_config =
    65 ∷ 36 ∷ 110 ∷ 204 ∷ 125 ∷ 120 ∷ 254 ∷ 129 ∷ 228 ∷ 23 ∷ 115 ∷ 164 ∷ 105 ∷ 101 ∷ 65 ∷ 153 ∷ 55
    ∷ 146 ∷ 58 ∷ 7 ∷ 100 ∷ 71 ∷ 151 ∷ 223 ∷ 111 ∷ 62 ∷ 181 ∷ 20 ∷ 66 ∷ 96 ∷ 16 ∷ 203 ∷ []

abbrev pub pumpswap_fee_program : Bytes
pumpswap_fee_program =
    12 ∷ 53 ∷ 255 ∷ 169 ∷ 5 ∷ 90 ∷ 142 ∷ 86 ∷ 141 ∷ 168 ∷ 247 ∷ 188 ∷ 7 ∷ 86 ∷ 21 ∷ 39 ∷ 76 ∷ 241
    ∷ 201 ∷ 44 ∷ 164 ∷ 31 ∷ 64 ∷ 0 ∷ 156 ∷ 81 ∷ 106 ∷ 164 ∷ 20 ∷ 194 ∷ 124 ∷ 112 ∷ []

abbrev pub raydium_amm_v4_program : Bytes
raydium_amm_v4_program =
    75 ∷ 217 ∷ 73 ∷ 196 ∷ 54 ∷ 2 ∷ 195 ∷ 63 ∷ 32 ∷ 119 ∷ 144 ∷ 237 ∷ 22 ∷ 163 ∷ 82 ∷ 76 ∷ 161 ∷ 185
    ∷ 151 ∷ 92 ∷ 241 ∷ 33 ∷ 162 ∷ 169 ∷ 12 ∷ 255 ∷ 236 ∷ 125 ∷ 248 ∷ 182 ∷ 138 ∷ 205 ∷ []

abbrev pub raydium_amm_v4_authority : Bytes
raydium_amm_v4_authority =
    65 ∷ 87 ∷ 176 ∷ 88 ∷ 15 ∷ 49 ∷ 197 ∷ 252 ∷ 228 ∷ 74 ∷ 98 ∷ 88 ∷ 45 ∷ 188 ∷ 249 ∷ 215 ∷ 142 ∷ 231
    ∷ 89 ∷ 67 ∷ 160 ∷ 132 ∷ 163 ∷ 147 ∷ 179 ∷ 80 ∷ 54 ∷ 141 ∷ 34 ∷ 137 ∷ 147 ∷ 8 ∷ []

abbrev pub meteora_damm_v2_program : Bytes
meteora_damm_v2_program =
    9 ∷ 45 ∷ 33 ∷ 53 ∷ 101 ∷ 122 ∷ 21 ∷ 156 ∷ 43 ∷ 135 ∷ 212 ∷ 182 ∷ 106 ∷ 112 ∷ 219 ∷ 142 ∷ 151
    ∷ 82 ∷ 56 ∷ 159 ∷ 247 ∷ 106 ∷ 175 ∷ 32 ∷ 108 ∷ 237 ∷ 6 ∷ 58 ∷ 56 ∷ 249 ∷ 90 ∷ 237 ∷ []

abbrev pub meteora_damm_v2_authority : Bytes
meteora_damm_v2_authority =
    242 ∷ 204 ∷ 213 ∷ 53 ∷ 172 ∷ 165 ∷ 241 ∷ 115 ∷ 106 ∷ 200 ∷ 34 ∷ 221 ∷ 7 ∷ 115 ∷ 228 ∷ 217 ∷ 47
    ∷ 189 ∷ 138 ∷ 89 ∷ 178 ∷ 148 ∷ 3 ∷ 80 ∷ 2 ∷ 149 ∷ 169 ∷ 1 ∷ 28 ∷ 115 ∷ 169 ∷ 229 ∷ []

abbrev pub raydium_clmm_program : Bytes
raydium_clmm_program =
    165 ∷ 213 ∷ 202 ∷ 158 ∷ 4 ∷ 207 ∷ 93 ∷ 181 ∷ 144 ∷ 183 ∷ 20 ∷ 186 ∷ 47 ∷ 227 ∷ 44 ∷ 177 ∷ 89
    ∷ 19 ∷ 63 ∷ 193 ∷ 193 ∷ 146 ∷ 183 ∷ 34 ∷ 87 ∷ 253 ∷ 7 ∷ 211 ∷ 156 ∷ 176 ∷ 64 ∷ 30 ∷ []

abbrev pub orca_whirlpool_program : Bytes
orca_whirlpool_program =
    14 ∷ 3 ∷ 104 ∷ 95 ∷ 142 ∷ 144 ∷ 144 ∷ 83 ∷ 228 ∷ 88 ∷ 18 ∷ 28 ∷ 102 ∷ 245 ∷ 167 ∷ 106 ∷ 237
    ∷ 199 ∷ 112 ∷ 106 ∷ 161 ∷ 28 ∷ 130 ∷ 248 ∷ 170 ∷ 149 ∷ 42 ∷ 143 ∷ 43 ∷ 120 ∷ 121 ∷ 169 ∷ []

abbrev pub meteora_dlmm_program : Bytes
meteora_dlmm_program =
    4 ∷ 233 ∷ 225 ∷ 47 ∷ 188 ∷ 132 ∷ 232 ∷ 38 ∷ 201 ∷ 50 ∷ 204 ∷ 233 ∷ 226 ∷ 100 ∷ 12 ∷ 206 ∷ 21
    ∷ 89 ∷ 12 ∷ 28 ∷ 98 ∷ 115 ∷ 176 ∷ 146 ∷ 87 ∷ 8 ∷ 186 ∷ 59 ∷ 133 ∷ 32 ∷ 176 ∷ 188 ∷ []

abbrev pub memo_program : Bytes
memo_program =
    5 ∷ 74 ∷ 83 ∷ 90 ∷ 153 ∷ 41 ∷ 33 ∷ 6 ∷ 77 ∷ 36 ∷ 232 ∷ 113 ∷ 96 ∷ 218 ∷ 56 ∷ 124 ∷ 124 ∷ 53
    ∷ 181 ∷ 221 ∷ 188 ∷ 146 ∷ 187 ∷ 129 ∷ 228 ∷ 31 ∷ 168 ∷ 64 ∷ 65 ∷ 5 ∷ 68 ∷ 141 ∷ []

abbrev pub meteora_dlmm_event_authority : Bytes
meteora_dlmm_event_authority =
    178 ∷ 112 ∷ 214 ∷ 127 ∷ 169 ∷ 140 ∷ 81 ∷ 207 ∷ 2 ∷ 19 ∷ 5 ∷ 19 ∷ 88 ∷ 150 ∷ 43 ∷ 175 ∷ 53 ∷ 116
    ∷ 43 ∷ 237 ∷ 89 ∷ 201 ∷ 217 ∷ 68 ∷ 94 ∷ 156 ∷ 13 ∷ 12 ∷ 133 ∷ 199 ∷ 205 ∷ 145 ∷ []

abbrev pub sysvar_instructions : Bytes
sysvar_instructions =
    6 ∷ 167 ∷ 213 ∷ 23 ∷ 24 ∷ 123 ∷ 209 ∷ 102 ∷ 53 ∷ 218 ∷ 212 ∷ 4 ∷ 85 ∷ 253 ∷ 194 ∷ 192 ∷ 193 ∷ 36
    ∷ 198 ∷ 143 ∷ 33 ∷ 86 ∷ 117 ∷ 165 ∷ 219 ∷ 186 ∷ 203 ∷ 95 ∷ 8 ∷ 0 ∷ 0 ∷ 0 ∷ []

abbrev pub pumpfun_buyback_fee_recipient : Bytes
pumpfun_buyback_fee_recipient =
    67 ∷ 158 ∷ 101 ∷ 16 ∷ 192 ∷ 61 ∷ 101 ∷ 250 ∷ 217 ∷ 49 ∷ 232 ∷ 157 ∷ 4 ∷ 190 ∷ 11 ∷ 183 ∷ 13 ∷ 81
    ∷ 151 ∷ 31 ∷ 81 ∷ 196 ∷ 21 ∷ 251 ∷ 52 ∷ 76 ∷ 7 ∷ 219 ∷ 65 ∷ 159 ∷ 33 ∷ 34 ∷ []

abbrev pub buy_exact_in_launchlab : Bytes
buy_exact_in_launchlab = 250 ∷ 234 ∷ 13 ∷ 123 ∷ 213 ∷ 156 ∷ 19 ∷ 236 ∷ []

abbrev pub sell_exact_in_launchlab : Bytes
sell_exact_in_launchlab = 149 ∷ 39 ∷ 222 ∷ 155 ∷ 211 ∷ 124 ∷ 152 ∷ 26 ∷ []

abbrev pub cpmm_swap_base_in : Bytes
cpmm_swap_base_in = 143 ∷ 190 ∷ 90 ∷ 218 ∷ 196 ∷ 30 ∷ 51 ∷ 222 ∷ []

abbrev pub pumpfun_buy_exact_sol_in : Bytes
pumpfun_buy_exact_sol_in = 56 ∷ 252 ∷ 116 ∷ 8 ∷ 158 ∷ 223 ∷ 205 ∷ 95 ∷ []

abbrev pub pumpfun_sell : Bytes
pumpfun_sell = 51 ∷ 230 ∷ 133 ∷ 164 ∷ 1 ∷ 127 ∷ 131 ∷ 173 ∷ []

abbrev pub pumpfun_buy_exact_quote_in_v2 : Bytes
pumpfun_buy_exact_quote_in_v2 = 194 ∷ 171 ∷ 28 ∷ 70 ∷ 104 ∷ 77 ∷ 91 ∷ 47 ∷ []

abbrev pub pumpfun_sell_v2 : Bytes
pumpfun_sell_v2 = 93 ∷ 246 ∷ 130 ∷ 60 ∷ 231 ∷ 233 ∷ 64 ∷ 178 ∷ []

abbrev pub pumpswap_buy_exact_quote_in : Bytes
pumpswap_buy_exact_quote_in = 198 ∷ 46 ∷ 21 ∷ 82 ∷ 180 ∷ 217 ∷ 232 ∷ 112 ∷ []

abbrev pub pumpswap_buy : Bytes
pumpswap_buy = 102 ∷ 6 ∷ 61 ∷ 18 ∷ 1 ∷ 218 ∷ 235 ∷ 234 ∷ []

abbrev pub pumpswap_sell : Bytes
pumpswap_sell = 51 ∷ 230 ∷ 133 ∷ 164 ∷ 1 ∷ 127 ∷ 131 ∷ 173 ∷ []

abbrev pub cpmm_swap_base_out : Bytes
cpmm_swap_base_out = 55 ∷ 217 ∷ 98 ∷ 86 ∷ 163 ∷ 74 ∷ 180 ∷ 173 ∷ []

abbrev pub meteora_damm_v2_swap2 : Bytes
meteora_damm_v2_swap2 = 65 ∷ 75 ∷ 63 ∷ 76 ∷ 235 ∷ 91 ∷ 91 ∷ 136 ∷ []

abbrev pub clmm_swap_v2 : Bytes
clmm_swap_v2 = 43 ∷ 4 ∷ 237 ∷ 11 ∷ 26 ∷ 201 ∷ 30 ∷ 98 ∷ []

abbrev pub meteora_dlmm_swap2 : Bytes
meteora_dlmm_swap2 = 65 ∷ 75 ∷ 63 ∷ 76 ∷ 235 ∷ 91 ∷ 91 ∷ 136 ∷ []

abbrev pub whirlpool_swap_v2 : Bytes
whirlpool_swap_v2 = clmm_swap_v2

abbrev pub cpmm_default_trade_fee_rate : ℕ
cpmm_default_trade_fee_rate = 2500

abbrev pub raydium_amm_v4_swap_base_in : ℕ
raydium_amm_v4_swap_base_in = 9

abbrev pub raydium_amm_v4_swap_base_in_v2 : ℕ
raydium_amm_v4_swap_base_in_v2 = 16

abbrev pub raydium_amm_v4_swap_base_out_v2 : ℕ
raydium_amm_v4_swap_base_out_v2 = 17

abbrev pub meteora_damm_v2_exact_in : ℕ
meteora_damm_v2_exact_in = 0

abbrev pub meteora_damm_v2_partial_fill : ℕ
meteora_damm_v2_partial_fill = 1

abbrev pub meteora_damm_v2_exact_out : ℕ
meteora_damm_v2_exact_out = 2

abbrev pub min_sqrt_price_x64 : ℕ
min_sqrt_price_x64 = 4295048016

abbrev pub max_sqrt_price_x64 : ℕ
max_sqrt_price_x64 = 79226673521066979257578248091

abbrev pub whirlpool_min_sqrt_price_x64 : ℕ
whirlpool_min_sqrt_price_x64 = 4295048016

abbrev pub whirlpool_max_sqrt_price_x64 : ℕ
whirlpool_max_sqrt_price_x64 = 79226673515401279992447579055

abbrev pub launchlab_authority_meta : AccountMeta
launchlab_authority_meta = new_readonly launchlab_authority false

abbrev pub launchlab_event_authority_meta : AccountMeta
launchlab_event_authority_meta = new_readonly launchlab_event_authority false

abbrev pub launchlab_program_meta : AccountMeta
launchlab_program_meta = new_readonly launchlab_program false

abbrev pub system_program_meta : AccountMeta
system_program_meta = new_readonly system_program false

abbrev pub associated_token_program_meta : AccountMeta
associated_token_program_meta = new_readonly associated_token_program false

abbrev pub raydium_cpmm_authority_meta : AccountMeta
raydium_cpmm_authority_meta = new_readonly raydium_cpmm_authority false

abbrev pub pumpfun_program_meta : AccountMeta
pumpfun_program_meta = new_readonly pumpfun_program false

abbrev pub pumpswap_global_meta : AccountMeta
pumpswap_global_meta = new_readonly pumpswap_global false

abbrev pub pumpswap_event_authority_meta : AccountMeta
pumpswap_event_authority_meta = new_readonly pumpswap_event_authority false

abbrev pub pumpswap_program_meta : AccountMeta
pumpswap_program_meta = new_readonly pumpswap_program false

abbrev pub pumpswap_global_volume_accumulator_meta : AccountMeta
pumpswap_global_volume_accumulator_meta = new_readonly pumpswap_global_volume_accumulator false

abbrev pub pumpswap_fee_config_meta : AccountMeta
pumpswap_fee_config_meta = new_readonly pumpswap_fee_config false

abbrev pub pumpswap_fee_program_meta : AccountMeta
pumpswap_fee_program_meta = new_readonly pumpswap_fee_program false

abbrev pub raydium_amm_v4_authority_meta : AccountMeta
raydium_amm_v4_authority_meta = new_readonly raydium_amm_v4_authority false

abbrev pub meteora_damm_v2_authority_meta : AccountMeta
meteora_damm_v2_authority_meta = new_readonly meteora_damm_v2_authority false

abbrev pub meteora_damm_v2_program_meta : AccountMeta
meteora_damm_v2_program_meta = new_readonly meteora_damm_v2_program false

abbrev pub sysvar_instructions_meta : AccountMeta
sysvar_instructions_meta = new_readonly sysvar_instructions false

abbrev pub token_program_meta : AccountMeta
token_program_meta = new_readonly token_program false

abbrev pub token_2022_program_meta : AccountMeta
token_2022_program_meta = new_readonly token_2022_program false

abbrev pub memo_program_meta : AccountMeta
memo_program_meta = new_readonly memo_program false

abbrev pub meteora_dlmm_program_meta : AccountMeta
meteora_dlmm_program_meta = new_readonly meteora_dlmm_program false

abbrev pub meteora_dlmm_event_authority_meta : AccountMeta
meteora_dlmm_event_authority_meta = new_readonly meteora_dlmm_event_authority false
