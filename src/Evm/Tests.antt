-- ===== src/Evm/Tests.antt =====
-- Words of evm/decoding.py, read.
use rpc_state_indexer.Prelude.{◌-◌, ◌^◌, ◌≡◌, ◌↔◌, refl, ok, err, replicate, ◌++◌, [], ◌∷◌, arith}
use rpc_state_indexer.Prelude.Int.{negsuc}
use rpc_state_indexer.Evm.Bytes.{Bytes}
use rpc_state_indexer.Evm.Calldata.{signed_word}
use rpc_state_indexer.Evm.Calldata.RoundTrip.{decode_int-signed_word}
use rpc_state_indexer.Evm.Decoding.{decode_signed, decode_int, not_sign_extended}
use rpc_state_indexer.Evm.Decoding.Signed.{InRange, encode, decode_signed_iff}

decode_signed_iff_example :
    (decode_signed (2 ^ 256 - 5) 24 ≡ ok (negsuc 4))
    ↔ (InRange 24 (negsuc 4) × (2 ^ 256 - 5 ≡ encode (negsuc 4)))
decode_signed_iff_example =
    decode_signed_iff (2 ^ 256 - 5) 24 (negsuc 4) (omega arith) (omega arith) (omega arith)

-- The tick word for -5, and a word whose upper bytes are clear though bit 23 is set.
ticks :
    (decode_int (replicate 31 255 ++ (251 ∷ [])) 24 ≡ ok (negsuc 4))
    × (decode_int (replicate 29 0 ++ (255 ∷ 255 ∷ 251 ∷ [])) 24 ≡ err not_sign_extended)
unfolding decode_int
ticks = (refl, refl)

decode_int-signed_word_example :
    (word : Bytes) × (signed_word (negsuc 4) 24 ≡ ok word) × (decode_int word 24 ≡ ok (negsuc 4))
decode_int-signed_word_example =
    decode_int-signed_word 24 (negsuc 4) (omega arith) (omega arith) (omega arith)
