-- ===== src/Execution/Digest.antt =====
-- `digest_raw_results` of execution/base.py. SHA-256 is a parameter.
use rpc_state_indexer.Prelude.{
  suc, ◌-◌, ◌^◌, Bool, true, false, Option, none, some, List, [], ◌∷◌, ◌++◌, Result, ok, err, ◌>>=◌,
  length, ltb, if◌then◌else◌,
}
use rpc_state_indexer.Prelude.Int.{ℤ, pos, negsuc}
use rpc_state_indexer.Prelude.Text.{Text}
use rpc_state_indexer.Evm.Bytes.{Bytes, to_bytes}
use rpc_state_indexer.Storage.Encoding.{utf8}
use rpc_state_indexer.Execution.Base.{RawCallResult}

-- `OverflowError`.
pub data DigestOverflow : Type 0 where
  length_too_large code_too_large : DigestOverflow

-- The length in four bytes, and the bytes.
unfoldable pub with_length : Bytes → Result DigestOverflow Bytes
with_length raw =
    if ltb (length raw) (2 ^ 32) then ok (to_bytes 4 (length raw) ++ raw) else err length_too_large

-- Eight bytes in two's complement; -(2**31) stands for a result without a code.
unfoldable pub code_bytes : Option ℤ → Result DigestOverflow Bytes
code_bytes none = ok (to_bytes 8 (2 ^ 64 - 2 ^ 31))
code_bytes (some (pos n)) = if ltb n (2 ^ 63) then ok (to_bytes 8 n) else err code_too_large
code_bytes (some (negsuc n)) =
    if ltb n (2 ^ 63) then ok (to_bytes 8 (2 ^ 64 - suc n)) else err code_too_large

abbrev pub flag_bytes : Bool → Bytes
flag_bytes true = 1 ∷ []
flag_bytes false = 0 ∷ []

-- `message or ""`.
abbrev pub or_empty : Option Text → Text
or_empty none = []
or_empty (some message) = message

unfoldable pub result_bytes : RawCallResult → Result DigestOverflow Bytes
unfolding with_length code_bytes utf8
result_bytes r = do
  key ← with_length (utf8 r.key)
  returned ← with_length r.returndata
  code ← code_bytes r.error_code
  message ← with_length (utf8 (or_empty r.error_message))
  ok (key ++ flag_bytes r.success ++ returned ++ code ++ message)

abbrev pub all_result_bytes : List RawCallResult → Result DigestOverflow Bytes
all_result_bytes [] = ok []
all_result_bytes (r ∷ rs) = do here ← result_bytes r; rest ← all_result_bytes rs; ok (here ++ rest)

unfoldable pub digest_raw_results : (Bytes → Text) → List RawCallResult → Result DigestOverflow Text
unfolding result_bytes
digest_raw_results sha256 results = do hashed ← all_result_bytes results; ok (sha256 hashed)
