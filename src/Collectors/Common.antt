-- ===== src/Collectors/Common.antt =====
-- collectors/common.py: the results of verified batches as decoded calls. The executor is a
-- parameter, and so are SHA-256 and `str.casefold`.
use rpc_state_indexer.Prelude.{
  ℕ, zero, suc, ◌+◌, Bool, true, false, not, Option, none, some, List, [], ◌∷◌, ◌++◌, Result, ok,
  err, ◌>>=◌, ◌>>◌, raise_if, length, if◌then◌else◌,
}
use rpc_state_indexer.Prelude.Int.{ℤ, pos, negsuc}
use rpc_state_indexer.Prelude.Text.{Text, text, text_eq, text_in}
use rpc_state_indexer.Hex.{lower}
use rpc_state_indexer.Domain.{
  BlockRef, ObservationStatus, ok_status, reverted, empty_return, malformed_return, no_code,
  rpc_error, anchor_mismatch, UIntObservation, is_ok,
}
use rpc_state_indexer.Evm.Bytes.{Bytes}
use rpc_state_indexer.Evm.Decoding.{decode_uint256}
use rpc_state_indexer.Rpc.Classification.{
  FailureKind, execution_revert, response_error, classify_rpc_failure,
}
use rpc_state_indexer.Execution.Base.{ContractCall, RawCallResult, VerifiedBatchResult}
use rpc_state_indexer.Execution.Adaptive.{AdaptiveFault}
use rpc_state_indexer.Execution.Digest.{DigestOverflow, digest_raw_results}
use rpc_state_indexer.Storage.Encoding.{sort_by}
use rpc_state_indexer.Discovery.Dedup.{text_leb}
use rpc_state_indexer.Evm.Calldata.{WordFault}
use rpc_state_indexer.Census.Base.{CollectionBatchEvidence, CollectionError}

pub record UIntCallSpec : Type 0 where
  pub call : ContractCall
  pub subject_address : Text
  pub call_kind : Text

pub record DecodedUIntCall : Type 0 where
  pub spec : UIntCallSpec
  pub observation : UIntObservation
  pub batch_sequence : ℕ
  pub rpc_code : Option ℤ
  pub rpc_message : Option Text

-- A dict is the list of its items.
abbrev pub Calls : Type 0
Calls = List (Text × DecodedUIntCall)

pub record DecodedExecution : Type 0 where
  pub calls : Calls
  pub batches : List CollectionBatchEvidence

-- The `ValueError`s, the `CollectionProtocolError`s and the other exceptions of a collector.
pub data CollectorFault : Type 0 where
  execution : AdaptiveFault → CollectorFault
  overflow : DigestOverflow → CollectorFault
  word : WordFault → CollectorFault
  duplicate_call_key unknown_key : Text → CollectorFault
  not_verified hash_mismatch digest_mismatch : ℕ → CollectorFault
  unexpected_key : ℕ → Text → CollectorFault
  duplicate_result : Text → CollectorFault
  missing_keys : List Text → CollectorFault
  not_an_error no_value wrong_mode not_deployed duplicate_assets unequal_lengths : CollectorFault

-- `observation.ok`.
abbrev pub observed : DecodedUIntCall → Bool
observed call = is_ok call.observation.status

unfoldable pub status_value : ObservationStatus → Text
status_value ok_status = text "ok"
status_value reverted = text "reverted"
status_value empty_return = text "empty_return"
status_value malformed_return = text "malformed_return"
status_value no_code = text "no_code"
status_value rpc_error = text "rpc_error"
status_value anchor_mismatch = text "anchor_mismatch"

-- `message or other`.
abbrev pub text_or : Text → Text → Text
text_or [] other = other
text_or (c ∷ message) other = c ∷ message

abbrev pub message_or : Option Text → Text → Text
message_or none other = other
message_or (some message) other = text_or message other

-- `code or -1`.
abbrev pub code_or : Option ℤ → ℤ
code_or none = negsuc 0
code_or (some (pos zero)) = negsuc 0
code_or (some (pos (suc n))) = pos (suc n)
code_or (some (negsuc n)) = negsuc n

unfoldable pub as_error : DecodedUIntCall → Result CollectorFault CollectionError
as_error call =
    if observed call
    then err not_an_error
    else ok (record {
      subject_address = call.spec.subject_address;
      call_kind = call.spec.call_kind;
      status = call.observation.status;
      batch_sequence = call.batch_sequence;
      message =
          text_or call.observation.detail
            (message_or call.rpc_message (status_value call.observation.status));
      rpc_code = call.rpc_code;
      return_data = call.observation.raw;
    })

-- `failure.kind is FailureKind.EXECUTION_REVERT`.
abbrev pub failed_status : FailureKind → ObservationStatus
failed_status execution_revert = reverted
failed_status kind = rpc_error

-- The checks of the keys, in the order of the specs: `seen` are those before.
unfoldable pub unique_keys : List Text → List UIntCallSpec → Result CollectorFault (Unit {0})
unique_keys seen [] = ok tt
unique_keys seen (spec ∷ specs) = do
  raise_if (text_in spec.call.key seen) (duplicate_call_key spec.call.key)
  unique_keys (spec.call.key ∷ seen) specs

-- `expected[key]`, where the dict has one item for each spec.
unfoldable pub find_spec : Text → List UIntCallSpec → Option UIntCallSpec
find_spec key [] = none
find_spec key (spec ∷ specs) = if text_eq spec.call.key key then some spec else find_spec key specs

unfoldable pub find_call : Text → Calls → Option DecodedUIntCall
find_call key [] = none
find_call key ((name, call) ∷ calls) = if text_eq name key then some call else find_call key calls

abbrev pub is_decoded : Option DecodedUIntCall → Bool
is_decoded none = false
is_decoded (some call) = true

abbrev pub or_unexpected : ℕ → Text → Option UIntCallSpec → Result CollectorFault UIntCallSpec
or_unexpected sequence key none = err (unexpected_key sequence key)
or_unexpected sequence key (some spec) = ok spec

-- `sorted(set(expected) - set(decoded))` before it is sorted.
unfoldable pub missing : List UIntCallSpec → Calls → List Text
unfolding find_call
missing [] calls = []
missing (spec ∷ specs) calls =
    let rest = missing specs calls in
    if is_decoded (find_call spec.call.key calls) then rest else spec.call.key ∷ rest

abbrev pub none_missing : List Text → Result CollectorFault (Unit {0})
none_missing [] = ok tt
none_missing (key ∷ keys) = err (missing_keys (sort_by text_leb (key ∷ keys)))

abbrev pub or_overflow : Result DigestOverflow Text → Result CollectorFault Text
or_overflow (ok digest) = ok digest
or_overflow (err fault) = err (overflow fault)

abbrev pub batch_evidence : ℕ → VerifiedBatchResult → CollectionBatchEvidence
batch_evidence sequence batch = record {
  batch_sequence = sequence;
  body_call_count = length batch.results;
  evidence = batch.evidence;
}

module _ (sha256 : Bytes → Text) (anchor : BlockRef) where
  -- The three checks of a batch.
  unfoldable pub check_batch : ℕ → VerifiedBatchResult → Result CollectorFault (Unit {0})
  check_batch sequence batch = do
    raise_if (not batch.evidence.verified) (not_verified sequence)
    raise_if (not (text_eq (lower batch.evidence.anchor_hash) (lower anchor.block_hash)))
        (hash_mismatch sequence)
    digest ← or_overflow (digest_raw_results sha256 batch.results)
    raise_if (not (text_eq batch.evidence.result_digest digest)) (digest_mismatch sequence)

module _ (casefold : Text → Text) where
  unfoldable pub failed_observation : RawCallResult → UIntObservation
  failed_observation raw =
      let failure = classify_rpc_failure casefold (
        response_error (code_or raw.error_code) (message_or raw.error_message (text "call failed"))
          none) in
      record {
        status = failed_status failure.kind;
        value = none;
        raw = raw.returndata;
        detail = message_or raw.error_message (text "contract call failed");
      }

  -- `_decode_raw`.
  unfoldable pub decode_raw : UIntCallSpec → RawCallResult → ℕ → DecodedUIntCall
  decode_raw spec raw sequence = record {
    spec = spec;
    observation =
        if raw.success then decode_uint256 true raw.returndata else failed_observation raw;
    batch_sequence = sequence;
    rpc_code = raw.error_code;
    rpc_message = raw.error_message;
  }

  -- `for raw in batch.results`.
  unfoldable pub collect_results :
      List UIntCallSpec → ℕ → List RawCallResult → Calls → Result CollectorFault Calls
  collect_results specs sequence [] calls = ok calls
  collect_results specs sequence (raw ∷ raws) calls = do
    spec ← or_unexpected sequence raw.key (find_spec raw.key specs)
    raise_if (is_decoded (find_call raw.key calls)) (duplicate_result raw.key)
    collect_results specs sequence raws (calls ++ (raw.key, decode_raw spec raw sequence) ∷ [])

  module _ (sha256 : Bytes → Text) (anchor : BlockRef) where
    -- `for sequence, batch in enumerate(verified_batches)`.
    unfoldable pub collect_batches :
        List UIntCallSpec
        → ℕ
        → List VerifiedBatchResult
        → Calls
        → List CollectionBatchEvidence
        → Result CollectorFault (Calls × List CollectionBatchEvidence)
    collect_batches specs sequence [] calls evidence = ok (calls, evidence)
    collect_batches specs sequence (batch ∷ batches) calls evidence = do
      check_batch sha256 anchor sequence batch
      more ← collect_results specs sequence batch.results calls
      collect_batches specs (sequence + 1) batches more
          (evidence ++ batch_evidence sequence batch ∷ [])

    unfoldable pub decode_batches :
        List UIntCallSpec → List VerifiedBatchResult → Result CollectorFault DecodedExecution
    decode_batches specs batches = do
      (calls, evidence) ← collect_batches specs 0 batches [] []
      none_missing (missing specs calls)
      ok (record { calls = calls; batches = evidence })
