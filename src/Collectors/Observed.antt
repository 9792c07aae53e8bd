-- ===== src/Collectors/Observed.antt =====
-- Where the calls that `execute_uint_calls` of collectors/common.py decodes come from.
use mathlib.Core.Path.{subst}
use mathlib.Core.List.{append-nil, append_assoc}
use rpc_state_indexer.Prelude.{
  ℕ, suc, ◌+◌, ◌≡◌, refl, sym, ◌∙◌, ap, Bool, true, false, not, Option, none, some, List, [], ◌∷◌,
  ◌++◌, Result, ok, err, raise_if, get_elem?, inl, inr, arith, Bool-cases, >>=-returns, passed, All,
  All-append,
}
use rpc_state_indexer.Prelude.Text.{Text, text_eq, text_eq_iff}
use rpc_state_indexer.Hex.{lower}
use rpc_state_indexer.Domain.{BlockRef}
use rpc_state_indexer.Evm.Bytes.{Bytes}
use rpc_state_indexer.Execution.Base.{RawCallResult, VerifiedBatchResult}
use rpc_state_indexer.Execution.Digest.{digest_raw_results}
use rpc_state_indexer.Census.Base.{CollectionBatchEvidence}
use rpc_state_indexer.Collectors.Common.{
  UIntCallSpec, DecodedUIntCall, Calls, DecodedExecution, find_spec, find_call, is_decoded,
  or_unexpected, duplicate_result, not_verified, hash_mismatch, digest_mismatch, or_overflow,
  check_batch, decode_raw, collect_results, collect_batches, decode_batches, none_missing, missing,
  batch_evidence,
}

last_passed {ℓ} :
    {E : Type ℓ} (test : Bool) (fault : E) {u : Unit {0}}
    → raise_if (not test) fault ≡ ok u
    → test ≡ true
last_passed true fault h = refl
last_passed false fault h = absurd (cc h)

-- The evidence of the batches, numbered from there on.
abbrev pub numbered : ℕ → List VerifiedBatchResult → List CollectionBatchEvidence
numbered sequence [] = []
numbered sequence (batch ∷ batches) =
    batch_evidence sequence batch ∷ numbered (sequence + 1) batches

move : (i n : ℕ) → suc i + n ≡ i + (n + 1)
move i n = omega arith

from_left : (n : ℕ) → 0 + n ≡ n
from_left n = omega arith

from_zero : (i : ℕ) → i ≡ i + 0
from_zero i = omega arith

-- A successful digest passes through.
digested_or_overflow :
    (r : Result _ Text) {digest : Text} → or_overflow r ≡ ok digest → r ≡ ok digest
digested_or_overflow (ok d) h = ground (arith)
digested_or_overflow (err fault) h = absurd (cc h)

module _ (sha256 : Bytes → Text) (anchor : BlockRef) where
  -- The batch is verified, at the anchor's block, and its digest is that of its results.
  pub record Trusted (batch : VerifiedBatchResult) : Type 0 where
    pub verified : batch.evidence.verified ≡ true
    pub anchored : lower batch.evidence.anchor_hash ≡ lower anchor.block_hash
    pub digested : digest_raw_results sha256 batch.results ≡ ok batch.evidence.result_digest

  check_batch-Trusted :
      (sequence : ℕ) (batch : VerifiedBatchResult) {u : Unit {0}}
      → check_batch sha256 anchor sequence batch ≡ ok u
      → Trusted batch
  unfolding check_batch
  check_batch-Trusted sequence batch e =
      let same = text_eq (lower batch.evidence.anchor_hash) (lower anchor.block_hash) in
      let (verified, f1) = passed batch.evidence.verified (not_verified sequence) _ e in
      let (anchored, f2) = passed same (hash_mismatch sequence) _ f1 in
      let (digest, e3, f3) =
        >>=-returns (or_overflow (digest_raw_results sha256 batch.results)) _ f2 in
      let agrees =
        last_passed (text_eq batch.evidence.result_digest digest) (digest_mismatch sequence) f3 in
      record {
        verified = verified;
        anchored =
            (text_eq_iff (lower batch.evidence.anchor_hash) (lower anchor.block_hash)).0 anchored;
        digested =
            digested_or_overflow (digest_raw_results sha256 batch.results) e3
            ∙ ap ok (sym ((text_eq_iff batch.evidence.result_digest digest).0 agrees));
      }

  -- The result under the key is one of the trusted batch at the position.
  pub record Origin (all : List VerifiedBatchResult) (key : Text) (n : ℕ) (raw : RawCallResult)
      : Type 0 where
    pub batch : VerifiedBatchResult
    pub position : get_elem? all n ≡ some batch
    pub trusted : Trusted batch
    pub index : ℕ
    pub listed : get_elem? batch.results index ≡ some raw
    pub named : raw.key ≡ key

  module _ (casefold : Text → Text) (specs : List UIntCallSpec)
      (all : List VerifiedBatchResult) where
    -- The decoded call is the decoded result, for the spec of that key.
    pub record Traced (entry : Text × DecodedUIntCall) : Type 0 where
      pub raw : RawCallResult
      pub spec : UIntCallSpec
      pub expected : find_spec entry.0 specs ≡ some spec
      pub decoded : entry.1 ≡ decode_raw casefold spec raw entry.1.batch_sequence
      pub origin : Origin all entry.0 entry.1.batch_sequence raw

    expected_spec :
        (sequence : ℕ) (key : Text) (found : Option UIntCallSpec) {spec : UIntCallSpec}
        → or_unexpected sequence key found ≡ ok spec
        → found ≡ some spec
    expected_spec sequence key none h = absurd (cc h)
    expected_spec sequence key (some spec) h = ground (arith)

    module _ (sequence : ℕ) (batch : VerifiedBatchResult) (trusted : Trusted batch)
        (position : get_elem? all sequence ≡ some batch) where
      collect_results-Traced :
          (raws : List RawCallResult) (calls : Calls) {more : Calls}
          → ((i : ℕ) (raw : RawCallResult)
              → get_elem? raws i ≡ some raw
              → (j : ℕ) × (get_elem? batch.results j ≡ some raw))
          → collect_results casefold specs sequence raws calls ≡ ok more
          → All Traced calls
          → All Traced more
      unfolding collect_results decode_raw
      collect_results-Traced [] calls inside e traced = subst (All Traced) (ground (arith)) traced
      collect_results-Traced (raw ∷ raws) calls inside e traced =
          let (spec, e1, f1) =
            >>=-returns (or_unexpected sequence raw.key (find_spec raw.key specs)) _ e in
          let (u, e2, f2) =
            >>=-returns (raise_if (is_decoded (find_call raw.key calls)) (duplicate_result raw.key))
              _ f1 in
          let entry = decode_raw casefold spec raw sequence in
          let (j, at) = inside 0 raw refl in
          collect_results-Traced raws (calls ++ (raw.key, entry) ∷ []) (λ i r h. inside (suc i) r h)
            f2
            (All-append Traced calls ((raw.key, entry) ∷ []) traced (
              record {
                raw = raw;
                spec = spec;
                expected = expected_spec sequence raw.key _ e1;
                decoded = refl;
                origin = record {
                  batch = batch;
                  position = position;
                  trusted = trusted;
                  index = j;
                  listed = at;
                  named = refl;
                };
              },
              tt,
            ))

    collect_batches-Traced :
        (sequence : ℕ) (batches : List VerifiedBatchResult) (calls : Calls)
        (evidence : List CollectionBatchEvidence) {more : Calls}
        {shown : List CollectionBatchEvidence}
        → ((i : ℕ) (batch : VerifiedBatchResult)
            → get_elem? batches i ≡ some batch
            → get_elem? all (i + sequence) ≡ some batch)
        → collect_batches casefold sha256 anchor specs sequence batches calls evidence
          ≡ ok (more, shown)
        → All Traced calls
        → All Traced more
    unfolding collect_batches
    collect_batches-Traced sequence [] calls evidence inside e traced =
        subst (All Traced) (ground (arith)) traced
    collect_batches-Traced sequence (batch ∷ batches) calls evidence inside e traced =
        let (u, e1, f1) = >>=-returns (check_batch sha256 anchor sequence batch) _ e in
        let (more, e2, f2) = >>=-returns (collect_results casefold specs sequence _ _) _ f1 in
        collect_batches-Traced (sequence + 1) batches more _
          (λ i b h.
            subst (λ (k : ℕ). get_elem? all k ≡ some b) (move i sequence) (inside (suc i) b h))
          f2
          (collect_results-Traced sequence batch (check_batch-Trusted sequence batch e1)
            (subst (λ (k : ℕ). get_elem? all k ≡ some batch) (from_left sequence)
              (inside 0 batch refl))
            batch.results calls (λ i r h. (i, h)) e2 traced)

    collect_batches-evidence :
        (sequence : ℕ) (batches : List VerifiedBatchResult) (calls : Calls)
        (evidence : List CollectionBatchEvidence) {more : Calls}
        {shown : List CollectionBatchEvidence}
        → collect_batches casefold sha256 anchor specs sequence batches calls evidence
          ≡ ok (more, shown)
        → shown ≡ evidence ++ numbered sequence batches
    unfolding collect_batches
    collect_batches-evidence sequence [] calls evidence {shown} e = cc (e, append-nil evidence)
    collect_batches-evidence sequence (batch ∷ batches) calls evidence e =
        let (u, e1, f1) = >>=-returns (check_batch sha256 anchor sequence batch) _ e in
        let (more, e2, f2) =
          >>=-returns (collect_results casefold specs sequence batch.results calls) _ f1 in
        collect_batches-evidence (sequence + 1) batches more
          (evidence ++ batch_evidence sequence batch ∷ []) f2
        ∙ append_assoc evidence (batch_evidence sequence batch ∷ [])
            (numbered (sequence + 1) batches)

    -- Every decoded call comes from the executor's batches, and the evidence is theirs.
    pub decode_batches-Traced :
        {decoded : DecodedExecution}
        → decode_batches casefold sha256 anchor specs all ≡ ok decoded
        → All Traced decoded.calls × (decoded.batches ≡ numbered 0 all)
    unfolding decode_batches
    decode_batches-Traced {decoded} e =
        let ((calls, shown), e1, f1) =
          >>=-returns (collect_batches casefold sha256 anchor specs 0 all [] []) _ e in
        let (u, e2, f2) = >>=-returns (none_missing (missing specs calls)) _ f1 in
        let traced =
          collect_batches-Traced 0 all [] []
            (λ i b h. subst (λ (k : ℕ). get_elem? all k ≡ some b) (from_zero i) h) e1 tt in
        subst (λ (d : DecodedExecution). All Traced d.calls × (d.batches ≡ numbered 0 all))
          {x = record { calls = calls; batches = shown }} {y = decoded} (cc f2)
          (traced, collect_batches-evidence 0 all [] [] e1)

    pub find_call-Traced :
        (key : Text) (calls : Calls) {call : DecodedUIntCall}
        → All Traced calls
        → find_call key calls ≡ some call
        → Traced (key, call)
    unfolding find_call
    find_call-Traced key [] traced h = absurd (cc h)
    find_call-Traced key ((name, call) ∷ calls) (here, later) h =
        elim (Bool-cases (text_eq name key)) [
          | inl e ↦ subst Traced (ground (arith, (text_eq_iff name key).0 e, rw (e) at h)) here
          | inr e ↦ find_call-Traced key calls later (rw (e) at h)
        ]
