-- ===== src/Census/Anchor.antt =====
-- `AnchorStoreService.persist` of core/census.py: a day's block is stored once, and never drifts.
use rpc_state_indexer.Prelude.{ℕ, Option, none, some, [], ◌∷◌, Result, ok, err}
use rpc_state_indexer.Prelude.Text.{text}
use rpc_state_indexer.Prelude.Exec.{pure, lift, ◌>>=◌, ◌>>◌}
use rpc_state_indexer.Domain.{BlockRef}
use rpc_state_indexer.Anchors.{AnchorError, ResolvedAnchor, assert_anchor_immutable}
use rpc_state_indexer.Storage.Repository.{History, CensusFault, raised, AnchorRow, insert_anchor}
use rpc_state_indexer.Census.Base.{Runner, Census, write, read, join}

abbrev pub immutable_or_raise : Result AnchorError (Unit {0}) → Result CensusFault (Unit {0})
immutable_or_raise (ok t) = ok tt
immutable_or_raise (err fault) =
    err (raised (text "AnchorConflict") (text "stored anchor differs from the resolution"))

module _ (runner : Runner) (chain_id : ℕ) where
  -- The fingerprints with a NUL between them.
  abbrev pub anchor_row : ResolvedAnchor → History → AnchorRow
  anchor_row resolved h = record {
    chain_id = chain_id;
    resolution_id = runner.uuid4 h;
    resolved = resolved;
    endpoint_fingerprint = runner.db.sha256 (join (0 ∷ []) resolved.endpoint_fingerprints);
    resolved_at = runner.now h;
  }

  abbrev pub after_existing : ResolvedAnchor → Option BlockRef → Census BlockRef
  after_existing resolved (some existing) = do
    lift (immutable_or_raise (assert_anchor_immutable existing resolved.anchor))
    pure existing
  after_existing resolved none = do
    row ← read (λ h. ok (anchor_row resolved h))
    write runner.db (insert_anchor row)
    pure resolved.anchor

  unfoldable pub persist : ResolvedAnchor → Census BlockRef
  persist resolved = do
    existing ← read (runner.db.canonical_anchor chain_id resolved.snapshot_date)
    after_existing resolved existing
