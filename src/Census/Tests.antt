-- ===== src/Census/Tests.antt =====
-- The census on concrete input: a token with one holder, a database that stores and shows every
-- row, and the theorems at these.
use rpc_state_indexer.Prelude.{
  ℕ, suc, Bool, true, false, List, [], ◌∷◌, ◌++◌, ◌≡◌, refl, Option, none, some, Result, ok, err,
  length,
}
use rpc_state_indexer.Prelude.Text.{Text, text}
use rpc_state_indexer.Domain.{BlockRef, multicall3, full_supply, BalanceRow, FrozenUniverse}
use rpc_state_indexer.Evm.Bytes.{Bytes}
use rpc_state_indexer.Storage.Encoding.{DigestFault}
use rpc_state_indexer.Storage.Digests.{BalanceDigestRow, ScalarDigestRow, digest_universe}
use rpc_state_indexer.Storage.Repository.{
  AttemptRow, MemberRow, ErrorRow, Stored, Write, History, CensusFault, raised, stored, Database,
  token, insert_universe_members, insert_token_balances, insert_token_scalars,
  insert_terminal_errors, insert_attempt_state,
}
use rpc_state_indexer.Census.Base.{
  JobConfig, TokenConfig, Catalog, CollectionBatchEvidence, CollectionError, Collected,
  TokenCollectionResult, Runner,
}
use rpc_state_indexer.Census.Publish.{publish_token}
use rpc_state_indexer.Census.Run.{attempt_base, run_token}
use rpc_state_indexer.Census.Run.Life.{Lives, run_token-Lives}
use rpc_state_indexer.Census.Run.Settle.{Settles, run_token-Settles}
use rpc_state_indexer.Census.Run.Sound.{Sound, nothing, after_token, Reach-Sound}
use rpc_state_indexer.Census.Run.Checked.{TokenPublished, publish_token-TokenPublished}

abbrev holder : Text
holder = text "0x00000000000000000000000000000000000000ab"

abbrev token_address : Text
token_address = text "0x00000000000000000000000000000000000000cd"

-- A hash without collisions.
abbrev no_hash : Bytes → Text
no_hash raw = raw

abbrev or_empty : Result DigestFault Text → Text
or_empty (ok t) = t
or_empty (err f) = []

abbrev one_source : List (Text × List Text)
one_source = (holder, text "seed" ∷ []) ∷ []

abbrev universe : FrozenUniverse
unfolding digest_universe
universe = record {
  addresses = holder ∷ [];
  sources = one_source;
  universe_hash = or_empty (digest_universe no_hash one_source);
}

abbrev count_errors : History → ℕ
count_errors [] = 0
count_errors (insert_terminal_errors rows ∷ h) = suc (count_errors h)
count_errors (_ ∷ h) = count_errors h

abbrev members_of : List MemberRow → List (Text × List Text)
members_of [] = []
members_of (row ∷ rows) = (row.holder_address, row.member_sources) ∷ members_of rows

abbrev all_members : History → List (Text × List Text)
all_members [] = []
all_members (insert_universe_members rows ∷ h) = all_members h ++ members_of rows
all_members (_ ∷ h) = all_members h

abbrev observations : {A : Type 0} → List (Stored A) → List A
observations [] = []
observations (row ∷ rows) = row.observation ∷ observations rows

abbrev all_balances : History → List BalanceDigestRow
all_balances [] = []
all_balances (insert_token_balances rows i ∷ h) = all_balances h ++ observations rows
all_balances (_ ∷ h) = all_balances h

abbrev all_scalars : History → List ScalarDigestRow
all_scalars [] = []
all_scalars (insert_token_scalars rows i ∷ h) = all_scalars h ++ observations rows
all_scalars (_ ∷ h) = all_scalars h

abbrev db : Database
db = record {
  answer = λ w h. stored;
  canonical_anchor = λ chain date h. ok none;
  error_count = λ scope c h. ok (count_errors h);
  member_rows = λ scope c h. ok (all_members h);
  balance_rows = λ scope c h. ok (all_balances h);
  scalar_rows = λ scope c h. ok (all_scalars h);
  pool_rows = λ scope c h. ok [];
  state_rows = λ scope c h. ok [];
  tick_rows = λ scope c h. ok [];
  sha256 = no_hash;
}

abbrev batch : CollectionBatchEvidence
batch = record {
  batch_sequence = 0;
  body_call_count = 2;
  evidence = record {
    executor_kind = multicall3;
    block_reference_kind = text "eip1898";
    anchor_hash = text "0xaa";
    provider_groups = text "g" ∷ [];
    result_digest = text "d";
    verified = true;
  };
}

abbrev balance : BalanceRow
balance = record {
  holder_address = holder;
  balance_raw = 5;
  scaled_balance_raw = none;
  value_kind = text "direct";
  batch_sequence = 0;
}

abbrev result : TokenCollectionResult
result = record {
  balances = balance ∷ [];
  scalars = record { scalar_name = text "totalSupply"; scalar_raw = 5; batch_sequence = 0 } ∷ [];
  collected = record {
    errors = [];
    batches = batch ∷ [];
    integrity_checks =
        record { passed = true; check = text "supply"; observed = none; expected = none } ∷ [];
  };
}

abbrev collector_down : CensusFault
collector_down = raised (text "RpcError") (text "down")

-- The two collectors: one works, the other raises.
abbrev runner : Runner
runner = record {
  catalog = record {
    chain_id = 100;
    multicall_address = text "0x11";
    multicall_deployment_block = 10;
    multicall_runtime_code_hash = some (text "0xcc");
    target_config_hash = λ job address. text "config";
  };
  db = db;
  now = λ h. length h;
  uuid4 = λ h. length h ∷ [];
  resolve_universe = λ name address block. ok universe;
  verify_code = λ address anchor expected. ok tt;
  collect_erc20 = λ target u anchor mode. ok result;
  collect_atoken = λ target u anchor mode. err collector_down;
  collect_pool = λ target anchor mode. err collector_down;
  collect_balancer = none;
  vault_target = λ target. text "0x22";
  collect_cl = none;
}

abbrev job : JobConfig
job = record { name = text "daily"; universe = some (text "all"); integrity_mode = full_supply }

abbrev target : TokenConfig
target = record {
  address = token_address;
  is_atoken = false;
  date_start = some 3;
  date_end = none;
  index_source = none;
}

abbrev atoken : TokenConfig
atoken = record target { is_atoken = true }

abbrev anchor : BlockRef
anchor = record { number = 12; block_hash = text "0xaa"; parent_hash = text "0xbb"; timestamp = 99 }

-- A run of the daily job, and the publication alone.
run_day : TokenConfig → History → Result CensusFault Text × History
unfolding run_token rpc_state_indexer.Prelude.Exec.◌>>=◌ rpc_state_indexer.Prelude.Exec.lift
    rpc_state_indexer.Prelude.Exec.pure rpc_state_indexer.Census.Run.check_date_window
    rpc_state_indexer.Census.Base.read rpc_state_indexer.Census.Run.attempt
    rpc_state_indexer.Census.Base.write rpc_state_indexer.Census.Run.settle
    rpc_state_indexer.Census.Run.token_body rpc_state_indexer.Census.Run.verify_token_code
    rpc_state_indexer.Census.Run.verify_multicall_code rpc_state_indexer.Census.Run.attempt_base
    rpc_state_indexer.Census.Base.executor_kind_for_anchor
    rpc_state_indexer.Census.Persist.persist_universe rpc_state_indexer.Census.Rows.member_rows
    rpc_state_indexer.Census.Persist.persist_token_result rpc_state_indexer.Census.Rows.stored_rows
    rpc_state_indexer.Census.Persist.insert_chunked rpc_state_indexer.Census.Base.error_class
    rpc_state_indexer.Census.Base.error_text rpc_state_indexer.Census.Base.is_verified
    rpc_state_indexer.Census.Base.token_digest rpc_state_indexer.Census.Evidence.batches_json
    rpc_state_indexer.Census.Evidence.batches_verified
    rpc_state_indexer.Census.Evidence.publication_context
    rpc_state_indexer.Census.Persist.insert_chunks
    rpc_state_indexer.Census.Persist.insert_scalar_groups
    rpc_state_indexer.Census.Persist.persist_errors rpc_state_indexer.Census.Publish.common_checks
    rpc_state_indexer.Census.Publish.conclude_attempt rpc_state_indexer.Census.Publish.note
    rpc_state_indexer.Census.Publish.note_integrity rpc_state_indexer.Census.Publish.observed_supply
    rpc_state_indexer.Census.Publish.publication_checks
    rpc_state_indexer.Census.Publish.publication_row rpc_state_indexer.Census.Publish.publish_token
    rpc_state_indexer.Census.Publish.terminal_errors
    rpc_state_indexer.Census.Publish.verified_readback rpc_state_indexer.Census.Publish.verified_row
    rpc_state_indexer.Census.Rows.add_to_group rpc_state_indexer.Census.Run.failed_row
    rpc_state_indexer.Discovery.Holders.insert_holder
    rpc_state_indexer.Discovery.Holders.insert_holders rpc_state_indexer.Evm.Bytes.from_hex
    rpc_state_indexer.Evm.Bytes.to_bytes rpc_state_indexer.Execution.Planner.chunk_loop
    rpc_state_indexer.Execution.Planner.chunked rpc_state_indexer.Hex.digit_char
    rpc_state_indexer.Hex.digit_value rpc_state_indexer.Hex.is_address
    rpc_state_indexer.Hex.is_digit rpc_state_indexer.Hex.is_hex rpc_state_indexer.Hex.is_lower_hex
    rpc_state_indexer.Hex.strip_0x rpc_state_indexer.Storage.Digests.balance_bytes
    rpc_state_indexer.Storage.Digests.canonical_members
    rpc_state_indexer.Storage.Digests.digest_token_observations
    rpc_state_indexer.Storage.Digests.digest_universe rpc_state_indexer.Storage.Digests.member_bytes
    rpc_state_indexer.Storage.Digests.scalar_bytes rpc_state_indexer.Storage.Digests.token_preimage
    rpc_state_indexer.Storage.Digests.universe_preimage
    rpc_state_indexer.Storage.Encoding.address_bytes rpc_state_indexer.Storage.Encoding.insert_by
    rpc_state_indexer.Storage.Encoding.sort_by rpc_state_indexer.Storage.Encoding.text_bytes
    rpc_state_indexer.Storage.Encoding.uint256_bytes rpc_state_indexer.Storage.Encoding.utf8
    rpc_state_indexer.Storage.Encoding.utf8_char
    rpc_state_indexer.Storage.Repository.readback_token_digest
    rpc_state_indexer.Storage.Repository.readback_universe_digest
run_day t h = run_token runner job t 7 anchor h

abbrev base : AttemptRow
unfolding rpc_state_indexer.Census.Run.attempt_base
base = attempt_base runner (0 ∷ []) job token token_address 7 anchor universe 0

publish_day : History → Result CensusFault (Unit {0}) × History
unfolding run_day publish_token
publish_day h = publish_token runner base universe result h

abbrev stored_as : {A : Type 0} → A → List (Stored A)
stored_as row =
    record {
      scope = base.scope;
      observation = row;
      probe_source = multicall3;
      batch_sequence = 0;
      observed_at = 2;
    }
    ∷ []

-- The rows of the attempt before its publication.
abbrev persisted : History
persisted =
    insert_token_scalars (stored_as (record { scalar_name = text "totalSupply"; scalar_raw = 5 })) 0
    ∷ insert_token_balances
        (stored_as (record {
          holder_address = holder;
          balance_raw = 5;
          scaled_balance_raw = none;
          value_kind = text "direct";
        }))
        0
    ∷ insert_universe_members (
        record {
          scope = base.scope;
          holder_address = holder;
          member_sources = text "seed" ∷ [];
          member_ordinal = 0;
          inserted_at = 1;
        }
        ∷ [])
    ∷ insert_attempt_state base
    ∷ []

token_is_published : (run_day target []).0 ≡ ok (0 ∷ [])
unfolding run_day
token_is_published = refl

six_rows : length (run_day target []).1 ≡ 6
unfolding run_day
six_rows = refl

token_fails : (run_day atoken []).0 ≡ err collector_down
unfolding run_day
token_fails = refl

publication_returns :
    publish_token runner base universe result persisted ≡ (ok tt, (publish_day persisted).1)
unfolding publish_day
publication_returns = refl

run_token-Lives_example : Lives (0 ∷ []) [] (run_token runner job target 7 anchor [])
run_token-Lives_example = run_token-Lives runner job 7 anchor [] target

run_token-Settles_example : Settles (0 ∷ []) [] (run_token runner job atoken 7 anchor [])
run_token-Settles_example = run_token-Settles runner (λ w k. refl) job atoken 7 anchor []

Reach-Sound_example :
    Sound (run_token runner job atoken 7 anchor (run_token runner job target 7 anchor []).1).1
Reach-Sound_example =
    Reach-Sound runner (after_token job atoken 7 anchor (after_token job target 7 anchor nothing))

publish_token-TokenPublished_example :
    TokenPublished runner base universe result persisted (publish_day persisted).1
publish_token-TokenPublished_example =
    publish_token-TokenPublished runner base universe result persisted _ publication_returns
