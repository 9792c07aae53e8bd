-- ===== src/Rpc/Endpoint/Health.antt =====
-- What recorded failures and successes do to the requests that an endpoint may serve.
use rpc_state_indexer.Prelude.{
  ℕ, zero, suc, ◌+◌, ◌*◌, ◌≤◌, ◌<◌, ◌≡◌, refl, Bool, true, false, ◌&&◌, Option, none, some, min,
  max, List, [], ◌∷◌, lt→ltb, le→leb, arith, if◌then◌else◌,
}
use rpc_state_indexer.Rpc.Endpoint.{
  RpcEndpoint, can_serve, succeeded, failed, second, cooldown, through, or_zero, serves_block,
  after,
}

cooldown_bounds : (n : ℕ) → (2 * second ≤ cooldown (n + 1)) × (cooldown (n + 1) ≤ 60 * second)
cooldown_bounds zero = (omega arith, omega arith)
cooldown_bounds (suc zero) = (omega arith, omega arith)
cooldown_bounds (suc (suc zero)) = (omega arith, omega arith)
cooldown_bounds (suc (suc (suc zero))) = (omega arith, omega arith)
cooldown_bounds (suc (suc (suc (suc zero)))) = (omega arith, omega arith)
cooldown_bounds (suc (suc (suc (suc (suc n))))) =
    let e : min (suc (suc (suc (suc (suc n)))) + 1) 6 ≡ 6 = omega arith in
    (rw e (omega arith), rw e (omega arith))

-- A failure that leaves the endpoint keeps it out of use until its cooldown is over, and the
-- cooldown lasts between two and sixty seconds.
pub can_serve-failed :
    (now later : ℕ) (block asked : Option ℕ) (archive : Bool) (e : RpcEndpoint)
    → let left = failed now true block archive e in
      (later < left.cooldown_until → can_serve later left asked ≡ false)
      × (now + 2 * second ≤ left.cooldown_until)
      × (left.cooldown_until ≤ now + 60 * second)
unfolding can_serve failed
can_serve-failed now later block asked archive e =
    let (least, most) = cooldown_bounds e.consecutive_failures in
    (λ early. rw (lt→ltb later _ early) refl, omega arith, omega arith)

-- What is recorded of an endpoint's calls, with the arguments of `record_failure`.
pub data Recorded : Type 0 where
  success : Recorded
  failure : ℕ → Bool → Option ℕ → Bool → Recorded

unfoldable pub replay : List Recorded → RpcEndpoint → RpcEndpoint
unfolding succeeded failed
replay [] e = e
replay (success ∷ rest) e = replay rest (succeeded e)
replay (failure now failover block archive ∷ rest) e =
    replay rest (failed now failover block archive e)

-- An endpoint known to hold no state of `block`.
record Lacks (block : ℕ) (e : RpcEndpoint) : Type 0 where
  last : ℕ
  known : e.archive_unavailable_through ≡ some last
  reaches : block ≤ last

Lacks-through :
    (block last : ℕ) (archive : Bool) (asked : Option ℕ)
    → block ≤ last
    → (n : ℕ) × (through archive (some last) asked ≡ some n) × (block ≤ n)
Lacks-through block last true (some b) below = (max last b, refl, omega arith)
Lacks-through block last true none below = (last, refl, below)
Lacks-through block last false asked below = (last, refl, below)

Lacks-replay :
    (block : ℕ) (log : List Recorded) (e : RpcEndpoint) → Lacks block e → Lacks block (replay log e)
unfolding replay succeeded failed
Lacks-replay block [] e lacks = lacks
Lacks-replay block (success ∷ rest) e lacks =
    Lacks-replay block rest _
      (record { last = lacks.last; known = lacks.known; reaches = lacks.reaches })
Lacks-replay block (failure now failover asked archive ∷ rest) e lacks =
    let (n, k, r) = Lacks-through block lacks.last archive asked lacks.reaches in
    Lacks-replay block rest _ (record { last = n; known = rw lacks.known k; reaches = r })

and_false : (b : Bool) → (b && false) ≡ false
and_false true = refl
and_false false = refl

either_false : (b : Bool) → (if b then false else false) ≡ false
either_false true = refl
either_false false = refl

Lacks-can_serve :
    (later block asked : ℕ) (e : RpcEndpoint)
    → Lacks block e
    → asked ≤ block
    → can_serve later e (some asked) ≡ false
unfolding can_serve
Lacks-can_serve later block asked e lacks below =
    let gone : after e.archive_unavailable_through asked ≡ false =
      rw (lacks.known, le→leb asked lacks.last (let r = lacks.reaches in omega arith)) refl in
    let shut : serves_block e (some asked) ≡ false = rw gone (and_false _) in
    rw shut (either_false _)

-- Once `record_failure` has noted that an endpoint lacks the state of a block, the endpoint serves
-- no request for that block or an earlier one, whatever is recorded later and at any time.
pub can_serve-replay :
    (now later block asked : ℕ) (failover : Bool) (log : List Recorded) (e : RpcEndpoint)
    → asked ≤ block
    → can_serve later (replay log (failed now failover (some block) true e)) (some asked) ≡ false
unfolding failed
can_serve-replay now later block asked failover log e below =
    Lacks-can_serve later block asked _
      (Lacks-replay block log _ (record {
        last = max (or_zero e.archive_unavailable_through) block;
        known = refl;
        reaches = omega arith;
      }))
      below
