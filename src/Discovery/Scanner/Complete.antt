-- ===== src/Discovery/Scanner/Complete.antt =====
-- Against a provider that never returns a short answer other than the complete one, a scan that
-- returns has the logs of every requested block.
use mathlib.Core.List.{append_assoc, append-nil}
use mathlib.Core.Path.{subst}
use native.Mathlib.Nat.{le_refl}
use rpc_state_indexer.Prelude.{
  ℕ, zero, suc, ◌+◌, ◌-◌, ◌*◌, ◌/◌, ◌<◌, ◌≤◌, ◌≡◌, refl, sym, ap, ◌∙◌, inl, inr, List, [], ◌∷◌,
  ◌++◌, Result, ok, err, ◌>>=◌, >>=-returns, Bool-cases, arith, ltb, leb, length, min,
}
use rpc_state_indexer.Prelude.Text.{Text}
use rpc_state_indexer.Json.{Json, arr, Elements, elements}
use rpc_state_indexer.Discovery.Coverage.{BlockRange, size, lower_half, upper_half, IsValid}
use rpc_state_indexer.Discovery.Fault.{DiscoveryError}
use rpc_state_indexer.Discovery.Log.{LogFilter, NormalizedLog, parse_log}
use rpc_state_indexer.Discovery.Log.Laws.{parse_log-widen, parse_log-Accepted}
use rpc_state_indexer.Discovery.Dedup.{deduplicate_logs}
use rpc_state_indexer.Discovery.Scanner.{
  CallFault, CompletedRange, DiscoveryScan, Settings, chunk_loop, parse_logs, finish, Progress,
  take_range, read_range, scan_loop, scan_filter, start_progress, finish_with,
}
use rpc_state_indexer.Discovery.Scanner.Termination.{gives_up, halves, accepts, judged}

-- The raw logs of `n` blocks from `start` on, for a chain with the logs of each block.
abbrev pub logs_from : (ℕ → List Json) → ℕ → ℕ → List Json
logs_from chain start zero = []
logs_from chain start (suc n) = chain start ++ logs_from chain (start + 1) n

logs_from-append :
    (chain : ℕ → List Json) (start m n : ℕ)
    → logs_from chain start (m + n) ≡ logs_from chain start m ++ logs_from chain (start + m) n
logs_from-append chain start zero n =
    let e : zero + n ≡ n = omega arith in
    let s : start + zero ≡ start = omega arith in rw (e, s) refl
logs_from-append chain start (suc m) n =
    let e : suc m + n ≡ suc (m + n) = omega arith in
    let s : start + suc m ≡ start + 1 + m = omega arith in
    rw (e, s) (rw (logs_from-append chain (start + 1) m n) (sym (append_assoc (chain start) _ _)))

abbrev logs_of : (ℕ → List Json) → BlockRange → List Json
logs_of chain r = logs_from chain r.start (size r)

abbrev logs_of_all : (ℕ → List Json) → List BlockRange → List Json
logs_of_all chain [] = []
logs_of_all chain (r ∷ rs) = logs_of chain r ++ logs_of_all chain rs

logs_of-halve :
    (chain : ℕ → List Json) (r : BlockRange)
    → IsValid r
    → logs_of chain (lower_half r) ++ logs_of chain (upper_half r) ≡ logs_of chain r
logs_of-halve chain r v =
    let m = size r / 2 in
    let e : size (lower_half r) ≡ m = omega arith in
    let n = size (upper_half r) in
    let t : size r ≡ m + n = omega arith in
    rw e (sym (ap (logs_from chain r.start) t ∙ logs_from-append chain r.start m n))

abbrev Inside : BlockRange → BlockRange → Type 0
Inside q r = (q.start ≤ r.start) × (r.end_exclusive ≤ q.end_exclusive)

parse_logs-append :
    (f : LogFilter) (q : BlockRange) (xs ys : List Json) (ls ms : List NormalizedLog)
    → parse_logs f q xs ≡ ok ls
    → parse_logs f q ys ≡ ok ms
    → parse_logs f q (xs ++ ys) ≡ ok (ls ++ ms)
unfolding parse_logs
parse_logs-append f q [] ys ls ms ha hb = let e : ls ≡ [] = ground arith in rw e hb
parse_logs-append f q (x ∷ xs) ys ls ms ha hb =
    let (l, hl, rest) =
      >>=-returns (parse_log f q x) (λ l. parse_logs f q xs >>= λ ks. ok (l ∷ ks)) ha in
    let (ks, hks, e) = >>=-returns (parse_logs f q xs) (λ ks. ok (l ∷ ks)) rest in
    let all = parse_logs-append f q xs ys ks ms hks hb in
    let p : ls ≡ l ∷ ks = ground arith in rw (hl, p) (rw all)

parse_logs-widen :
    (f : LogFilter) (q r : BlockRange) (vs : List Json) (ls : List NormalizedLog)
    → Inside q r
    → parse_logs f r vs ≡ ok ls
    → parse_logs f q vs ≡ ok ls
unfolding parse_logs
parse_logs-widen f q r [] ls i h = h
parse_logs-widen f q r (v ∷ vs) ls i h =
    let (l, hl, rest) =
      >>=-returns (parse_log f r v) (λ l. parse_logs f r vs >>= λ ls'. ok (l ∷ ls')) h in
    let (ls', hls, e) = >>=-returns (parse_logs f r vs) (λ ls'. ok (l ∷ ls')) rest in
    let here = (parse_log-Accepted f r v l hl).in_range in
    let wide = parse_log-widen f r q v l hl (ground arith) in
    let more = parse_logs-widen f q r vs ls' i hls in
    let p : ls ≡ l ∷ ls' = ground arith in rw (wide, p) (rw more)

-- The ranges that are pending lie in the requested one and are not empty.
abbrev Pending : BlockRange → List BlockRange → Type 0
Pending q [] = Unit {0}
Pending q (r ∷ rs) = IsValid r × Inside q r × Pending q rs

-- What the loop adds to the logs: the decoded logs of all pending blocks.
abbrev Gathered :
    LogFilter → BlockRange → List Json → Progress → Result DiscoveryError Progress → Type 0
Gathered f q raws p (ok p') =
    (new : List NormalizedLog) × (parse_logs f q raws ≡ ok new) × (p'.logs ≡ p.logs ++ new)
Gathered f q raws p (err e) = Unit {0}

Gathered-accept :
    (f : LogFilter) (q r : BlockRange) (vs rest : List Json) (p : Progress)
    (logs : List NormalizedLog) (fp : Text) (result : Result DiscoveryError Progress)
    → Inside q r
    → parse_logs f r vs ≡ ok logs
    → Gathered f q rest (take_range p r logs fp) result
    → Gathered f q (vs ++ rest) p result
unfolding take_range
Gathered-accept f q r vs rest p logs fp (ok p') i h (new, parsed, e) = (
  logs ++ new,
  parse_logs-append f q vs rest logs new (parse_logs-widen f q r vs logs i h) parsed,
  e ∙ append_assoc p.logs logs new,
)
Gathered-accept f q r vs rest p logs fp (err e) i h g = tt

module _ {S : Type 0} (call : Json → ℕ → S → Result CallFault (Json × Text) × S) (c : Settings)
    (f : LogFilter) (chain : ℕ → List Json)
    (truthful : (r : BlockRange) (s : S) (vs : Elements) (fp : Text)
      → IsValid r
      → (read_range call f r s).0 ≡ ok (arr vs, fp)
      → length (elements vs) < c.result_cap
      → elements vs ≡ logs_from chain r.start (size r)) where
  scan_loop-Gathered :
      (q : BlockRange) (fuel : ℕ) (pending : List BlockRange) (p : Progress) (s : S)
      → Pending q pending
      → Gathered f q (logs_of_all chain pending) p (scan_loop call fuel c f pending p s).0
  unfolding scan_loop
  scan_loop-Gathered q fuel [] p s v = ([], unfold parse_logs in refl, sym (append-nil p.logs))
  scan_loop-Gathered q zero (r ∷ pending) p s v = tt
  scan_loop-Gathered q (suc fuel) (r ∷ pending) p s v =
      elim (judged c f r (read_range call f r s).0) [
        | gives_up e is _ _ ↦ rw (is, scan_loop) tt
        | halves is more ↦
            rw (is, scan_loop)
              (subst
                (λ raws.
                  Gathered f q raws p
                    (scan_loop call fuel c f (lower_half r ∷ upper_half r ∷ pending) p
                      (read_range call f r s).1).0)
                (sym (append_assoc (logs_of chain (lower_half r)) _ _)
                  ∙ ap (λ raws. raws ++ logs_of_all chain pending) (logs_of-halve chain r v.0))
                (scan_loop-Gathered q fuel (lower_half r ∷ upper_half r ∷ pending) p _
                  (omega arith, omega arith, (omega arith, omega arith, v.2))))
        | accepts vs logs fp is answer parsed below ↦
            rw (is, scan_loop)
              (rw (← truthful r s vs fp v.0 answer below) (
                Gathered-accept f q r (elements vs) (logs_of_all chain pending) p logs fp _ v.1
                  parsed (scan_loop-Gathered q fuel pending (take_range p r logs fp) _ v.2)))
      ]

  chunk_loop-Pending :
      (q : BlockRange) (fuel chunk cursor : ℕ)
      → 0 < chunk
      → q.start ≤ cursor
      → Pending q (chunk_loop fuel chunk cursor q.end_exclusive)
  unfolding chunk_loop
  chunk_loop-Pending q zero chunk cursor h le = tt
  chunk_loop-Pending q (suc fuel) chunk cursor h le =
      elim (Bool-cases (ltb cursor q.end_exclusive)) [
        | inl more ↦ rw more (
          ground arith,
          (le, omega arith),
          chunk_loop-Pending q fuel chunk (min (cursor + chunk) q.end_exclusive) h (ground arith),
        )
        | inr done ↦ rw done tt
      ]

  logs_of-chunk_loop :
      (fuel chunk cursor stop : ℕ)
      → 0 < chunk
      → stop - cursor ≤ fuel
      → logs_of_all chain (chunk_loop fuel chunk cursor stop)
        ≡ logs_from chain cursor (stop - cursor)
  unfolding chunk_loop
  logs_of-chunk_loop zero chunk cursor stop h enough =
      let e : stop - cursor ≡ 0 = omega arith in rw e
  logs_of-chunk_loop (suc fuel) chunk cursor stop h enough = elim (Bool-cases (ltb cursor stop)) [
    | inl more ↦
        let next = min (cursor + chunk) stop in
        let e : stop - cursor ≡ next - cursor + (stop - next) = ground arith in
        let t : next ≡ cursor + (next - cursor) = ground arith in
        rw more (
          rw (logs_of-chunk_loop fuel chunk next stop h (ground arith), e)
            (ap
                (λ (k : ℕ).
                  logs_from chain cursor (next - cursor) ++ logs_from chain k (stop - next))
                t
              ∙ sym (logs_from-append chain cursor (next - cursor) (stop - next))))
    | inr done ↦ let e : stop - cursor ≡ 0 = ground arith in rw (done, e)
  ]

  finish-logs :
      (q : BlockRange) (cs : List CompletedRange) (logs : List NormalizedLog) (scan : DiscoveryScan)
      → finish q cs logs ≡ ok scan
      → deduplicate_logs logs ≡ ok scan.logs
  unfolding finish
  finish-logs q cs logs scan h = ground arith

  finish_with-Gathered :
      (q : BlockRange) (raws : List Json) (result : Result DiscoveryError Progress × S)
      (scan : DiscoveryScan)
      → Gathered f q raws (start_progress call) result.0
      → (finish_with call q result).0 ≡ ok scan
      → (all : List NormalizedLog) × (parse_logs f q raws ≡ ok all)
        × (deduplicate_logs all ≡ ok scan.logs)
  finish_with-Gathered q raws (ok p, s) scan (new, parsed, e) h =
      (new, parsed, rw (← e) (finish-logs q p.completed p.logs scan h))
  finish_with-Gathered q raws (err e, s) scan g h = cc

  -- Suppose that the provider never answers for a non-empty range with fewer logs than the cap
  -- unless they are all the logs of the range, in the chain's order. Then a scan that returns has the logs of every
  -- requested block: they all decode, and the result is what `deduplicate_logs` makes of them.
  pub scan_filter_complete :
      (start stop : ℕ) (s : S) (scan : DiscoveryScan)
      → 0 < c.chunk_size
      → (scan_filter call c f start stop s).0 ≡ ok scan
      → let q : BlockRange = record { start = start; end_exclusive = stop } in
        (all : List NormalizedLog) × (parse_logs f q (logs_from chain start (stop - start))
          ≡ ok all)
        × (deduplicate_logs all ≡ ok scan.logs)
  unfolding scan_filter
  scan_filter_complete start stop s scan positive h = elim (Bool-cases (leb stop start)) [
    | inl empty ↦ absurd (cc (rw (empty, scan_filter) at h))
    | inr open_end ↦
        let q : BlockRange = record { start = start; end_exclusive = stop } in
        let chunks = chunk_loop (stop - start) c.chunk_size start stop in
        rw (← logs_of-chunk_loop (stop - start) c.chunk_size start stop positive (le_refl _)) (
          finish_with-Gathered q (logs_of_all chain chunks) _ scan
            (scan_loop-Gathered q (2 * (stop - start)) chunks (start_progress call) s
              (chunk_loop-Pending q (stop - start) c.chunk_size start positive (le_refl _)))
            (rw (open_end, scan_filter) at h))
  ]
