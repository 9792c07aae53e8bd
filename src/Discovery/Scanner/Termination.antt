-- ===== src/Discovery/Scanner/Termination.antt =====
-- The scan ends, and a scan that ends has covered the requested range: the loop reads no range
-- twice and skips none.
use mathlib.Core.List.{map-append}
use rpc_state_indexer.Prelude.{
  ℕ, zero, suc, ◌+◌, ◌-◌, ◌*◌, ◌<◌, ◌≤◌, ◌≡◌, ◌≢◌, refl, ◌∙◌, false, ◌||◌, inl, inr, List, [], ◌∷◌,
  ◌++◌, All, All-append, Result, ok, err, Bool-cases, RaisesOnly, RaisesOnly-ok, RaisesOnly-bind,
  Result-cases, arith, leb, length, ◌==◌,
}
use rpc_state_indexer.Prelude.Text.{Text}
use rpc_state_indexer.Json.{Json, null, arr, Elements, elements}
use rpc_state_indexer.Discovery.Coverage.{
  BlockRange, size, lower_half, upper_half, contains, covered, IsValid,
}
use rpc_state_indexer.Discovery.Fault.{
  DiscoveryError, response, range_failed, out_of_fuel, uncovered, RangeFault, one_block_limit,
  one_block_cap, rpc_failed, not_array,
}
use rpc_state_indexer.Discovery.Log.{LogFilter, NormalizedLog, parse_log}
use rpc_state_indexer.Discovery.Log.Laws.{FromResponse, from, parse_log-raises}
use rpc_state_indexer.Discovery.Scanner.{
  CallFault, provider_limit, other, Settings, parse_logs, ranges_of, give_up, halve, accept, judge,
  Progress, take_range, read_range, scan_loop,
}

-- The rounds that a list of ranges can take: a range of `n` blocks is at worst split down to its
-- blocks, which makes `2 * n - 1` reads.
abbrev pub rounds : List BlockRange → ℕ
rounds [] = 0
rounds (r ∷ rs) = 2 * size r - 1 + rounds rs

rounds-halve :
    (r : BlockRange) (rs : List BlockRange)
    → 2 ≤ size r
    → suc (rounds (lower_half r ∷ upper_half r ∷ rs)) ≡ rounds (r ∷ rs)
rounds-halve r rs h = omega arith

pub covered-halve :
    (r : BlockRange) (b : ℕ)
    → contains r b ≡ (contains (lower_half r) b || contains (upper_half r) b)
covered-halve r b = ground arith

-- What the judgement of one answer is, with what it says of the range and the logs.
pub data Judged (c : Settings) (f : LogFilter) (r : BlockRange) (a : Result CallFault (Json × Text))
    : Type 0 where
  gives_up :
      (e : DiscoveryError)
      → judge c f r a ≡ give_up e
      → e ≢ range_failed out_of_fuel
      → ((gs : List BlockRange) → e ≢ range_failed (uncovered gs))
      → Judged c f r a
  halves : judge c f r a ≡ halve → size r ≢ 1 → Judged c f r a
  accepts :
      (vs : Elements) (logs : List NormalizedLog) (fingerprint : Text)
      → judge c f r a ≡ accept logs fingerprint
      → a ≡ ok (arr vs, fingerprint)
      → parse_logs f r (elements vs) ≡ ok logs
      → length (elements vs) < c.result_cap
      → Judged c f r a

-- An error of the response is none of the faults of a loop that ended badly.
pub FromResponse-ne : (e : DiscoveryError) (k : RangeFault) → FromResponse e → e ≢ range_failed k
FromResponse-ne e k (from f) = λ h. cc

parse_logs-raises :
    (f : LogFilter) (r : BlockRange) (vs : List Json) → RaisesOnly FromResponse (parse_logs f r vs)
unfolding parse_logs
parse_logs-raises f r [] = RaisesOnly-ok []
parse_logs-raises f r (v ∷ vs) = RaisesOnly-bind (parse_log f r v) _ (parse_log-raises f r v) λ log.
    RaisesOnly-bind (parse_logs f r vs) _ (parse_logs-raises f r vs)
      λ logs. RaisesOnly-ok (log ∷ logs)

module _ (c : Settings) (f : LogFilter) (r : BlockRange) where
  Judged-accept :
      (vs : Elements) (fingerprint : Text)
      → leb c.result_cap (length (elements vs)) ≡ false
      → Judged c f r (ok (arr vs, fingerprint))
  unfolding judge
  Judged-accept vs fp below = elim (Result-cases (parse_logs f r (elements vs))) [
    | inl (logs, e) ↦ accepts vs logs fp (rw (below, e)) refl e (ground arith)
    | inr (fault, e) ↦
        let p : FromResponse fault = (parse_logs-raises f r (elements vs)).at fault e in
        gives_up fault (rw (below, e)) (FromResponse-ne fault _ p) (λ gs. FromResponse-ne fault _ p)
  ]

  pub judged : (a : Result CallFault (Json × Text)) → Judged c f r a
  unfolding judge
  judged (err provider_limit) = elim (Bool-cases (size r == 1)) [
    | inl one ↦ gives_up (range_failed (one_block_limit r.start)) (rw one) (λ h. cc) (λ gs h. cc)
    | inr more ↦ halves (rw more) (ground arith)
  ]
  judged (err other) = gives_up (range_failed (rpc_failed r)) refl (λ h. cc) (λ gs h. cc)
  judged (ok (arr vs, fp)) = elim (Bool-cases (leb c.result_cap (length (elements vs)))) [
    | inl full ↦ elim (Bool-cases (size r == 1)) [
      | inl one ↦
          gives_up (range_failed (one_block_cap r.start)) (rw (full, one)) (λ h. cc) (λ gs h. cc)
      | inr more ↦ halves (rw (full, more)) (ground arith)
    ]
    | inr below ↦ Judged-accept vs fp below
  ]
  judged (ok (null, fp)) = gives_up (response not_array) refl (λ h. cc) (λ gs h. cc)
  judged (ok (_, fp)) = gives_up (response not_array) refl (λ h. cc) (λ gs h. cc)

-- What the loop promises of its result, from the ranges that are pending and the progress so far.
abbrev pub Scanned : List BlockRange → Progress → Result DiscoveryError Progress → Type 0
Scanned pending p (ok p') =
    All IsValid (ranges_of p'.completed)
    × ((b : ℕ)
        → covered (ranges_of p'.completed) b
          ≡ (covered (ranges_of p.completed) b || covered pending b))
Scanned pending p (err e) =
    (e ≢ range_failed out_of_fuel) × ((gs : List BlockRange) → e ≢ range_failed (uncovered gs))

ranges_of-take_range :
    (p : Progress) (r : BlockRange) (logs : List NormalizedLog) (fp : Text)
    → ranges_of (take_range p r logs fp).completed ≡ ranges_of p.completed ++ r ∷ []
unfolding take_range
ranges_of-take_range p r logs fp = map-append _ p.completed _

covered-append :
    (rs qs : List BlockRange) (b : ℕ) → covered (rs ++ qs) b ≡ (covered rs b || covered qs b)
covered-append [] qs b = refl
covered-append (r ∷ rs) qs b = ground (arith, covered-append rs qs b)

covered-take_range :
    (p : Progress) (r : BlockRange) (logs : List NormalizedLog) (fp : Text)
    (pending : List BlockRange) (b : ℕ)
    → (covered (ranges_of (take_range p r logs fp).completed) b || covered pending b)
      ≡ (covered (ranges_of p.completed) b || covered (r ∷ pending) b)
covered-take_range p r logs fp pending b =
    rw (ranges_of-take_range p r logs fp)
      (ground (arith, covered-append (ranges_of p.completed) (r ∷ []) b))

take_range-IsValid :
    (p : Progress) (r : BlockRange) (logs : List NormalizedLog) (fp : Text)
    → All IsValid (ranges_of p.completed)
    → IsValid r
    → All IsValid (ranges_of (take_range p r logs fp).completed)
take_range-IsValid p r logs fp w v =
    rw (ranges_of-take_range p r logs fp) (All-append IsValid _ (r ∷ []) w (v, tt))

Scanned-change :
    (pending pending' : List BlockRange) (p p' : Progress) (result : Result DiscoveryError Progress)
    → ((b : ℕ)
        → (covered (ranges_of p.completed) b || covered pending b)
          ≡ (covered (ranges_of p'.completed) b || covered pending' b))
    → Scanned pending p result
    → Scanned pending' p' result
Scanned-change pending pending' p p' (ok q) same h = (h.0, λ b. h.1 b ∙ same b)
Scanned-change pending pending' p p' (err e) same h = h

module _ {S : Type 0} (call : Json → ℕ → S → Result CallFault (Json × Text) × S) (c : Settings)
    (f : LogFilter) where
  -- With a round for every read that the pending ranges can take, the loop does not run out of
  -- fuel; where it returns, it has completed the pending ranges on top of what was completed.
  pub scan_loop-Scanned :
      (fuel : ℕ) (pending : List BlockRange) (p : Progress) (s : S)
      → rounds pending ≤ fuel
      → All IsValid pending
      → All IsValid (ranges_of p.completed)
      → Scanned pending p (scan_loop call fuel c f pending p s).0
  unfolding scan_loop
  scan_loop-Scanned fuel [] p s enough v w = (w, λ b. ground arith)
  scan_loop-Scanned zero (r ∷ pending) p s enough v w = absurd (omega arith)
  scan_loop-Scanned (suc fuel) (r ∷ pending) p s enough v w =
      elim (judged c f r (read_range call f r s).0) [
        | gives_up e is fuel_ne gaps_ne ↦ rw (is, scan_loop) (fuel_ne, gaps_ne)
        | halves is more ↦
            rw (is, scan_loop)
              (Scanned-change (lower_half r ∷ upper_half r ∷ pending) (r ∷ pending) p p _
                (λ b. ground (arith, covered-halve r b))
                (scan_loop-Scanned fuel (lower_half r ∷ upper_half r ∷ pending) p _ (omega arith)
                  (omega arith, (omega arith, v.1)) w))
        | accepts vs logs fp is answer parsed below ↦
            rw (is, scan_loop)
              (Scanned-change pending (r ∷ pending) (take_range p r logs fp) p _
                (λ b. covered-take_range p r logs fp pending b)
                (scan_loop-Scanned fuel pending (take_range p r logs fp) _ (omega arith) v.1
                  (take_range-IsValid p r logs fp w v.0)))
      ]
