-- ===== src/Metrics/Reported.antt =====
-- What a snapshot of the collector reports of the named counters.
use iddo_harness.Prelude.{
  ℕ, ◌≡◌, refl, ◌∙◌, String, ◌==◌, eq_iff, true, false, Option, some, List, [], ◌∷◌, arith, is_none,
  Bool-cases, inl, inr, All,
}
use iddo_harness.Prelude.Dict.{Dict, lookup, put, lookup-put}
use iddo_harness.Prelude.Ids.{contains}
use iddo_harness.Json.{ℤ, pos}
use iddo_harness.Metrics.{
  Metrics, named_counters, count_of, Entry, amount, add_counters, core_gauges, add_core,
  add_missing, read_gauges, latency_of, base_doc, snapshot,
}

differ :
    (names : List String) (k name : String)
    → contains names k ≡ false
    → contains names name ≡ true
    → (k == name) ≡ false
differ names k name out h = elim (Bool-cases (k == name)) [
  | inl e ↦
      let same : k ≡ name = ground (arith, eq_iff k name) in
      let within : contains names k ≡ true = rw same h in cc
  | inr e ↦ e
]

add_counters-keeps :
    (name : String) (counters : Dict ℕ) (doc : Dict Entry)
    → contains named_counters name ≡ true
    → lookup name (add_counters counters doc) ≡ lookup name doc
unfolding add_counters
add_counters-keeps name [] doc h = refl
add_counters-keeps name ((k, n) ∷ counters) doc h = elim (Bool-cases (contains named_counters k)) [
  | inl e ↦ rw (add_counters, e) (add_counters-keeps name counters doc h)
  | inr e ↦
      let other : (k == name) ≡ false = differ named_counters k name e h in
      rw
        (
          add_counters,
          e,
          add_counters-keeps name counters (put k (amount (pos n)) doc) h,
          lookup-put k name (amount (pos n)) doc,
          other,
        )
        refl
]

add_core-keeps :
    (name : String) (names : List String) (gauges : Dict ℤ) (doc : Dict Entry)
    → contains names name ≡ false
    → lookup name (add_core names gauges doc) ≡ lookup name doc
unfolding add_core contains
add_core-keeps name [] gauges doc h = refl
add_core-keeps name (k ∷ names) gauges doc h =
    rw
      (
        add_core,
        add_core-keeps name names gauges (put k _ doc) (ground arith),
        lookup-put k name _ doc,
      )
      (ground arith)

add_missing-keeps :
    (name : String) (gauges : Dict ℤ) (doc : Dict Entry) (e : Entry)
    → lookup name doc ≡ some e
    → lookup name (add_missing gauges doc) ≡ some e
unfolding add_missing
add_missing-keeps name [] doc e h = h
add_missing-keeps name ((k, n) ∷ gauges) doc e h = elim (Bool-cases (is_none (lookup k doc))) [
  | inl missing ↦
      let other : (k == name) ≡ false = ground (arith, eq_iff k name) in
      rw (add_missing, missing)
        (add_missing-keeps name gauges (put k (amount n) doc) e
          (rw (lookup-put k name (amount n) doc, other) h))
  | inr there ↦ rw (add_missing, there) (add_missing-keeps name gauges doc e h)
]

snapshot_reports :
    (provided : String → Option ℤ) (r50 r95 r99 : ℕ → ℕ) (m : Metrics) (name : String) (e : Entry)
    → contains named_counters name ≡ true
    → contains core_gauges name ≡ false
    → ("latency_start_to_complete" == name) ≡ false
    → ("latency_poll_to_start" == name) ≡ false
    → lookup name (base_doc m) ≡ some e
    → lookup name (snapshot provided r50 r95 r99 m) ≡ some e
unfolding snapshot
snapshot_reports provided r50 r95 r99 m name e named not_core not_run not_wait h =
    let gauges = read_gauges provided m.gauges m.static_gauges in
    let counted = add_counters m.counters (base_doc m) in
    let start_entry = latency_of r50 r95 r99 m.poll_to_start in
    let run_entry = latency_of r50 r95 r99 m.start_to_complete in
    let doc = add_missing gauges (add_core core_gauges gauges counted) in
    let kept = add_missing-keeps name gauges (add_core core_gauges gauges counted) e (
      add_core-keeps name core_gauges gauges counted not_core
      ∙ (add_counters-keeps name m.counters (base_doc m) named ∙ h)) in
    rw
      (
        lookup-put "latency_start_to_complete" name run_entry
            (put "latency_poll_to_start" start_entry doc),
        not_run,
        lookup-put "latency_poll_to_start" name start_entry doc,
        not_wait,
      )
      kept

-- A snapshot reports each of the four named counters as it stands, whatever other counters and gauges
-- are called.
pub snapshot-named :
    (provided : String → Option ℤ) (r50 r95 r99 : ℕ → ℕ) (m : Metrics)
    → All
        (λ name.
          lookup name (snapshot provided r50 r95 r99 m)
          ≡ some (amount (pos (count_of name m.counters))))
        named_counters
unfolding base_doc lookup contains
snapshot-named provided r50 r95 r99 m =
    let reports = snapshot_reports provided r50 r95 r99 m in
    (
      reports "tasks_total" _ refl refl refl refl refl,
      (
        reports "shell_bytes_streamed" _ refl refl refl refl refl,
        (
          reports "chunks_pushed" _ refl refl refl refl refl,
          (reports "retries_total" _ refl refl refl refl refl, tt),
        ),
      ),
    )
