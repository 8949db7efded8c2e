-- ===== src/Bench/Report.antt =====
-- src/bin/bench_report.rs: the results of the runs, and the rows that are printed of them, as data.
-- Floats are a parameter; the layout of the text and the bar charts are left out.
pub mod Tolerance
pub mod Scaling
use bft_consensus_bench.Base.{
  ℕ, zero, suc, ◌+◌, ◌/◌, ◌%◌, ◌==◌, Bool, true, false, ◌||◌, Option, none, some, List, [], ◌∷◌,
  ◌++◌, map, ltb, ◌>>=◌, if◌then◌else◌, sub_u64, length, get_elem?, keep_if,
}

pub data Protocol : Type 0 where
  pbft hotstuff raft : Protocol

abbrev pub same_protocol : Protocol → Protocol → Bool
same_protocol pbft pbft = true
same_protocol hotstuff hotstuff = true
same_protocol raft raft = true
same_protocol _ _ = false

pub record BenchResult (Float : Type 0) : Type 0 where
  pub total_ms : Float
  pub per_op_us : Float
  pub total_messages : ℕ
  pub messages_tampered : ℕ

pub record RunResult (Float : Type 0) : Type 0 where
  pub protocol : Protocol
  pub nodes : ℕ
  pub byzantine : Bool
  pub bench : BenchResult Float

abbrev pub num_proposals : ℕ
num_proposals = 500

abbrev pub warmup_proposals : ℕ
warmup_proposals = 10

-- The column of the fault tolerance, of the table and of the CSV file.
unfoldable pub tolerance : Protocol → ℕ → ℕ
tolerance pbft nodes = sub_u64 nodes 1 / 3
tolerance hotstuff nodes = sub_u64 nodes 1 / 3
tolerance raft nodes = sub_u64 nodes 1 / 2

pub record CsvRow (Float : Type 0) : Type 0 where
  pub protocol : Protocol
  pub nodes : ℕ
  pub fault_tolerance : ℕ
  pub total_ms : Float
  pub per_op_us : Float
  pub total_messages : ℕ
  pub msgs_per_op : Float
  pub byzantine : Bool
  pub messages_tampered : ℕ

-- A line of the table: a row, or a rule below every third one.
pub data TableLine (Float : Type 0) : Type 0 where
  row :
      (protocol : Protocol) (nodes tolerance : ℕ) (total_ms per_op_us : Float) (total_messages : ℕ)
      → TableLine Float
  rule : TableLine Float

-- The arithmetic on floats: the quotient of two counts, and the overhead in percent of a time over
-- another, 0 where that is not positive.
pub record Ratios (Float : Type 0) : Type 0 where
  pub quotient : ℕ → ℕ → Float
  pub overhead_pct : Float → Float → Float

module _ {Float : Type 0} (ratios : Ratios Float) where
  unfoldable pub csv_row : RunResult Float → CsvRow Float
  unfolding tolerance
  csv_row r = record {
    protocol = r.protocol;
    nodes = r.nodes;
    fault_tolerance = tolerance r.protocol r.nodes;
    total_ms = r.bench.total_ms;
    per_op_us = r.bench.per_op_us;
    total_messages = r.bench.total_messages;
    msgs_per_op = ratios.quotient r.bench.total_messages num_proposals;
    byzantine = r.byzantine;
    messages_tampered = r.bench.messages_tampered;
  }

  unfoldable pub print_csv : List (RunResult Float) → List (RunResult Float) → List (CsvRow Float)
  unfolding csv_row
  print_csv results byz_results = map csv_row (results ++ byz_results)

  -- The pairs of a clean and a Byzantine run; a last one without its pair is left out.
  unfoldable pub overhead_rows :
      List (RunResult Float) → List (RunResult Float × RunResult Float × Float)
  overhead_rows [] = []
  overhead_rows (clean ∷ []) = []
  overhead_rows (clean ∷ byz ∷ rest) =
      (clean, byz, ratios.overhead_pct clean.bench.per_op_us byz.bench.per_op_us)
      ∷ overhead_rows rest

  unfoldable pub results_of : Protocol → List (RunResult Float) → List (RunResult Float)
  results_of p results = keep_if (λ r. same_protocol r.protocol p) results

  -- `vals[0], vals[1], vals[2]`, which panics when there are fewer.
  unfoldable pub scaling_row :
      Protocol → List (RunResult Float) → Option (Protocol × (Float × Float × Float))
  unfolding results_of
  scaling_row p results =
      let vals =
        map (λ r. ratios.quotient r.bench.total_messages num_proposals) (results_of p results) in
      do v0 ← get_elem? vals 0; v1 ← get_elem? vals 1; v2 ← get_elem? vals 2; some (p, (v0, v1, v2))

  unfoldable pub scaling_rows :
      List (RunResult Float) → Option (List (Protocol × (Float × Float × Float)))
  unfolding scaling_row
  scaling_rows results =
      let rows : Option (List (Protocol × (Float × Float × Float))) = do
        a ← scaling_row pbft results
        b ← scaling_row hotstuff results
        c ← scaling_row raft results
        some (a ∷ b ∷ c ∷ [])
      in if ltb (length (results_of pbft results)) 2 || ltb (length (results_of raft results)) 2
        then some []
        else rows

  -- The ratios of the messages of two protocols, size by size.
  unfoldable pub ratio_rows : List (RunResult Float) → List (RunResult Float) → List (ℕ × Float)
  ratio_rows (p ∷ ps) (r ∷ rs) =
      (p.nodes, ratios.quotient p.bench.total_messages r.bench.total_messages) ∷ ratio_rows ps rs
  ratio_rows _ _ = []

  -- PBFT to Raft, and PBFT to HotStuff, after the rows of the chart.
  unfoldable pub scaling_ratios : List (RunResult Float) → List (ℕ × Float) × List (ℕ × Float)
  unfolding ratio_rows results_of
  scaling_ratios results =
      let pbft_results = results_of pbft results in
      (
        ratio_rows pbft_results (results_of raft results),
        ratio_rows pbft_results (results_of hotstuff results),
      )

module _ {Float : Type 0} where
  -- Row `i` and the ones after it.
  unfoldable pub table_from : ℕ → List (RunResult Float) → List (TableLine Float)
  unfolding tolerance
  table_from i [] = []
  table_from i (r ∷ results) =
      let line =
        row r.protocol r.nodes (tolerance r.protocol r.nodes) r.bench.total_ms r.bench.per_op_us
          r.bench.total_messages in
      let rest = table_from (suc i) results in line ∷ (if i % 3 == 2 then rule ∷ rest else rest)

  -- The rule and the rows below the heading.
  unfoldable pub print_table : List (RunResult Float) → List (TableLine Float)
  unfolding table_from
  print_table results = rule ∷ table_from 0 results
