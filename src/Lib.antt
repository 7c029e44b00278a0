-- ===== src/Lib.antt =====
-- where-to-tls measures what the place of TLS termination costs. k6 drives servers and leaves result
-- files; analyze/files/import-results.py puts them into InfluxDB; the package
-- analyze/exporting/tls_result_svg reads summary rows and raw points back, checks that the runs it was
-- given are complete and comparable, and draws charts. This library models the importer's and the
-- exporter's logic between the reading of rows and the drawing. An exporter that draws from incomplete
-- or mixed runs compares what cannot be compared, so the checks are what the theorems are about.
--
-- How the parts follow one another in the program: the supplied Run IDs (common.py: artifact_run_id)
-- and the summary rows become comparisons (runs.py: build_comparisons, validate_metadata) or scenario
-- groups (runs.py: build_summary_cells, build_scenario_summary_groups); the raw rows become origins
-- (runs.py: parse_origins); select_charts of exporter.py says which charts are drawn; and the answers of
-- the queries become the data of a chart (datasets.py).
--
-- The files, with the code in analyze/ that they model:
-- - Base: Python's builtins as far as the code uses them. Faults has a constructor for each exception
--   that the code raises, and Result, a call that raises or returns; Loops has `for` loops and
--   comprehensions that may raise; Mapping has dicts as association lists in insertion order; Sets has
--   sets as lists of which only membership is asked; Sorting has `sorted`; Int has Python's int; Decimal
--   has the printing of a number and Increasing equates increasing lists with the same items; Growth has dicts that
--   only grow, with the agreement of `setdefault`; Text
--   has texts and the matching of the patterns' pieces; Padding has `ljust` and slices; Equality has
--   `==`.
-- - Config, Config/Charts (config.py): the stacks, families and profiles as data types, and the tables.
-- - Common/RunIds (common.py: artifact_run_id; runs.py: run_family), Common/Slots (common.py:
--   profile_slot; runs.py: expected_executions), Common/Timestamps (common.py: timestamp_ns, flux_time),
--   Common/Numbers (common.py: finite_number, exact_count), Common/Inputs (common.py: split_selections,
--   read_token_file).
-- - Runs/Rows (the grouping of rows by run), Runs/Comparison (ordered_stacks, family_runs,
--   validate_metadata), Runs/Build (build_comparisons), Runs/Origins (parse_origins), Runs/Summary
--   (build_summary_cells), Runs/Summary/Groups (build_scenario_summary_groups), Runs/TlsComparison
--   (build_tls_comparison) and Runs/Metadata (parse_scenario_metadata_rows), all of runs.py.
-- - Datasets/Buckets (elapsed_bucket_ns), Datasets/Collect (the loop that two functions share),
--   Datasets/Percentiles (parse_percentiles, parse_pooled_percentiles), Datasets/FailureRates
--   (parse_failure_rates), Datasets/Segments (parse_aggregate_rows), Datasets/Pooled
--   (execution_elapsed_seconds, pooled_byte_values), all of datasets.py.
-- - Exporter (chart_names, chart_specs, select_charts), Exporter/Reuse (reusable_svg), Exporter/Export
--   (export), Exporter/Cells (cell_executions and file names) and Exporter/TlsCells
--   (tls_configuration_executions, file names and Run IDs of a cell, validate_tls_comparison), all of
--   exporter.py.
-- - Importer/Timestamps (timestamp_ns), Importer/Json and Importer/Evidence (tls_group_metadata,
--   require_comparable_tls_groups), Importer/Tags (execution_tags), Importer/RawFile (the points of
--   write_raw_file), Importer/Batches (its batches), all of files/import-results.py.
-- - Tests: the theorems at concrete inputs. The other files below these hold proofs.
--
-- Conventions. A row is a dict of texts, as the csv reader gives it. A state that the code mutates is a
-- record that a round of the loop takes and returns, and an early `raise` ends the loop. A fault keeps
-- the subject of its message, not the whole text. The keys that the code makes itself (stacks,
-- families, profiles) are constructors; what it reads is text. Every loop is over a list that is given,
-- so no fuel is needed. Floats are a parameter, the record Floats of Common/Numbers, with the operations
-- that the code calls and no law; `sum` of floats adds from the left (Python 3.12 and later compensate
-- its rounding). The record Surroundings of Exporter/Export holds what `export` gets
-- from the database, from the metadata of an SVG file and from the drawing functions; the record
-- Conversions of Importer/RawFile holds `float` and `str` on JSON values, with the law that `str` of a
-- text is the text. The points that write_raw_file has written before it raises stay written, which its
-- model, a result or a fault, does not show. `\d`, `int` and `strip` are modelled on ASCII; Python also takes other
-- decimal digits and spaces. `datetime.fromisoformat` is modelled on `YYYY-MM-DDTHH:MM:SS`; the importer
-- calls it without a pattern, so it may read more forms of a time than its model, which raises there. A
-- JSON float is a decimal; one that is too small for a float counts as not zero.
--
-- Not modelled: the servers, the load generator, infrastructure and charts of Kubernetes (other
-- languages); the query texts and the HTTP client (influx.py), the command line (cli.py) and the
-- drawing of SVG (svg.py, timelines.py, bars.py, scenario_tables.py, tls_charts.py), which is layout in
-- floats; the loops of exporter.py over scenario summaries and over the charts of the TLS comparison
-- (export_scenario_summaries, export_tls_comparison), and of the importer over the fields of a summary
-- (summary_records).
pub mod Base
pub mod Config
pub mod Common
pub mod Importer
pub mod Runs
pub mod Datasets
pub mod Exporter
mod Tests
