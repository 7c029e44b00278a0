-- ===== src/Runs.antt =====
-- analyze/exporting/tls_result_svg/runs.py: the rows of summary metadata, grouped by run.
pub mod Rows
pub mod Comparison
pub mod Build
pub mod Origins
pub mod Metadata
pub mod Summary
pub mod TlsComparison
