-- ===== src/Datasets.antt =====
-- analyze/exporting/tls_result_svg/datasets.py: the answers of the queries, checked and put together.
pub mod Buckets
pub mod Segments
pub mod Pooled
pub mod Collect
pub mod Percentiles
pub mod FailureRates
