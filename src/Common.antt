-- ===== src/Common.antt =====
-- analyze/exporting/tls_result_svg/common.py, and `run_family` of runs.py beside it.
pub mod RunIds
pub mod Numbers
pub mod Slots
pub mod Timestamps
pub mod Inputs
