-- ===== src/Tests.antt =====
-- The theorems at concrete inputs.
mod Compare
mod Times
mod Answers
mod Summaries
mod Imports
mod Drawn
mod TlsCells
mod RawFiles
mod Lines
mod Pooled
mod Exports
