-- ===== src/Tests.antt =====
-- Runs of the model on concrete inputs, and the theorems at inputs that meet their hypotheses.
mod Data
mod Words
mod Maps
mod Wire
mod Histories
mod Admissions
mod Streams
