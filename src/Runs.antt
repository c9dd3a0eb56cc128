-- ===== src/Runs.antt =====
-- Concrete runs: an instance on the macOS driver's flash that holds one record, and a small chip behind
-- the RP2040's bus.
mod Flash
mod Chip
mod Device
mod Pi
mod Tool
mod Pages
mod Logs
mod Appends
mod Full
mod Timed
