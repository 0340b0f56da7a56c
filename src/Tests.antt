-- ===== src/Tests.antt =====
-- Runs of the theorems at concrete inputs.
mod Records
mod Pages
mod Repairs
mod Transactions
mod Merges
mod Optimiser
mod Bins
mod BigValues
mod Plans
mod Indexes
mod LineScanner
mod RegTexts
