-- ===== src/Farmerbot/Tests.antt =====
-- The theorems at concrete inputs, for which their hypotheses hold.
mod Power
mod Requests
mod Rounds
