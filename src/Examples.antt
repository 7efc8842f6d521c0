-- ===== src/Examples.antt =====
-- Theorems applied at concrete inputs, with the data that the applications share.
mod Data
mod BetLog
mod Calls
mod Money
mod Recovered
mod Games
mod Withdrawn
mod Deposited
mod Leagues
mod Sessions
mod Cashouts
mod Paidout
