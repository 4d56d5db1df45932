-- ===== src/Tests.antt =====
-- Runs of the program, and the theorems at concrete inputs.
mod Schema
mod Runner
mod Producer
mod Races
mod Documents
mod Searches
mod Numbers
mod Kills
mod Spies
mod Trials
mod Controls
mod Pairs
mod Greetings
mod Waiting
mod Shutdowns
mod Demonstrations
mod Endings
mod Torn
mod Twins
mod Threads
