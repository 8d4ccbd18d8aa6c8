-- ===== src/Examples.antt =====
-- The theorems at concrete inputs, and runs of the program on small states.
mod Data
mod Feed
mod Connection
mod Commands
mod Layout
mod Flow
mod Consensus
mod Bus
mod Elections
mod Screens
mod Serving
