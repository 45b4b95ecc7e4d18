-- ===== src/Checks.antt =====
-- The theorems at concrete inputs, and runs of the code on them. A network is a number that contains
-- itself alone, and EDNS data are their payload.
mod World
mod Parts
mod Serving
mod Login
