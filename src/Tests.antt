-- ===== src/Tests.antt =====
-- The definitions at concrete inputs: a device of one package of one die with two planes of two blocks.
mod Sessions
mod Witnesses
mod Parts
mod Liveness
mod Others
