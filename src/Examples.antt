-- ===== src/Examples.antt =====
-- Tests of the definitions at concrete inputs, and the theorems at inputs that meet their
-- hypotheses.
mod Trickle
mod Codec
mod Wire
mod Answers
mod Query
mod Client
mod Requests
mod Http
mod Queue
mod Consumer
mod Cache
mod Vault
mod Geometry
mod Mapping
