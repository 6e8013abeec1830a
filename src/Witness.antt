-- ===== src/Witness.antt =====
-- apps/dashboard/internal/witness: verification of certificates against the witness, and the
-- plain-language account of their L3 coverage. The records are the fields of the protobuf messages
-- that the package reads.
pub mod L3
pub mod Client
