-- ===== src/Runtime.antt =====
-- The runtime around the pallets, none of which is code of this repository: the fixed-point
-- numbers and the 256-bit integers of Substrate (`FixedU128`, `U256`). They are parameters of
-- the model, with what their documentation says as laws.
pub mod Numbers
