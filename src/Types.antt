-- ===== src/Types.antt =====
-- The shared types of the browser app: apps/web/src/types.ts, with the role vocabulary of
-- pairingRoles.ts. Optional fields are `Option`; numbers are naturals; a channel id is the decimal
-- numeral that the source keeps as a string.
mod Participant
mod Bags
mod Recovery
mod Vaults
pub use Participant.*
pub use Bags.*
pub use Recovery.*
pub use Vaults.*
