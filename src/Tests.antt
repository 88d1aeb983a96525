-- ===== src/Tests.antt =====
-- The properties at concrete inputs.
mod Codecs
mod Amounts
mod Accounts
mod Registrations
mod Validators
mod Blocks
mod Certificates
mod Pool
mod Evidences
mod Economy
mod Chain
mod Roots
