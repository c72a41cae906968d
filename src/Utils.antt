-- ===== src/Utils.antt =====
-- The helpers of pySim/utils.py that compute: command APDUs, check digits, numbers of networks and
-- subscribers, status words.
pub mod Apdu
pub mod Luhn
pub mod Strings
pub mod Plmn
pub mod Access
pub mod Imsi
pub mod DataObjects
pub mod Commands
mod Runs
