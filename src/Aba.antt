-- ===== src/Aba.antt =====
-- honeybadgerbft/core/binaryagreement.py
pub mod Defs
pub mod Receive
pub mod Rounds
mod Steps
mod Sends
mod Senders
mod Received
mod Main
mod Conf
mod Halt
mod Heard
mod Estimate
mod Lock
mod Tests
