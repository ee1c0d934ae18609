-- ===== src/Tests.antt =====
-- Runs on concrete inputs, and the theorems at inputs that meet their hypotheses.
mod Codecs
mod Receive
mod Send
mod Udp
mod Lane
mod Fragments
mod Announce
mod Participants
mod Dsoftbus
mod Over
