-- ===== src/EndToEnd.antt =====
-- The parts of the program together: from a script file to the answer to a message.
pub mod Added
pub mod Started
pub mod Page
