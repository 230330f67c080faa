-- ===== src/Tests.antt =====
-- Concrete runs: each theorem of the header's list that has hypotheses or variables, at one input.
mod Storage
mod Scheduler
mod Browser
mod Models
mod Granted
mod Launch
mod Services
mod Sockets
mod Stops
mod Chats
