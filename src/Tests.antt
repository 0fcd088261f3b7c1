-- ===== src/Tests.antt =====
-- Inputs for the theorems, and runs of the model on them.
mod Samples
mod Forward
mod Syslog
mod Store
mod Writer
mod Sender
mod Server
mod Config
mod Service
mod Export
mod Hannah
mod Main
