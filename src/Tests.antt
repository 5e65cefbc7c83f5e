-- ===== src/Tests.antt =====
-- Runs of the definitions on concrete inputs, and instances of the theorems.
mod Session
mod Status
mod Filter
mod Multipart
mod Stt
mod Vocab
mod Inject
mod Pipeline
mod Audio
mod Logs
mod Config
mod Supervisor
mod Proc
mod Settings
mod Contract
mod Server
mod Setup
