-- ===== src/Tests.antt =====
-- The theorems at concrete inputs, and runs of the definitions.
mod Text
mod Net
mod Sessions
mod Builds
mod Handlers
mod Database
mod Webhooks
mod Forms
mod Entries
mod Multipart
mod Projects
mod Files
mod Http
mod Site
