-- ===== src/Tests.antt =====
-- Runs of the model on concrete inputs, with concrete stand-ins for libgnutls.
mod Library
mod Reading
mod Names
mod Serving
mod Sessions
mod Reactor
mod Keys
mod Loader
mod Opening
mod Signed
mod Validating
