-- ===== src/Tests.antt =====
-- Runs of the theorems on concrete data, by the part of the server that they are about.
mod Services
mod Library
mod Handlers
mod Data
mod Framework
mod Site
mod Weekly
mod Static
mod Register
