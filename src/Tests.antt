-- ===== src/Tests.antt =====
-- Concrete runs of the definitions, and the instances of the theorems at them.
mod Imports
mod Budget
mod Assessment
mod Permitted
mod Explained
mod Metadata
mod Posixpath
mod Canonjson
mod Refedges
mod Stale
