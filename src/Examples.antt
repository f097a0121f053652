-- ===== src/Examples.antt =====
-- Each theorem of the list of results at an input of its own.
mod Shelf
mod Storing
mod Replicating
mod Cataloguing
mod Composing
mod Folders
mod Browsing
mod Announcing
mod Using
mod Stepping
mod Thousandths
mod Analysing
mod Requesting
mod Buckets
mod Migrating
mod Serving
