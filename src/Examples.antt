-- ===== src/Examples.antt =====
-- Tests of the definitions on inputs that can be followed in the source, and instances of the
-- theorems, one file for each part of the program.
mod Topics
mod Grants
mod Commands
mod Repeated
mod Denials
mod Doors
mod Uplink
mod Stored
mod Away
mod Appends
mod Children
