-- ===== src/Examples.antt =====
-- The theorems at work on the small plant of Plant.antt, and test runs of the code.
mod Searching
mod Returning
mod Removing
mod Replaying
mod Swarming
mod Tapped
mod Nodes
mod Stored
mod Programs
mod Printed
