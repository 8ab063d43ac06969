-- ===== src/Tests.antt =====
-- The theorems at concrete inputs: a platform on which the program runs, a small deployment, and an
-- example of each result.
mod Termination
pub mod Getopt
pub mod CommandLines
pub mod Served
mod Client
mod Distribution
pub mod Strings
pub mod Sorting
pub mod Checks
pub mod Machine
pub mod Upgrade
pub mod Installation
pub mod Arrays
pub mod Locks
pub mod Profiles
pub mod Moves
