-- ===== src/Tests.antt =====
-- Runs of the model, and the theorems at concrete inputs.
mod Machine
mod Pools
mod Values
mod Program
mod Lifetimes
mod Blocks
mod Directories
mod Folders
mod Removals
mod Mapper
mod Libraries
mod Archives
mod Traces
mod Crashes
mod Memories
mod Grids
mod Restarts
