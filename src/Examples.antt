-- ===== src/Examples.antt =====
-- The theorems at concrete inputs, and runs of the code.
pub mod Params
pub mod PairParams
pub mod DeskParams
mod Pair
mod Net
mod Frames
mod Screens
mod Input
mod Clip
mod Desk
mod Crossing
mod Vault
