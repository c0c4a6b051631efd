-- ===== src/Examples.antt =====
-- Concrete kernels, and the theorems at them.
mod Lists
mod Samples
mod Queued
mod Donated
mod Numbers
mod Allocated
mod Swapped
mod Paged
mod Hashed
mod Stored
mod Buffered
mod Called
mod Started
