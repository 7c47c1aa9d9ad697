-- ===== src/Tests.antt =====
-- Runs of the code on concrete inputs, over a scripted device and a fixed-point `double`, and the
-- theorems at such inputs.
pub mod Fake
mod Capture
mod Feeding
mod Texts
mod Pages
mod Kernel
mod Mains
mod Servers
mod Programs
