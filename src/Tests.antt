-- ===== src/Tests.antt =====
-- Tests of the definitions on concrete inputs, and the theorems at such inputs.
mod Caches
mod Blocks
mod Tables
mod Links
mod Threading
mod Waiting
mod Trees
mod Files
mod Creates
mod Formats
mod Removes
