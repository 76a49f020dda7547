-- ===== src/Examples.antt =====
-- The theorems applied at concrete values: a platform whose "misc" partition is a list of 64 bytes,
-- the metadata that reset_metadata writes, small texts and messages, a pool of memory, a partition
-- table, a boot disk, and the tools of the host.
mod Disk
mod Boots
mod Codec
mod Device
mod Kernel
mod Host
mod Memory
mod Table
mod Discover
mod Devices
mod Audio
mod Start
