-- ===== src/Hello.antt =====
-- HELLO messages and what a node knows of its neighbours: code/aodv-uu-0.96/aodv_hello.c.
pub mod Cost
pub mod Neighbors
pub mod Send
pub mod Process
pub mod Ring
pub mod Sent
