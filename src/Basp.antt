-- ===== src/Basp.antt =====
-- libboost_actor_io/boost/actor/io/basp.hpp and libboost_actor_io/src/basp.cpp: the binary actor
-- system protocol. A `node_id` is the pointer to its data: `none` is `invalid_node_id`, and the
-- data is a type with a test that decides its equality.
pub mod Proxies
pub mod Header
pub mod Routing
pub mod Instance
