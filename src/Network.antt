-- ===== src/Network.antt =====
-- include/network.hpp, network/network.cpp, network/grpc and network/asio: addresses, the clients and
-- servers of a node, what a message becomes on the wire, and the two transports.
pub mod Peers
pub mod Grpc
pub mod Servers
pub mod PeerSet
pub mod PeerLaws
pub mod Clients
pub mod Calls
pub mod Serving
pub mod Server
pub mod Listening
pub mod Udp
pub mod Echo
pub mod Exchange
pub mod Silence
mod Tests
