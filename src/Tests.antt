-- ===== src/Tests.antt =====
-- Runs of the definitions on small inputs, and each theorem at a concrete input.
mod Platform
mod Frames
mod Parser
mod Policy
mod Server
mod Tls
mod Web
mod Worker
mod Udp
mod WebSocket
mod Epoll
mod Http
mod Agent
