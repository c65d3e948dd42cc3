-- ===== src/Wni.antt =====
-- internal/wni: the client side of the push protocol.
pub mod Frame
pub mod Client
