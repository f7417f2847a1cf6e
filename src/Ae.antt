-- ===== src/Ae.antt =====
-- redis/src/ae.c and ae.h: the event loop.
pub mod Events
pub mod Loop
pub mod Laws
mod Tests
pub mod Wait
