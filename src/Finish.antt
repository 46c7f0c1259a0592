-- ===== src/Finish.antt =====
-- internal/finishchange and internal/transport/publicweb: the stream of finishes to the browsers.
pub mod Stream
mod Tests
