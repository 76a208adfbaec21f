-- ===== src/Loadtest.antt =====
-- internal/loadtest: the load generator's statistics, and its wait for documents. The keyword index and the
-- clock are parameters. A Duration is the ℤ of its nanoseconds. What is only printed or logged is left
-- out.
pub mod Stats
pub mod Watch
