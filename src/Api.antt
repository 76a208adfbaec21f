-- ===== src/Api.antt =====
-- internal/api: what the HTTP server answers. A handler's run is the list of the calls that it makes of
-- its http.ResponseWriter, and how it ended: it returned, or it panicked, with http.ErrAbortHandler or
-- with something else.
pub mod Response
pub mod Search
pub mod Health
pub mod Middleware
pub mod Router
pub mod Answers
pub mod Statuses
use near_real_time_hybrid_se.Common.{ℕ, List}
use near_real_time_hybrid_se.Common.Bytes.{Bytes}

-- Header().Set, WriteHeader and Write.
pub data Call : Type 0 where
  set_header : Bytes → Bytes → Call
  write_header : ℕ → Call
  write : Bytes → Call

pub data End : Type 0 where
  returned aborted panicked : End

pub record Handled : Type 0 where
  pub calls : List Call
  pub end : End

-- The parts of a request that the package reads.
pub record Request : Type 0 where
  pub method : Bytes
  pub path : Bytes
  pub raw_query : Bytes
  pub request_id : Bytes
